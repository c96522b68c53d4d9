-- ===== src/Enroll/Examples.antt =====
-- Runs of the token store and of the rate limiter on concrete data. The digest and the encoding of the
-- examples leave a text as it is.
use f1337_mcp.Files.Pattern.{split_on}
use f1337_mcp.Enroll.Sans.{check_sans}
use f1337_mcp.Prelude.{
  ℕ, ◌+◌, ◌≤◌, ◌≡◌, refl, Bool, true, false, none, some, List, [], ◌∷◌, map, arith, ltb, ◌==◌,
  if◌then◌else◌, get_or, replicate, any, Text, codes, eq_text, contains_byte,
}
use f1337_mcp.Enroll.Token.{verdict, prune, redeemable, ok, TokenRecord, Entry, exported}
use f1337_mcp.Enroll.Store.{
  generate_token, update, TokenStore, new_token_store, Clock, Disk, MintOptions, mint, redeem,
  inspect, minted, mark_used,
}
use f1337_mcp.Enroll.Store.Entries.{unspent}
use f1337_mcp.Enroll.Store.Ledger.{
  Request, mint_request, redeem_request, revoke_request, list_request, Event, serve, mints,
  redemptions, redemptions_bounded,
}
use f1337_mcp.Enroll.Store.Authority.{authority, Authorizes, serve-Authorizes}
use f1337_mcp.Enroll.Store.Redeem.{redeem-mint, with_use}
use f1337_mcp.Enroll.RateLimit.{
  Attempts, new_rate_limiter, serve_attempts, after, allow, hits_at, sweep, put_hits,
}
use f1337_mcp.Enroll.Recorder.{Registered, Circumstances, fleet_ports}
use f1337_mcp.Enroll.Handler.Adds.{Addition, enroll-Addition}
use f1337_mcp.Enroll.Service
use f1337_mcp.Files.Locks.{less_text}
use f1337_mcp.Enroll.Service.{
  Packages, FleetPorts, name_taken, recorded, assigned, check_requested_name,
  check_host_description, check_requested_addresses, certifiable, candidate_name, decimal, san_set,
  certified_name, enrolled_sandbox,
}
use f1337_mcp.Enroll.Handler.{
  Answer, refused, invalid_argument, World, Moment, Leaf, enroll, enrolled, check_request,
  reserving, sign_csr, leaf_for,
}
use f1337_mcp.Enroll.Handler.Spends.{Cost, enroll-Cost}
use f1337_mcp.Enroll.Handler.Certified.{IsCertified, enroll-IsCertified, reserving-sign_csr}

abbrev plain : Text → Text
plain t = t

abbrev drawn : Text
drawn = codes "abcdef"

abbrev drawn_token : Text
drawn_token = codes "sbx_abcdef"

abbrev sound : Disk
sound = record { lock_fails = false; load_fails = false; save_fails = false }

abbrev full_disk : Disk
full_disk = record { lock_fails = false; load_fails = false; save_fails = true }

abbrev clock_at : ℕ → Clock
clock_at t = record { asked = t; locked = t }

abbrev options : MintOptions
options = record { name = codes "box"; labels = []; addresses = []; ttl = some 100 }

abbrev asks : Request → ℕ → Event
asks r t = record { request = r; clock = clock_at t; disk = sound }

-- A token is minted, redeemed twice, and asked for again on a disk that is full.
abbrev history : List Event
history =
    asks (mint_request options (some drawn)) 10
    ∷ asks (redeem_request drawn_token) 20
    ∷ asks (redeem_request drawn_token) 30
    ∷ record { request = redeem_request drawn_token; clock = clock_at 40; disk = full_disk }
    ∷ asks list_request 50
    ∷ []

redemptions_bounded_example :
    unspent drawn_token (serve plain plain new_token_store history).tokens
      + redemptions plain plain drawn_token new_token_store history
    ≤ unspent drawn_token new_token_store.tokens
      + mints plain plain drawn_token new_token_store history
redemptions_bounded_example = redemptions_bounded plain plain drawn_token new_token_store history

abbrev held_entry : Entry
held_entry = minted plain plain options drawn_token 10

abbrev one_token : TokenStore
one_token = record { on_disk = true; tokens = held_entry ∷ [] }

abbrev spends : List Event
spends = asks (redeem_request drawn_token) 20 ∷ asks (revoke_request drawn_token) 30 ∷ []

serve-Authorizes_example :
    Authorizes drawn_token (authority held_entry) (serve plain plain one_token spends).tokens
unfolding mints
serve-Authorizes_example =
    serve-Authorizes drawn_token (authority held_entry) plain plain one_token spends refl
      ((λ e. refl), tt)

abbrev box_record : TokenRecord
box_record = exported held_entry

redeem-mint_example :
    (redeem plain plain drawn_token
      (clock_at 60)
      sound
      (mint plain plain options (some drawn) (clock_at 10) sound new_token_store).1).0
    ≡ ok (with_use 60 box_record)
unfolding new_token_store mint update generate_token
redeem-mint_example =
    redeem-mint plain plain options drawn (clock_at 10) (clock_at 60) sound sound new_token_store
      drawn_token box_record (refl, refl, refl) (refl, refl, refl) tt refl (omega arith)
      (omega arith)

-- Five attempts from two addresses.
abbrev attempts : Attempts
attempts = (codes "a", 1) ∷ (codes "a", 2) ∷ (codes "a", 3) ∷ (codes "b", 4) ∷ (codes "b", 15) ∷ []

abbrev admitted : Attempts
admitted = (serve_attempts (new_rate_limiter 10 2 3) attempts).1

-- A package net that knows one address.
abbrev packages : Packages
packages = record {
  split_host_port =
      λ a. if eq_text a (codes "127.0.0.1:7443") then some (codes "127.0.0.1") else none;
  parse_ip = λ h. if eq_text h (codes "127.0.0.1") then some (127 ∷ 0 ∷ 0 ∷ 1 ∷ []) else none;
  is_loopback = λ ip. get_or ip 0 0 == 127;
  is_unspecified = λ ip. false;
  valid_utf8 = λ t. true;
  runes = λ t. t;
  is_control = λ r. ltb r 32;
  is_format = λ r. false;
  check_csr = λ t. true;
}

-- A fleet that is the list of its names.
abbrev names_fleet : FleetPorts (List Text)
names_fleet = record {
  exists_name = none;
  record_sandbox = some (λ fleet sb.
      if any (λ n. eq_text n sb.name) fleet
      then (fleet, name_taken)
      else (sb.name ∷ fleet, recorded));
}

abbrev enroll_request : Service.Request
enroll_request = record {
  token = drawn_token;
  requested_name = [];
  listen_addresses = codes "127.0.0.1:7443" ∷ [];
  csr_der = codes "csr";
  agent_version = codes "v1";
  os = codes "linux";
  arch = codes "amd64";
  kernel_version = [];
  hostname = codes "h";
  path_separator = codes "/";
}

abbrev at_once : Moment
at_once = record {
  peer = codes "a";
  now = 20;
  inspect_clock = clock_at 20;
  inspect_disk = sound;
  redeem_clock = clock_at 21;
  redeem_disk = sound;
}

abbrev world : World (List Text)
world = record { limiter = new_rate_limiter 10 2 3; tokens = one_token; fleet = codes "box" ∷ [] }

abbrev box_leaf : Leaf
box_leaf = record {
  csr_der = codes "csr";
  subject = codes "box-2";
  dns_names = codes "box-2" ∷ [];
  ip_addresses = (127 ∷ 0 ∷ 0 ∷ 1 ∷ []) ∷ [];
}

abbrev creates : Leaf → Bool
creates leaf = true

-- The name of the token is taken, so that the second is assigned.
enrolls :
    (enroll packages plain plain names_fleet creates enroll_request at_once world).0
    ≡ enrolled (codes "box-2") box_leaf
unfolding enroll allow new_rate_limiter after hits_at sweep put_hits inspect update redeemable prune
    minted eq_text verdict check_requested_name check_host_description check_requested_addresses
    certifiable check_sans split_on contains_byte redeem mark_used reserving less_text
    candidate_name decimal san_set certified_name enrolled_sandbox check_request leaf_for
enrolls = refl

enroll-Cost_example :
    Cost packages plain plain names_fleet creates enroll_request at_once world
      (enroll packages plain plain names_fleet creates enroll_request at_once world).0
      (enroll packages plain plain names_fleet creates enroll_request at_once world).1
enroll-Cost_example =
    enroll-Cost packages plain plain names_fleet creates enroll_request at_once world

enroll-IsCertified_example :
    (rec : TokenRecord) × ((inspect plain plain drawn_token (clock_at 20) sound one_token).0
      ≡ ok rec)
    × IsCertified packages plain plain names_fleet creates enroll_request at_once rec
        (codes "box-2")
        box_leaf
enroll-IsCertified_example =
    enroll-IsCertified packages plain plain names_fleet creates enroll_request at_once world
      (codes "box-2") box_leaf enrolls

checks :
    check_request packages plain plain names_fleet creates box_record enroll_request
    ≡ some (codes "127.0.0.1" ∷ [])
unfolding check_request Service.check_requested_name Service.check_host_description eq_text minted
    Service.check_requested_addresses
checks = refl

reserves :
    (reserving packages plain plain names_fleet creates box_record enroll_request
      (codes "127.0.0.1" ∷ [])
      at_once
      one_token
      (codes "box" ∷ [])).0
    ≡ assigned (codes "box-2")
unfolding reserving Service.certifiable check_sans Service.san_set minted eq_text
    Service.certified_name Service.candidate_name contains_byte split_on redeem update redeemable
    prune verdict Service.enrolled_sandbox
reserves = refl

reserving-sign_csr_example :
    sign_csr packages plain plain names_fleet creates (
      leaf_for packages plain plain names_fleet creates box_record enroll_request
        (codes "127.0.0.1" ∷ [])
        (codes "box-2"))
    ≡ true
reserving-sign_csr_example =
    reserving-sign_csr packages plain plain names_fleet creates enroll_request at_once box_record
      (codes "127.0.0.1" ∷ []) one_token (codes "box" ∷ []) (codes "box-2") checks reserves

-- The registry as the fleet, with a healthy disk.
abbrev healthy : Circumstances
healthy = record {
  record_access = λ n. record { lock_fails = false; load_fails = false; save_fails = false };
  exists_access = λ n name. record { lock_fails = false; load_fails = false; save_fails = false };
  record_time = λ n. 30;
  add_time = λ n. 31;
}

abbrev registry_world : World Registered
registry_world = record {
  limiter = new_rate_limiter 10 2 3;
  tokens = one_token;
  fleet = record { file = none; records = 0 };
}

enroll-Addition_example :
    Addition packages plain plain healthy creates enroll_request at_once registry_world
      (enroll packages plain plain
        (fleet_ports healthy)
        creates
        enroll_request
        at_once
        registry_world).0
      (enroll packages plain plain
        (fleet_ports healthy)
        creates
        enroll_request
        at_once
        registry_world).1
enroll-Addition_example =
    enroll-Addition packages plain plain healthy creates enroll_request at_once registry_world

-- A name as long as a label can be, which another host takes between the check and the record.
abbrev long_name : Text
long_name = replicate 63 97

abbrev long_store : TokenStore
long_store = record {
  on_disk = true;
  tokens = minted plain plain (record options { name = long_name }) drawn_token 10 ∷ [];
}

abbrev race : Answer × World (List Text)
race =
    enroll packages plain plain names_fleet creates enroll_request at_once
      (record world { tokens = long_store; fleet = long_name ∷ [] })

-- The token is spent, and the request is then refused as one that cannot be certified.
spent_and_refused :
    (race.0 ≡ refused invalid_argument)
    × (map (λ (e : Entry). e.rec.used) race.1.tokens.tokens ≡ true ∷ [])
unfolding enroll allow new_rate_limiter after hits_at sweep put_hits inspect update redeemable prune
    minted eq_text verdict check_requested_name check_host_description check_requested_addresses
    certifiable check_sans split_on contains_byte redeem mark_used reserving less_text
    candidate_name decimal san_set certified_name enrolled_sandbox check_request leaf_for
spent_and_refused = (refl, refl)
