-- ===== src/Pool.antt =====
-- internal/client/pool.go: the channels to the sandboxes, one for each name. A channel is the number of the dial that
-- made it; which are open, and which health loops run, is part of the state. `split_host_port` is net.SplitHostPort,
-- and what grpc.NewClient answers is an argument.
pub mod Entries
pub mod Calls
pub mod Posture
mod Examples
use f1337_mcp.Prelude.{
  ℕ, zero, suc, ◌+◌, ◌-◌, ◌*◌, ◌/◌, ◌%◌, ◌^◌, ◌≤◌, ◌<◌, ◌≡◌, refl, sym, ap, ◌∙◌, ◌≢◌, ◌↔◌, ◌⊎◌, inl,
  inr, Bool, true, false, not, ◌&&◌, ◌||◌, Option, none, some, List, [], ◌∷◌, ◌++◌, map,
  append_assoc, append-nil, arith, ltb, leb, ◌==◌, if◌then◌else◌, ltb→lt, lt→ltb, ==_iff,
  Bool-cases, Option-cases, is_some, length, get_elem?, get_or, set, take, drop, replicate, any,
  all, All, length-append, length-set, length-replicate, length-take, length-drop, take-append-drop,
  get_or-set_self, get_or-set_ne, Text, codes, eq_text, eq_text_iff, eq_text_refl, has_prefix,
  is_space, trim_left, trim_space, contains_byte, lower_byte,
}

pub record Target : Type 0 where
  pub name : Text
  pub address : Text
  pub insecure : Bool

abbrev pub eq_bool : Bool → Bool → Bool
eq_bool true b = b
eq_bool false b = not b

-- `==` on targets
unfoldable pub eq_target : Target → Target → Bool
eq_target a b =
    eq_text a.name b.name && (eq_text a.address b.address && eq_bool a.insecure b.insecure)

pub record Pooled : Type 0 where
  pub target : Target
  pub channel : ℕ

pub record Pool : Type 0 where
  pub has_tls : Bool
  pub entries : List Pooled
  pub is_closed : Bool
  pub dial_count : ℕ
  pub opened : List ℕ
  pub probing : List ℕ

pub data PoolError : Type 0 where
  pool_closed : PoolError
  no_credentials : PoolError
  bad_address : PoolError
  names_no_host : PoolError
  not_dialed : PoolError

pub data Channel : Type 0 where
  got : ℕ → Channel
  fails : PoolError → Channel

unfoldable pub new_pool : Bool → Pool
new_pool has_tls = record {
  has_tls = has_tls;
  entries = [];
  is_closed = false;
  dial_count = 0;
  opened = [];
  probing = [];
}

unfoldable pub find_entry : Text → List Pooled → Option Pooled
find_entry n [] = none
find_entry n (e ∷ es) =
    let rest = find_entry n es in if eq_text e.target.name n then some e else rest

-- `delete(p.entries, name)`
unfoldable pub delete_entry : Text → List Pooled → List Pooled
delete_entry n [] = []
delete_entry n (e ∷ es) =
    let rest = delete_entry n es in if eq_text e.target.name n then rest else e ∷ rest

unfoldable pub without_channel : ℕ → List ℕ → List ℕ
without_channel c [] = []
without_channel c (d ∷ ds) = let rest = without_channel c ds in if d == c then rest else d ∷ rest

unfoldable pub tear_down : ℕ → Pool → Pool
tear_down c p = record p {
  opened = without_channel c p.opened;
  probing = without_channel c p.probing;
}

evict : Text → Option Pooled → Pool → Pool
unfolding tear_down
evict n none p = p
evict n (some e) p = tear_down e.channel (record p { entries = delete_entry n p.entries })

unfoldable pub remove_locked : Text → Pool → Pool
unfolding evict
remove_locked n p = evict n (find_entry n p.entries) p

module _ (split_host_port : Text → Option (Text × Text)) (new_client : Target → Bool) where
  -- `dial` and the entry that `Conn` makes of its channel
  dial_host : Target → Option (Text × Text) → Pool → Pool × Channel
  dial_host t none p = (p, fails bad_address)
  dial_host t (some (host, port)) p =
      if eq_text host []
      then (p, fails names_no_host)
      else if not (new_client t)
      then (record p { dial_count = p.dial_count + 1 }, fails not_dialed)
      else (
        record p {
          dial_count = p.dial_count + 1;
          entries = record { target = t; channel = p.dial_count } ∷ p.entries;
          opened = p.dial_count ∷ p.opened;
          probing = p.dial_count ∷ p.probing;
        },
        got p.dial_count,
      )

  dial : Target → Pool → Pool × Channel
  unfolding dial_host
  dial t p = dial_host t (split_host_port t.address) p

  pooled_or_dial : Target → Option Pooled → Pool → Pool × Channel
  unfolding dial
  pooled_or_dial t none p = dial t p
  pooled_or_dial t (some e) p =
      if eq_target e.target t then (p, got e.channel) else dial t (remove_locked t.name p)

  unfoldable pub conn : Target → Pool → Pool × Channel
  unfolding pooled_or_dial
  conn t p =
      if p.is_closed
      then (p, fails pool_closed)
      else if not t.insecure && not p.has_tls
      then (p, fails no_credentials)
      else pooled_or_dial t (find_entry t.name p.entries) p

-- `Remove`
unfoldable pub remove_pooled : Text → Pool → Pool
remove_pooled n p = remove_locked n p

tear_down_all : List Pooled → Pool → Pool
unfolding tear_down
tear_down_all [] p = p
tear_down_all (e ∷ es) p = tear_down_all es (tear_down e.channel p)

-- `Close`
unfoldable pub close_pool : Pool → Pool
unfolding tear_down_all
close_pool p =
    if p.is_closed then p else tear_down_all p.entries (record p { is_closed = true; entries = [] })
