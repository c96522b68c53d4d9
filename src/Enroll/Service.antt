-- ===== src/Enroll/Service.antt =====
-- internal/security/enroll/service.go: the Enroll call, over the limiter, the token store and the fleet. Package net, the
-- classes of package unicode, the parsing and signing of package x509 and the fleet are arguments.
pub mod Hosts
use f1337_mcp.Prelude.{
  ℕ, zero, suc, ◌+◌, ◌-◌, ◌*◌, ◌/◌, ◌%◌, ◌^◌, ◌≤◌, ◌<◌, ◌≡◌, refl, sym, ap, ◌∙◌, ◌≢◌, ◌↔◌, ◌⊎◌, inl,
  inr, Bool, true, false, not, ◌&&◌, ◌||◌, Option, none, some, List, [], ◌∷◌, ◌++◌, map,
  append_assoc, append-nil, arith, ltb, leb, ◌==◌, if◌then◌else◌, ltb→lt, lt→ltb, ==_iff,
  Bool-cases, Option-cases, is_some, length, get_elem?, get_or, set, take, drop, replicate, any,
  all, All, length-append, length-set, length-replicate, length-take, length-drop, take-append-drop,
  get_or-set_self, get_or-set_ne, Text, codes, eq_text, eq_text_iff, eq_text_refl, has_prefix,
  is_space, trim_left, trim_space, contains_byte, lower_byte,
}
use f1337_mcp.Files.Locks.{less_text}
use f1337_mcp.Enroll.Token.{TokenError, Result, ok, err, is_token_rejection, TokenRecord}
use f1337_mcp.Enroll.Store.{Disk, Clock, TokenStore, inspect, redeem}
use f1337_mcp.Enroll.RateLimit.{RateLimiter, new_rate_limiter, default_rate_window, allow}
use f1337_mcp.Enroll.Sans.{check_sans, last_byte}

pub record Request : Type 0 where
  pub token : Text
  pub requested_name : Text
  pub listen_addresses : List Text
  pub csr_der : Text
  pub agent_version : Text
  pub os : Text
  pub arch : Text
  pub kernel_version : Text
  pub hostname : Text
  pub path_separator : Text

pub record EnrolledSandbox : Type 0 where
  pub name : Text
  pub address : Text
  pub labels : List (Text × Text)
  pub agent_version : Text
  pub os : Text
  pub arch : Text
  pub kernel_version : Text
  pub hostname : Text
  pub path_separator : Text

-- What the code takes from the standard library: the host that net.SplitHostPort gives, net.ParseIP and its answers as
-- bytes, the validity and the runes of a text, and unicode.IsControl and unicode.Cf.
pub record Packages : Type 0 where
  pub split_host_port : Text → Option Text
  pub parse_ip : Text → Option Text
  pub is_loopback : Text → Bool
  pub is_unspecified : Text → Bool
  pub valid_utf8 : Text → Bool
  pub runes : Text → List ℕ
  pub is_control : ℕ → Bool
  pub is_format : ℕ → Bool
  -- ca.CheckCSR
  pub check_csr : Text → Bool

abbrev pub max_name_attempts : ℕ
max_name_attempts = 64

abbrev pub max_name_length : ℕ
max_name_length = 128

abbrev pub max_descriptor_length : ℕ
max_descriptor_length = 256

abbrev pub max_listen_addresses : ℕ
max_listen_addresses = 32

-- `checkRequestedName`
unfoldable pub check_requested_name : Text → Bool
check_requested_name name =
    if ltb max_name_length (length name) then false else all (λ r. not (leb r 32 || ltb 126 r)) name

-- `certifiedName`
unfoldable pub certified_name : Text → Text → Text
certified_name reserved assigned = if eq_text reserved [] then [] else assigned

unfoldable pub is_bracketed : Text → Bool
unfolding last_byte
is_bracketed s = get_or s 0 0 == 91 && last_byte s == 93

-- A host, unless it is the unspecified address.
unfoldable pub dialable : Text → Text
dialable host = if eq_text host (codes "0.0.0.0") || eq_text host (codes "::") then [] else host

-- A set of texts: `m[k] = true`
unfoldable pub has_text : List Text → Text → Bool
has_text l t = any (λ x. eq_text x t) l

unfoldable pub add_text : List Text → Text → List Text
unfolding has_text
add_text l t = if has_text l t then l else l ++ (t ∷ [])

-- `slices.Sort`
unfoldable pub insert_text : Text → List Text → List Text
insert_text t [] = t ∷ []
insert_text t (x ∷ l) = let rest = insert_text t l in if less_text x t then x ∷ rest else t ∷ x ∷ l

unfoldable pub sort_texts : List Text → List Text
unfolding insert_text
sort_texts [] = []
sort_texts (t ∷ l) = insert_text t (sort_texts l)

module _ (p : Packages) where
  -- `checkDescriptor`
  unfoldable pub check_descriptor : Text → Bool
  check_descriptor value =
      if ltb max_descriptor_length (length value)
      then false
      else if not (p.valid_utf8 value)
      then false
      else all (λ r. not (p.is_control r || p.is_format r)) (p.runes value)

  -- `checkHostDescription`
  unfoldable pub check_host_description : Request → Bool
  unfolding check_descriptor
  check_host_description req =
      if not (
        all check_descriptor (
          req.agent_version ∷ req.os ∷ req.arch ∷ req.kernel_version ∷ req.hostname
          ∷ req.path_separator ∷ []))
      then false
      else if ltb max_listen_addresses (length req.listen_addresses)
      then false
      else all check_descriptor req.listen_addresses

  unfoldable pub split_host : Text → Option Text → Text
  unfolding is_bracketed
  split_host addr (some host) = host
  split_host addr none =
      if ltb 1 (length addr) && is_bracketed addr
      then take (length addr - 2) (drop 1 addr)
      else addr

  -- `hostOf`
  unfoldable pub host_of : Text → Text
  unfolding split_host dialable
  host_of addr = dialable (split_host addr (p.split_host_port addr))

  unfoldable pub is_loopback_ip : Option Text → Bool
  is_loopback_ip none = false
  is_loopback_ip (some ip) = p.is_loopback ip

  -- The hosts of the authorized addresses, added to a set.
  unfoldable pub add_hosts : List Text → List Text → List Text
  unfolding host_of add_text
  add_hosts hosts [] = hosts
  add_hosts hosts (addr ∷ addrs) =
      add_hosts (if eq_text (host_of addr) [] then hosts else add_text hosts (host_of addr)) addrs

  -- The loop of checkRequestedAddresses, with the hosts that are allowed and those that were added.
  unfoldable pub request_hosts : List Text → List Text → List Text → Option (List Text)
  unfolding is_loopback_ip has_text
  request_hosts allowed extra [] = some extra
  request_hosts allowed extra (addr ∷ addrs) =
      let host = host_of addr in
      let skip = request_hosts allowed extra addrs in
      let take_it = request_hosts (allowed ++ (host ∷ [])) (extra ++ (host ∷ [])) addrs in
      if eq_text host [] || has_text allowed host
      then skip
      else if is_loopback_ip (p.parse_ip host)
      then take_it
      else none

  unfoldable pub name_set : Text → List Text
  name_set cert_name = if eq_text cert_name [] then [] else cert_name ∷ []

  -- `checkRequestedAddresses`; `none` is the error.
  unfoldable pub check_requested_addresses : Text → List Text → List Text → Option (List Text)
  unfolding request_hosts add_hosts name_set
  check_requested_addresses cert_name authorized requested =
      request_hosts (add_hosts (name_set cert_name) authorized) [] requested

  unfoldable pub add_extra : List Text → List Text → List Text
  add_extra hosts [] = hosts
  add_extra hosts (host ∷ extra) = add_extra (add_text hosts host) extra

  -- The loop of sanSet over its hosts.
  unfoldable pub dns_of : List Text → List Text
  dns_of [] = []
  dns_of (host ∷ hosts) =
      let rest = dns_of hosts in if is_some (p.parse_ip host) then rest else host ∷ rest

  unfoldable pub ips_of : List Text → List Text
  ips_of [] = []
  ips_of (host ∷ hosts) =
      let rest = ips_of hosts in elim (p.parse_ip host) [ some ip ↦ ip ∷ rest | none ↦ rest ]

  unfoldable pub san_hosts : Text → List Text → List Text → List Text
  unfolding add_hosts add_extra name_set
  san_hosts cert_name authorized extra = add_extra (add_hosts (name_set cert_name) authorized) extra

  -- `sanSet`
  unfoldable pub san_set : Text → List Text → List Text → List Text × List Text
  unfolding dns_of ips_of san_hosts sort_texts
  san_set cert_name authorized extra = (
    sort_texts (dns_of (san_hosts cert_name authorized extra)),
    sort_texts (ips_of (san_hosts cert_name authorized extra)),
  )

  unfoldable pub certifiable : List Text × List Text → Bool
  certifiable (dns_names, ips) = check_sans p.is_unspecified dns_names ips

  unfoldable pub first_or : List Text → Text → Text
  first_or [] d = d
  first_or (a ∷ as') d = a

  -- `enrolledSandbox`, with the name that reserve sets
  unfoldable pub enrolled_sandbox : TokenRecord → Request → Text → EnrolledSandbox
  unfolding first_or
  enrolled_sandbox rec req name = record {
    name = name;
    address = first_or rec.addresses (first_or req.listen_addresses []);
    labels = rec.labels;
    agent_version = req.agent_version;
    os = req.os;
    arch = req.arch;
    kernel_version = req.kernel_version;
    hostname = req.hostname;
    path_separator = req.path_separator;
  }

-- fmt.Sprintf("%d", n), below 100
unfoldable pub decimal : ℕ → Text
decimal n = if ltb n 10 then (48 + n) ∷ [] else (48 + n / 10) ∷ (48 + n % 10) ∷ []

unfoldable pub candidate_name : Text → ℕ → Text
unfolding decimal
candidate_name base i = if i == 0 then base else base ++ (45 ∷ decimal (i + 1))

pub data Recorded : Type 0 where
  recorded : Recorded
  name_taken : Recorded
  record_failed : Recorded

-- NameChecker and Recorder over the state of a fleet; a service without either has `none`.
pub record FleetPorts (F : Type 0) : Type 0 where
  pub exists_name : Option (F → Text → Bool)
  pub record_sandbox : Option (F → EnrolledSandbox → F × Recorded)

pub data Reserved : Type 0 where
  assigned : Text → Reserved
  uncertifiable : Reserved
  not_redeemed : TokenError → Reserved
  fleet_failed : Reserved
  no_name_free : Reserved
