-- ===== src/Socks/Allow.antt =====
-- `ParseAllowList` of internal/socks/socks.go. The operations of the net package are an interface: an address and a
-- block of addresses, and how they are read and compared. `atoi` answers nothing for a number below 0 too, which is
-- no port either way.
pub mod Narrow
use f1337_mcp.Prelude.{
  ℕ, zero, suc, ◌+◌, ◌-◌, ◌*◌, ◌/◌, ◌%◌, ◌^◌, ◌≤◌, ◌<◌, ◌≡◌, refl, sym, ap, ◌∙◌, ◌≢◌, ◌↔◌, ◌⊎◌, inl,
  inr, Bool, true, false, not, ◌&&◌, ◌||◌, Option, none, some, List, [], ◌∷◌, ◌++◌, map,
  append_assoc, append-nil, arith, ltb, leb, ◌==◌, if◌then◌else◌, ltb→lt, lt→ltb, ==_iff,
  Bool-cases, Option-cases, is_some, length, get_elem?, get_or, set, take, drop, replicate, any,
  all, All, length-append, length-set, length-replicate, length-take, length-drop, take-append-drop,
  get_or-set_self, get_or-set_ne, Text, codes, eq_text, eq_text_iff, eq_text_refl, has_prefix,
  is_space, trim_left, trim_space, contains_byte, lower_byte,
}
use f1337_mcp.Socks.{Destination}

pub record Net (Ip Block : Type 0) : Type 0 where
  pub split_host_port : Text → Option (Text × Text)
  pub atoi : Text → Option ℕ
  pub parse_cidr : Text → Option Block
  pub parse_ip : Text → Option Ip
  pub ip_equal : Ip → Ip → Bool
  pub block_contains : Block → Ip → Bool
  pub to_lower : Text → Text
  pub equal_fold : Text → Text → Bool

pub data AllowError : Type 0 where
  empty_entry : AllowError
  bad_port : AllowError
  no_host : AllowError
  bad_block : AllowError

pub data Parsed {ℓ} (A : Type ℓ) : Type ℓ where
  parsed : A → Parsed A
  rejected : AllowError → Parsed A

-- The first entry that is rejected ends the loop.
unfoldable pub cons_parsed {ℓ} : {A : Type ℓ} → Parsed A → Parsed (List A) → Parsed (List A)
cons_parsed (rejected e) rest = rejected e
cons_parsed (parsed r) (rejected e) = rejected e
cons_parsed (parsed r) (parsed rs) = parsed (r ∷ rs)

pub record Rule (Ip Block : Type 0) : Type 0 where
  pub host : Text
  pub block : Option Block
  pub ip : Option Ip
  pub port : ℕ

module _ {Ip Block : Type 0} (net : Net Ip Block) where
  unfoldable pub parse_target : Text → ℕ → Parsed (Rule Ip Block)
  parse_target entry port =
      if contains_byte 47 entry
      then elim (net.parse_cidr entry) [
        | none ↦ rejected bad_block
        | some block ↦ parsed (record { host = []; block = some block; ip = none; port = port })
      ]
      else elim (net.parse_ip entry) [
        | none ↦ parsed (record { host = net.to_lower entry; block = none; ip = none; port = port })
        | some ip ↦ parsed (record { host = []; block = none; ip = some ip; port = port })
      ]

  unfoldable pub parse_with_port : Text → Option ℕ → Parsed (Rule Ip Block)
  unfolding parse_target
  parse_with_port host none = rejected bad_port
  parse_with_port host (some n) =
      if ltb n 1 || ltb 65535 n
      then rejected bad_port
      else if eq_text (trim_space host) []
      then rejected no_host
      else parse_target host n

  unfoldable pub parse_split : Text → Option (Text × Text) → Parsed (Rule Ip Block)
  unfolding parse_target parse_with_port
  parse_split entry none = parse_target entry 0
  parse_split entry (some (host, port)) = parse_with_port host (net.atoi port)

  unfoldable pub parse_entry : Text → Parsed (Rule Ip Block)
  unfolding parse_split
  parse_entry raw =
      let entry = trim_space raw in
      if eq_text entry []
      then rejected empty_entry
      else parse_split entry (net.split_host_port entry)

  -- The loop of `ParseAllowList`
  unfoldable pub parse_entries : List Text → Parsed (List (Rule Ip Block))
  unfolding parse_entry cons_parsed
  parse_entries [] = parsed []
  parse_entries (raw ∷ entries) =
      let rest = parse_entries entries in cons_parsed (parse_entry raw) rest

  -- What the function that is returned answers.
  unfoldable pub rule_matches : Destination → Option Ip → Rule Ip Block → Bool
  rule_matches dst at' r =
      if not (r.port == 0) && not (r.port == dst.port)
      then false
      else if not (eq_text r.host [])
      then net.equal_fold r.host dst.host
      else elim r.ip [
        | some ip ↦ elim at' [ none ↦ false | some a ↦ net.ip_equal ip a ]
        | none ↦ elim r.block [
          | none ↦ false
          | some block ↦ elim at' [ none ↦ false | some a ↦ net.block_contains block a ]
        ]
      ]

  unfoldable pub allows : List (Rule Ip Block) → Destination → Bool
  unfolding rule_matches
  allows rules dst = any (rule_matches dst (net.parse_ip dst.host)) rules

  unfoldable pub narrowed : Parsed (List (Rule Ip Block)) → Parsed (Option (Destination → Bool))
  unfolding allows
  narrowed (rejected e) = rejected e
  narrowed (parsed []) = parsed none
  narrowed (parsed (r ∷ rs)) = parsed (some (allows (r ∷ rs)))

  unfoldable pub parse_allow_list : List Text → Parsed (Option (Destination → Bool))
  unfolding parse_entries narrowed
  parse_allow_list entries = narrowed (parse_entries entries)
