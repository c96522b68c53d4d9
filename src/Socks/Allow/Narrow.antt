-- ===== src/Socks/Allow/Narrow.antt =====
-- An allow list of internal/socks/socks.go never narrows less than it reads.
use f1337_mcp.Socks.{Destination}
use f1337_mcp.Prelude.{
  ℕ, suc, ◌≤◌, ◌<◌, ◌≡◌, refl, sym, ap, ◌⊎◌, inl, inr, Bool, true, false, ◌||◌, Option, none, some,
  List, [], ◌∷◌, arith, ltb, Bool-cases, Option-cases, is_some, length, All, Text, eq_text,
  trim_space, contains_byte,
}
use f1337_mcp.Socks.Allow.{
  allows, parse_allow_list, narrowed, Net, Parsed, Rule, cons_parsed, parse_target, parse_with_port,
  parse_split, parse_entry, parse_entries,
}

parsed-injective {ℓ} : {A : Type ℓ} (a b : A) → Parsed.parsed a ≡ Parsed.parsed b → a ≡ b
parsed-injective a b h = cc

cons_parsed_lem {ℓ} :
    {A : Type ℓ} (x : Parsed A) (y : Parsed (List A)) (out : List A)
    → cons_parsed x y ≡ Parsed.parsed out
    → (r : A) × (rs : List A) × (x ≡ Parsed.parsed r) × (y ≡ Parsed.parsed rs) × (r ∷ rs ≡ out)
unfolding cons_parsed
cons_parsed_lem (Parsed.rejected e) y out h = cc
cons_parsed_lem (Parsed.parsed r) (Parsed.rejected e) out h = cc
cons_parsed_lem (Parsed.parsed r) (Parsed.parsed rs) out h =
    (r, rs, refl, refl, parsed-injective (r ∷ rs) out h)

-- A rule that some destination can match, with a port that exists or none.
abbrev pub Usable : {Ip Block : Type 0} → Rule Ip Block → Type 0
Usable r =
    (r.port ≤ 65535)
    × ((eq_text r.host [] ≡ false) ⊎ (is_some r.ip ≡ true) ⊎ (is_some r.block ≡ true))

module _ {Ip Block : Type 0} (net : Net Ip Block)
    (lower : (s : Text) → eq_text s [] ≡ false → eq_text (net.to_lower s) [] ≡ false) where
  parse_target-Usable :
      (entry : Text) (port : ℕ) (r : Rule Ip Block)
      → eq_text entry [] ≡ false
      → port ≤ 65535
      → parse_target net entry port ≡ Parsed.parsed r
      → Usable r
  unfolding parse_target
  parse_target-Usable entry port r solid small h = elim (Bool-cases (contains_byte 47 entry)) [
    | inl e ↦ elim (Option-cases (net.parse_cidr entry)) [
      | inl n ↦ cc (rw (e, n) at h)
      | inr (b, n) ↦ rw (← parsed-injective _ r (rw (e, n) at h)) (small, inr (inr refl))
    ]
    | inr e ↦ elim (Option-cases (net.parse_ip entry)) [
      | inl n ↦ rw (← parsed-injective _ r (rw (e, n) at h)) (small, inl (lower entry solid))
      | inr (i, n) ↦ rw (← parsed-injective _ r (rw (e, n) at h)) (small, inr (inl refl))
    ]
  ]

  solid_untrimmed : (s : Text) → eq_text (trim_space s) [] ≡ false → eq_text s [] ≡ false
  unfolding trim_space eq_text
  solid_untrimmed [] h = h
  solid_untrimmed (c ∷ s) h = refl

  parse_with_port-Usable :
      (host : Text) (n : Option ℕ) (r : Rule Ip Block)
      → parse_with_port net host n ≡ Parsed.parsed r
      → Usable r
  unfolding parse_with_port
  parse_with_port-Usable host none r h = cc
  parse_with_port-Usable host (some n) r h = elim (Bool-cases (ltb n 1 || ltb 65535 n)) [
    | inl e ↦ cc (rw e at h)
    | inr e ↦ elim (Bool-cases (eq_text (trim_space host) [])) [
      | inl k ↦ cc (rw (e, k) at h)
      | inr k ↦
          parse_target-Usable host n r (solid_untrimmed host k) (ground (arith, e)) (rw (e, k) at h)
    ]
  ]

  parse_entry-Usable :
      (raw : Text) (r : Rule Ip Block) → parse_entry net raw ≡ Parsed.parsed r → Usable r
  unfolding parse_entry parse_split
  parse_entry-Usable raw r h = elim (Bool-cases (eq_text (trim_space raw) [])) [
    | inl e ↦ cc (rw e at h)
    | inr e ↦ elim (Option-cases (net.split_host_port (trim_space raw))) [
      | inl n ↦ parse_target-Usable (trim_space raw) 0 r e (omega arith) (rw (e, n) at h)
      | inr (s, n) ↦ parse_with_port-Usable s.0 (net.atoi s.1) r (rw (e, n) at h)
    ]
  ]

  -- Each entry gives one rule.
  pub parse_entries-Usable :
      (entries : List Text) (rules : List (Rule Ip Block))
      → parse_entries net entries ≡ Parsed.parsed rules
      → (length rules ≡ length entries) × All Usable rules
  unfolding parse_entries
  parse_entries-Usable [] rules h = rw (← parsed-injective [] rules h) (refl, tt)
  parse_entries-Usable (raw ∷ entries) rules h =
      let (r, rs, e, f, g) =
        cons_parsed_lem (parse_entry net raw) (parse_entries net entries) rules h in
      let (same, usable) = parse_entries-Usable entries rs f in
      rw (← g) (ap suc same, (parse_entry-Usable raw r e, usable))

  narrowed_lem :
      (entries : List Text) (y : Parsed (List (Rule Ip Block))) (o : Option (Destination → Bool))
      → 0 < length entries
      → parse_entries net entries ≡ y
      → narrowed net y ≡ Parsed.parsed o
      → (rules : List (Rule Ip Block)) × (o ≡ some (allows net rules))
        × (length rules ≡ length entries)
        × All Usable rules
  unfolding narrowed
  narrowed_lem entries (Parsed.rejected e) o some_given h out = cc
  narrowed_lem entries (Parsed.parsed []) o some_given h out =
      absurd (omega (arith, some_given, (parse_entries-Usable entries [] h).0))
  narrowed_lem entries (Parsed.parsed (r ∷ rs)) o some_given h out =
      let (same, usable) = parse_entries-Usable entries (r ∷ rs) h in
      (r ∷ rs, sym (parsed-injective (some (allows net (r ∷ rs))) o out), same, usable)

  -- If lower-casing empties no text, an allow list with an entry that is accepted narrows: it
  -- has one rule for each entry, and each rule names a host, an address or a block, and a port
  -- that exists or none.
  pub parse_allow_list_sound :
      (entries : List Text) (o : Option (Destination → Bool))
      → 0 < length entries
      → parse_allow_list net entries ≡ Parsed.parsed o
      → (rules : List (Rule Ip Block)) × (o ≡ some (allows net rules))
        × (length rules ≡ length entries)
        × All Usable rules
  unfolding parse_allow_list
  parse_allow_list_sound entries o some_given h =
      narrowed_lem entries (parse_entries net entries) o some_given refl h
