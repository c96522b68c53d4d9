-- ===== src/Policy/Construct/Sound.antt =====
-- What a policy that New of internal/security/policy/policy.go has built holds.
use mathlib.Core.Path.{subst}
use mathlib.Core.Bool.{false≢true}
use f1337_mcp.Prelude.{
  ℕ, ◌≡◌, refl, sym, ap, ◌∙◌, ◌≢◌, inl, inr, Bool, true, false, ◌&&◌, Option, none, some, List, [],
  ◌∷◌, map, Bool-cases, All, Text, eq_text, trim_space,
}
use f1337_mcp.Policy.Limits.{
  pos, Caps, Limited, is_positive, is_negative, is_zero, greater, timeout,
}
use f1337_mcp.Policy.Construct.{
  Config, Built, Checked, check_pattern, is_valid, keep_rule, check_rules, check_caps, with_deny,
  with_allow, new_policy,
}

accepted-injective {ℓ} : {A : Type ℓ} (a b : A) → Checked.accepted a ≡ Checked.accepted b → a ≡ b
accepted-injective a b h = cc

only_true : (o : Option Bool) → elim o [ none ↦ false | some b ↦ b ] ≡ true → o ≡ some true
only_true none h = absurd (false≢true h)
only_true (some b) h = ap some h

not_too_long :
    (caps : Caps)
    → is_positive caps.max_timeout && greater caps.default_timeout caps.max_timeout ≡ false
    → timeout caps (pos 0) ≢ Limited.timeout_too_long
unfolding timeout is_zero is_negative
not_too_long caps h e = elim (Bool-cases (is_positive caps.default_timeout)) [
  | inl k ↦ cc (rw (h, k) at e)
  | inr k ↦ cc (rw (h, k) at e)
]

keep_rule_lem :
    (rule : Text) (c : Checked (List Text)) (out : List Text)
    → keep_rule rule c ≡ Checked.accepted out
    → (rules : List Text) × (c ≡ Checked.accepted rules) × (rule ∷ rules ≡ out)
unfolding keep_rule
keep_rule_lem rule (Checked.faulty e) out h = cc
keep_rule_lem rule (Checked.accepted rules) out h =
    (rules, refl, accepted-injective (rule ∷ rules) out h)

module _ (escapes : Bool) (rune_length : Text → ℕ) where
  -- A rule that is not empty and that the check of patterns accepts.
  abbrev pub Enforceable : Text → Type 0
  Enforceable rule =
      (eq_text rule [] ≡ false) × (check_pattern escapes rune_length rule ≡ some true)

  is_valid_sound :
      (p : Text)
      → is_valid escapes rune_length p ≡ true
      → check_pattern escapes rune_length p ≡ some true
  unfolding is_valid
  is_valid_sound p h = only_true (check_pattern escapes rune_length p) h

  check_rules_sound :
      (rules out : List Text)
      → check_rules escapes rune_length rules ≡ Checked.accepted out
      → (out ≡ map trim_space rules) × All Enforceable out
  unfolding check_rules
  check_rules_sound [] out h = rw (← accepted-injective [] out h) (refl, tt)
  check_rules_sound (rule ∷ rules) out h = elim (Bool-cases (eq_text (trim_space rule) [])) [
    | inl e ↦ cc (rw e at h)
    | inr e ↦ elim (Bool-cases (is_valid escapes rune_length (trim_space rule))) [
      | inr k ↦ cc (rw (e, k) at h)
      | inl k ↦
          let (rest, f, g) =
            keep_rule_lem (trim_space rule) (check_rules escapes rune_length rules) out
              (rw (e, k) at h) in
          let (same, all') = check_rules_sound rules rest f in
          rw (← g)
            (ap (λ r. trim_space rule ∷ r) same, ((e, is_valid_sound (trim_space rule) k), all'))
    ]
  ]

  check_caps_sound :
      (caps : Caps) (allow deny : List Text) (p : Built)
      → check_caps escapes rune_length caps allow deny ≡ Checked.accepted p
      → (p.allow_list ≡ allow)
        × (p.deny_list ≡ deny)
        × (timeout p.limits (pos 0) ≢ Limited.timeout_too_long)
        × (is_negative p.limits.max_output_bytes ≡ false)
  unfolding check_caps
  check_caps_sound caps allow deny p h =
      elim (Bool-cases
        (is_positive caps.max_timeout && greater caps.default_timeout caps.max_timeout)) [
          | inl e ↦ cc (rw e at h)
          | inr e ↦ elim (Bool-cases (is_negative caps.max_output_bytes)) [
            | inl k ↦ cc (rw (e, k) at h)
            | inr k ↦
                rw (← accepted-injective _ p (rw (e, k) at h)) (refl, refl, not_too_long caps e, k)
          ]
        ]

  with_deny_lem :
      (caps : Caps) (allow : List Text) (d : Checked (List Text)) (p : Built)
      → with_deny escapes rune_length caps allow d ≡ Checked.accepted p
      → (deny : List Text) × (d ≡ Checked.accepted deny)
        × (check_caps escapes rune_length caps allow deny ≡ Checked.accepted p)
  unfolding with_deny
  with_deny_lem caps allow (Checked.faulty e) p h = cc
  with_deny_lem caps allow (Checked.accepted deny) p h = (deny, refl, h)

  with_allow_lem :
      (caps : Caps) (a d : Checked (List Text)) (p : Built)
      → with_allow escapes rune_length caps a d ≡ Checked.accepted p
      → (allow : List Text) × (a ≡ Checked.accepted allow)
        × (with_deny escapes rune_length caps allow d ≡ Checked.accepted p)
  unfolding with_allow
  with_allow_lem caps (Checked.faulty e) d p h = cc
  with_allow_lem caps (Checked.accepted allow) d p h = (allow, refl, h)

  -- A policy that New builds has the rules of the configuration without the space around them,
  -- none empty and each accepted by checkPattern within its fuel; a request without a deadline
  -- is never refused as too long, and the output cap is not negative.
  pub new_policy_sound :
      (cfg : Config) (p : Built)
      → new_policy escapes rune_length cfg ≡ Checked.accepted p
      → (p.allow_list ≡ map trim_space cfg.allow_rules)
        × (p.deny_list ≡ map trim_space cfg.deny_rules)
        × All Enforceable p.allow_list
        × All Enforceable p.deny_list
        × (timeout p.limits (pos 0) ≢ Limited.timeout_too_long)
        × (is_negative p.limits.max_output_bytes ≡ false)
  unfolding new_policy
  new_policy_sound cfg p h =
      let (allow, a, h') =
        with_allow_lem cfg.limits (check_rules escapes rune_length cfg.allow_rules)
          (check_rules escapes rune_length cfg.deny_rules) p h in
      let (deny, d, h'') =
        with_deny_lem cfg.limits allow (check_rules escapes rune_length cfg.deny_rules) p h' in
      let (same_allow, same_deny, fits, bounded) = check_caps_sound cfg.limits allow deny p h'' in
      let (trimmed_allow, good_allow) = check_rules_sound cfg.allow_rules allow a in
      let (trimmed_deny, good_deny) = check_rules_sound cfg.deny_rules deny d in
      (
        same_allow ∙ trimmed_allow,
        same_deny ∙ trimmed_deny,
        subst (All Enforceable) (sym same_allow) good_allow,
        subst (All Enforceable) (sym same_deny) good_deny,
        fits,
        bounded,
      )
