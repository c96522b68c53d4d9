-- ===== src/Policy/Construct.antt =====
-- internal/security/policy/policy.go: the checks under which a policy is built. `escapes` says whether a backslash
-- escapes, and `rune_length` is the length that utf8.DecodeRuneInString reads at the start of a text.
pub mod Total
pub mod Sound
use f1337_mcp.Prelude.{
  ℕ, zero, suc, ◌+◌, ◌-◌, ◌*◌, ◌/◌, ◌%◌, ◌^◌, ◌≤◌, ◌<◌, ◌≡◌, refl, sym, ap, ◌∙◌, ◌≢◌, ◌↔◌, ◌⊎◌, inl,
  inr, Bool, true, false, not, ◌&&◌, ◌||◌, Option, none, some, List, [], ◌∷◌, ◌++◌, map,
  append_assoc, append-nil, arith, ltb, leb, ◌==◌, if◌then◌else◌, ltb→lt, lt→ltb, ==_iff,
  Bool-cases, Option-cases, is_some, length, get_elem?, get_or, set, take, drop, replicate, any,
  all, All, length-append, length-set, length-replicate, length-take, length-drop, take-append-drop,
  get_or-set_self, get_or-set_ne, Text, codes, eq_text, eq_text_iff, eq_text_refl, has_prefix,
  is_space, trim_left, trim_space, contains_byte, lower_byte,
}
use f1337_mcp.Policy.Limits.{
  ℤ, pos, negsuc, Caps, is_positive, is_negative, greater, Slots, new_slots,
}

abbrev starts_with : ℕ → Text → Bool
starts_with b [] = false
starts_with b (c ∷ s) = c == b

module _ (escapes : Bool) (rune_length : Text → ℕ) where
  -- The end of `classItem`
  unfoldable pub after_rune : Text → Option Text
  after_rune s = let rest = drop (rune_length s) s in if eq_text rest [] then none else some rest

  unfoldable pub escaped_rune : Text → Option Text
  unfolding after_rune
  escaped_rune [] = none
  escaped_rune (c ∷ s) = after_rune (c ∷ s)

  -- `classItem`: what follows one character of a class.
  unfoldable pub class_item : Text → Option Text
  unfolding escaped_rune after_rune
  class_item [] = none
  class_item (c ∷ s) =
      if c == 45 || c == 93
      then none
      else if (c == 92) && escapes
      then escaped_rune s
      else after_rune (c ∷ s)

  -- The loop of `checkClass`, on fuel: `none` if that runs out, and inside it none for a malformed class, or
  -- what follows the class.
  unfoldable pub class_loop : ℕ → ℕ → Text → Option (Option Text)
  unfolding class_item
  class_loop zero items s = none
  class_loop (suc n) items s =
      if starts_with 93 s && ltb 0 items then some (some (drop 1 s)) else elim (class_item s) [
        | none ↦ some none
        | some s' ↦
            if starts_with 45 s'
            then elim (class_item (drop 1 s')) [
              | none ↦ some none
              | some s'' ↦ class_loop n (items + 1) s''
            ]
            else class_loop n (items + 1) s'
      ]

  unfoldable pub check_class : Text → Option (Option Text)
  unfolding class_loop
  check_class s = class_loop (length s + 1) 0 (if starts_with 94 s then drop 1 s else s)

  -- Where the pattern goes on after a class.
  unfoldable pub after_class : (Text → Option Bool) → Option (Option Text) → Option Bool
  after_class go none = none
  after_class go (some none) = some false
  after_class go (some (some rest)) = go rest

  -- The loop of `checkPattern` over what is left of the pattern, on fuel.
  unfoldable pub check_from : ℕ → Text → Option Bool
  unfolding check_class after_class
  check_from zero p = none
  check_from (suc n) [] = some true
  check_from (suc n) (c ∷ s) =
      let next = check_from n s in
      let skip = check_from n (drop 1 s) in
      let class = after_class (check_from n) (check_class s) in
      if c == 92
      then if escapes then if eq_text s [] then some false else skip else next
      else if c == 91
      then class
      else next

  unfoldable pub check_pattern : Text → Option Bool
  unfolding check_from
  check_pattern p = check_from (length p + 1) p

  unfoldable pub is_valid : Text → Bool
  unfolding check_pattern
  is_valid p = elim (check_pattern p) [ none ↦ false | some b ↦ b ]

pub record Config : Type 0 where
  pub allow_rules : List Text
  pub deny_rules : List Text
  pub limits : Caps

-- The policy that is built: its rules, its caps and its slots.
pub record Built : Type 0 where
  pub allow_list : List Text
  pub deny_list : List Text
  pub limits : Caps
  pub limiter : Slots

pub data ConfigError : Type 0 where
  empty_rule : ConfigError
  bad_pattern : ConfigError
  default_over_max : ConfigError
  negative_output : ConfigError

pub data Checked {ℓ} (A : Type ℓ) : Type ℓ where
  accepted : A → Checked A
  faulty : ConfigError → Checked A

unfoldable pub keep_rule : Text → Checked (List Text) → Checked (List Text)
keep_rule rule (faulty e) = faulty e
keep_rule rule (accepted rules) = accepted (rule ∷ rules)

module _ (escapes : Bool) (rune_length : Text → ℕ) where
  unfoldable pub check_rules : List Text → Checked (List Text)
  unfolding is_valid keep_rule
  check_rules [] = accepted []
  check_rules (rule ∷ rules) =
      let rest = check_rules rules in
      if eq_text (trim_space rule) []
      then faulty empty_rule
      else if not (is_valid escapes rune_length (trim_space rule))
      then faulty bad_pattern
      else keep_rule (trim_space rule) rest

  unfoldable pub check_caps : Caps → List Text → List Text → Checked Built
  check_caps caps allow deny =
      if is_positive caps.max_timeout && greater caps.default_timeout caps.max_timeout
      then faulty default_over_max
      else if is_negative caps.max_output_bytes
      then faulty negative_output
      else accepted (record {
        allow_list = allow;
        deny_list = deny;
        limits = caps;
        limiter = new_slots caps.max_concurrent;
      })

  unfoldable pub with_deny : Caps → List Text → Checked (List Text) → Checked Built
  unfolding check_caps
  with_deny caps allow (faulty e) = faulty e
  with_deny caps allow (accepted deny) = check_caps caps allow deny

  unfoldable pub with_allow : Caps → Checked (List Text) → Checked (List Text) → Checked Built
  unfolding with_deny
  with_allow caps (faulty e) deny = faulty e
  with_allow caps (accepted allow) deny = with_deny caps allow deny

  -- `New`
  unfoldable pub new_policy : Config → Checked Built
  unfolding with_allow check_rules
  new_policy cfg = with_allow cfg.limits (check_rules cfg.allow_rules) (check_rules cfg.deny_rules)
