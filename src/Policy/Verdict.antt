-- ===== src/Policy/Verdict.antt =====
-- When a command is allowed.
use f1337_mcp.Policy.Names.{contains-names}
use mathlib.Core.Bool.{false≢true}
use f1337_mcp.Policy.Command.{names, spellings, Command, contains}
use f1337_mcp.Prelude.{
  eq_text_refl, ◌∙◌, sym, eq_text-false, eq_text_iff, inl, inr, ap, refl, ◌⊎◌, arith, Bool-cases, ℕ,
  ◌≡◌, true, Bool, false, ◌||◌, Option, none, some, List, [], ◌∷◌, Text, eq_text,
}
use f1337_mcp.Policy.Evaluate.{
  unmatchable, miss, hit, Rules, match_names, fold_all, after_match, match_any, by_deny, evaluate,
  by_allow, Match, fold,
}

-- A rule that a candidate name meets, literally or as a pattern.
unfoldable pub covers : Bool → (Text → Text → Option Bool) → Text → Text → Bool
unfolding fold
covers folds match_file rule candidate =
    eq_text (fold folds match_file rule) candidate
    || is_true (match_file (fold folds match_file rule) candidate)
  where
    is_true : Option Bool → Bool
    is_true none = false
    is_true (some b) = b

unfoldable pub rule_covers : Bool → (Text → Text → Option Bool) → Text → List Text → Bool
rule_covers folds match_file rule [] = false
rule_covers folds match_file rule (candidate ∷ folded) =
    covers folds match_file rule candidate || rule_covers folds match_file rule folded

unfoldable pub rules_cover : Bool → (Text → Text → Option Bool) → List Text → List Text → Bool
rules_cover folds match_file [] folded = false
rules_cover folds match_file (rule ∷ rules) folded =
    rule_covers folds match_file rule folded || rules_cover folds match_file rules folded

-- The number of a search's outcome, which tells the outcomes apart.
outcome : Match → ℕ
outcome (hit rule) = 0
outcome miss = 1
outcome (unmatchable rule) = 2

module _ (folds : Bool) (match_file : Text → Text → Option Bool) where
  after_match-miss :
      (rule candidate : Text) (o : Option Bool) (rest : Match)
      → match_file (fold folds match_file rule) candidate ≡ o
      → eq_text (fold folds match_file rule) candidate ≡ false
      → after_match folds match_file rule o rest ≡ miss
      → (covers folds match_file rule candidate ≡ false) × (rest ≡ miss)
  unfolding after_match covers outcome
  after_match-miss rule candidate none rest p e h = absurd (omega (arith, ap outcome h))
  after_match-miss rule candidate (some true) rest p e h = absurd (omega (arith, ap outcome h))
  after_match-miss rule candidate (some false) rest p e h = (rw (e, p) refl, h)

  match_names-miss :
      (rule : Text) (folded : List Text) (rest : Match)
      → match_names folds match_file rule folded rest ≡ miss
      → (rule_covers folds match_file rule folded ≡ false) × (rest ≡ miss)
  unfolding match_names rule_covers outcome
  match_names-miss rule [] rest h = (refl, h)
  match_names-miss rule (c ∷ folded) rest h =
      elim (Bool-cases (eq_text (fold folds match_file rule) c)) [
        | inl e ↦ absurd (omega (arith, ap outcome (rw e at h)))
        | inr e ↦
            let (p, q) =
              after_match-miss rule c (match_file (fold folds match_file rule) c)
                (match_names folds match_file rule folded rest) refl e (rw e at h) in
            let (u, v) = match_names-miss rule folded rest q in (rw (p, u) refl, v)
      ]

  match_any-miss :
      (rules folded : List Text)
      → match_any folds match_file rules folded ≡ miss
      → rules_cover folds match_file rules folded ≡ false
  unfolding match_any rules_cover
  match_any-miss [] folded h = refl
  match_any-miss (rule ∷ rules) folded h =
      let (p, q) = match_names-miss rule folded (match_any folds match_file rules folded) h in
      rw (p, match_any-miss rules folded q) refl

  after_match-hit :
      (rule candidate r : Text) (o : Option Bool) (rest : Match)
      → match_file (fold folds match_file rule) candidate ≡ o
      → after_match folds match_file rule o rest ≡ hit r
      → (covers folds match_file rule candidate ≡ true) ⊎ (rest ≡ hit r)
  unfolding after_match covers outcome
  after_match-hit rule candidate r none rest p h = absurd (omega (arith, ap outcome h))
  after_match-hit rule candidate r (some true) rest p h = inl (rw p (ground arith))
  after_match-hit rule candidate r (some false) rest p h = inr h

  match_names-hit :
      (rule r : Text) (folded : List Text) (rest : Match)
      → match_names folds match_file rule folded rest ≡ hit r
      → (rule_covers folds match_file rule folded ≡ true) ⊎ (rest ≡ hit r)
  unfolding match_names rule_covers covers
  match_names-hit rule r [] rest h = inr h
  match_names-hit rule r (c ∷ folded) rest h =
      elim (Bool-cases (eq_text (fold folds match_file rule) c)) [
        | inl e ↦ inl (rw e refl)
        | inr e ↦
            elim (after_match-hit rule c r (match_file (fold folds match_file rule) c)
              (match_names folds match_file rule folded rest) refl (rw e at h)) [
                | inl p ↦ inl (ground (arith, p))
                | inr q ↦ elim (match_names-hit rule r folded rest q) [
                  | inl u ↦ inl (ground (arith, u))
                  | inr v ↦ inr v
                ]
              ]
      ]

  match_any-hit :
      (rules folded : List Text) (r : Text)
      → match_any folds match_file rules folded ≡ hit r
      → rules_cover folds match_file rules folded ≡ true
  unfolding match_any rules_cover outcome
  match_any-hit [] folded r h = absurd (omega (arith, ap outcome h))
  match_any-hit (rule ∷ rules) folded r h =
      elim (match_names-hit rule r folded (match_any folds match_file rules folded) h) [
        | inl p ↦ rw p refl
        | inr q ↦ ground (arith, match_any-hit rules folded r q)
      ]

  -- The allow list admits a command if it is empty or covers it.
  unfoldable pub allow_admits : List Text → List Text → Bool
  allow_admits [] folded = true
  allow_admits (rule ∷ rules) folded = rules_cover folds match_file (rule ∷ rules) folded

  by_allow_sound :
      (rules folded : List Text)
      → (by_allow folds match_file (match_any folds match_file rules folded)).allowed ≡ true
      → rules_cover folds match_file rules folded ≡ true
  unfolding by_allow
  by_allow_sound rules folded h = go (match_any folds match_file rules folded) refl h
    where
      go :
          (m : Match)
          → match_any folds match_file rules folded ≡ m
          → (by_allow folds match_file m).allowed ≡ true
          → rules_cover folds match_file rules folded ≡ true
      go (hit r) e h = match_any-hit rules folded r e
      go miss e h = absurd (false≢true h)
      go (unmatchable r) e h = absurd (false≢true h)

  by_deny_sound :
      (allow deny folded : List Text)
      → (by_deny folds match_file allow folded (match_any folds match_file deny folded)).allowed
        ≡ true
      → (rules_cover folds match_file deny folded ≡ false) × (allow_admits allow folded ≡ true)
  unfolding by_deny allow_admits
  by_deny_sound allow deny folded h = go (match_any folds match_file deny folded) refl allow h
    where
      go :
          (m : Match)
          → match_any folds match_file deny folded ≡ m
          → (allow : List Text) → (by_deny folds match_file allow folded m).allowed ≡ true
          → (rules_cover folds match_file deny folded ≡ false) × (allow_admits allow folded ≡ true)
      go (hit r) e allow h = absurd (false≢true h)
      go (unmatchable r) e allow h = absurd (false≢true h)
      go miss e [] h = (match_any-miss deny folded e, refl)
      go miss e (rule ∷ rules) h =
          (match_any-miss deny folded e, by_allow_sound (rule ∷ rules) folded h)

-- An allowed command is one that no deny rule covers, under any of its names, and that the allow list
-- covers under one of them, unless that list is empty. A rule that cannot be evaluated allows nothing.
pub evaluate_sound :
    (folds : Bool) (match_file : Text → Text → Option Bool) (file_base : Text → Text) (p : Rules)
    (cmd : Command)
    → (evaluate folds match_file file_base p cmd).allowed ≡ true
    → (rules_cover folds match_file p.deny (fold_all folds match_file (names file_base cmd))
        ≡ false)
      × (allow_admits folds match_file p.allow (fold_all folds match_file (names file_base cmd))
          ≡ true)
unfolding evaluate
evaluate_sound folds match_file file_base p cmd h =
    by_deny_sound folds match_file p.allow p.deny (fold_all folds match_file (names file_base cmd))
      h

fold_all-contains :
    (folds : Bool) (match_file : Text → Text → Option Bool) (ns : List Text) (s : Text)
    → eq_text s [] ≡ false
    → contains ns s ≡ true
    → contains (fold_all folds match_file ns) (fold folds match_file s) ≡ true
unfolding fold_all contains
fold_all-contains folds match_file [] s named h = absurd (false≢true h)
fold_all-contains folds match_file (n ∷ ns) s named h = elim (Bool-cases (eq_text n s)) [
  | inl e ↦
      let same = (eq_text_iff n s).0 e in
      rw same (rw (named, eq_text_refl (fold folds match_file s)) refl)
  | inr e ↦ elim (Bool-cases (eq_text n [])) [
    | inl f ↦ rw f (fold_all-contains folds match_file ns s named (rw e at h))
    | inr f ↦ rw f (ground (arith, fold_all-contains folds match_file ns s named (rw e at h)))
  ]
]

rule_covers-own :
    (folds : Bool) (match_file : Text → Text → Option Bool) (rule : Text) (folded : List Text)
    → contains folded (fold folds match_file rule) ≡ true
    → rule_covers folds match_file rule folded ≡ true
unfolding rule_covers covers contains
rule_covers-own folds match_file rule [] h = absurd (false≢true h)
rule_covers-own folds match_file rule (c ∷ folded) h =
    elim (Bool-cases (eq_text (fold folds match_file rule) c)) [
      | inl e ↦ rw e refl
      | inr e ↦
          let rest =
            rule_covers-own folds match_file rule folded
              (rw (eq_text-false (fold folds match_file rule) c e) at h) in
          ground (arith, rest)
    ]

rules_cover-own :
    (folds : Bool) (match_file : Text → Text → Option Bool) (rules : List Text) (rule : Text)
    (folded : List Text)
    → contains rules rule ≡ true
    → contains folded (fold folds match_file rule) ≡ true
    → rules_cover folds match_file rules folded ≡ true
unfolding rules_cover contains
rules_cover-own folds match_file [] rule folded h k = absurd (false≢true h)
rules_cover-own folds match_file (r ∷ rules) rule folded h k = elim (Bool-cases (eq_text r rule)) [
  | inl e ↦ rw ((eq_text_iff r rule).0 e) (rw (rule_covers-own folds match_file rule folded k) refl)
  | inr e ↦ ground (arith, rules_cover-own folds match_file rules rule folded (rw e at h) k)
]

-- A deny rule that spells a command's executable in any of the ways there are, up to the platform's case,
-- refuses the command, whatever its arguments and whatever the allow list says.
pub evaluate_denies-spelling :
    (folds : Bool) (match_file : Text → Text → Option Bool) (file_base : Text → Text) (p : Rules)
    (cmd : Command) (rule s : Text)
    → contains p.deny rule ≡ true
    → contains (spellings file_base cmd) s ≡ true
    → eq_text s [] ≡ false
    → fold folds match_file rule ≡ fold folds match_file s
    → (evaluate folds match_file file_base p cmd).allowed ≡ false
evaluate_denies-spelling folds match_file file_base p cmd rule s listed spelt named same =
    elim (Bool-cases (evaluate folds match_file file_base p cmd).allowed) [
      | inl e ↦ absurd (
          false≢true (
            sym (evaluate_sound folds match_file file_base p cmd e).0
            ∙ rules_cover-own folds match_file p.deny rule
                (fold_all folds match_file (names file_base cmd)) listed
                (rw same (
                  fold_all-contains folds match_file (names file_base cmd) s named
                    (contains-names file_base cmd s named spelt)))))
      | inr e ↦ e
    ]
