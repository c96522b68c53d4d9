-- ===== src/Policy/Construct/Total.antt =====
-- The checks of patterns in internal/security/policy/policy.go end.
use mathlib.Core.Option.{some-injective}
use f1337_mcp.Prelude.{
  some≢none, ℕ, zero, suc, ◌+◌, ◌≤◌, ◌<◌, ◌≡◌, refl, sym, ap, inl, inr, Bool, true, false, ◌&&◌,
  ◌||◌, Option, none, some, [], ◌∷◌, arith, ltb, ◌==◌, if◌then◌else◌, Bool-cases, Option-cases,
  length, drop, length-drop, Text, eq_text,
}
use f1337_mcp.Policy.Construct.{
  starts_with, after_rune, escaped_rune, class_item, class_loop, check_class, after_class,
  check_from, check_pattern,
}

module _ (escapes : Bool) (rune_length : Text → ℕ)
    (reads : (c : ℕ) (s : Text) → 0 < rune_length (c ∷ s)) where
  after_rune_shorter :
      (c : ℕ) (s rest : Text)
      → after_rune escapes rune_length (c ∷ s) ≡ some rest
      → length rest < length (c ∷ s)
  unfolding after_rune
  after_rune_shorter c s rest h =
      elim (Bool-cases (eq_text (drop (rune_length (c ∷ s)) (c ∷ s)) [])) [
        | inl e ↦ absurd (some≢none rest (sym (rw e at h)))
        | inr e ↦
            let same = some-injective (drop (rune_length (c ∷ s)) (c ∷ s)) rest (rw e at h) in
            omega (arith, ap length same, length-drop (rune_length (c ∷ s)) (c ∷ s), reads c s)
      ]

  escaped_rune_shorter :
      (s rest : Text)
      → escaped_rune escapes rune_length s ≡ some rest
      → length rest < suc (length s)
  unfolding escaped_rune
  escaped_rune_shorter [] rest h = absurd (some≢none rest (sym h))
  escaped_rune_shorter (d ∷ s) rest h = omega (arith, after_rune_shorter d s rest h)

  class_item_shorter :
      (s rest : Text) → class_item escapes rune_length s ≡ some rest → length rest < length s
  unfolding class_item escaped_rune
  class_item_shorter [] rest h = absurd (some≢none rest (sym h))
  class_item_shorter (c ∷ s) rest h = elim (Bool-cases (c == 45 || c == 93)) [
    | inl e ↦ absurd (some≢none rest (sym (rw e at h)))
    | inr e ↦ elim (Bool-cases ((c == 92) && escapes)) [
      | inr k ↦ after_rune_shorter c s rest (rw (e, k) at h)
      | inl k ↦ escaped_rune_shorter s rest (rw (e, k) at h)
    ]
  ]

  -- The class loop answers, and what follows a class is shorter.
  class_loop_total :
      (n items : ℕ) (s : Text)
      → length s < n
      → (o : Option Text) × (class_loop escapes rune_length n items s ≡ some o)
        × ((rest : Text) → o ≡ some rest → length rest ≤ length s)
  unfolding class_loop
  class_loop_total zero items s h = absurd (omega (arith, h))
  class_loop_total (suc n) items s h = elim (Bool-cases (starts_with 93 s && ltb 0 items)) [
    | inl e ↦ (
      some (drop 1 s),
      rw e refl,
      λ rest k. rw (← some-injective (drop 1 s) rest k) (omega (arith, length-drop 1 s)),
    )
    | inr e ↦ elim (Option-cases (class_item escapes rune_length s)) [
      | inl f ↦ (none, rw (e, f) refl, λ rest k. absurd (some≢none rest (sym k)))
      | inr (s', f) ↦
          let shorter = class_item_shorter s s' f in
          elim (Bool-cases (starts_with 45 s')) [
            | inr g ↦
                let (o, run, left) =
                  class_loop_total n (items + 1) s' (omega (arith, h, shorter)) in
                (o, rw (e, f, g) run, λ rest k. omega (arith, left rest k, shorter))
            | inl g ↦ elim (Option-cases (class_item escapes rune_length (drop 1 s'))) [
              | inl i ↦ (none, rw (e, f, g, i) refl, λ rest k. absurd (some≢none rest (sym k)))
              | inr (s'', i) ↦
                  let shorter' = class_item_shorter (drop 1 s') s'' i in
                  let (o, run, left) =
                    class_loop_total n (items + 1) s''
                      (omega (arith, h, shorter, shorter', length-drop 1 s')) in
                  (
                    o,
                    rw (e, f, g, i) run,
                    λ rest k. omega (arith, left rest k, shorter, shorter', length-drop 1 s'),
                  )
            ]
          ]
    ]
  ]

  check_class_total :
      (s : Text)
      → (o : Option Text) × (check_class escapes rune_length s ≡ some o)
        × ((rest : Text) → o ≡ some rest → length rest ≤ length s)
  unfolding check_class
  check_class_total s =
      let start : Text = if starts_with 94 s then drop 1 s else s in
      let smaller : length start ≤ length s = ground (arith, length-drop 1 s) in
      let (o, run, left) = class_loop_total (length s + 1) 0 start (omega (arith, smaller)) in
      (o, run, λ rest k. omega (arith, left rest k, smaller))

  after_class_total :
      (n : ℕ) (o : Option Text)
      → ((rest : Text)
          → o ≡ some rest
          → (b : Bool) × (check_from escapes rune_length n rest ≡ some b))
      → (b : Bool) × (after_class escapes rune_length (check_from escapes rune_length n) (some o)
          ≡ some b)
  unfolding after_class
  after_class_total n none f = (false, refl)
  after_class_total n (some rest) f = f rest refl

  check_from_total :
      (n : ℕ) (p : Text) → length p < n → (b : Bool) × (check_from escapes rune_length n p ≡ some b)
  unfolding check_from
  check_from_total zero p h = absurd (omega (arith, h))
  check_from_total (suc n) [] h = (true, refl)
  check_from_total (suc n) (c ∷ s) h =
      let next = check_from_total n s (omega (arith, h)) in
      elim (Bool-cases (c == 92)) [
        | inl k ↦ elim (Bool-cases escapes) [
          | inr e ↦ (next.0, rw (k, e) next.1)
          | inl e ↦ elim (Bool-cases (eq_text s [])) [
            | inl m ↦ (false, rw (k, e, m) refl)
            | inr m ↦
                let skip = check_from_total n (drop 1 s) (omega (arith, h, length-drop 1 s)) in
                (skip.0, rw (k, e, m) skip.1)
          ]
        ]
        | inr k ↦ elim (Bool-cases (c == 91)) [
          | inr m ↦ (next.0, rw (k, m) next.1)
          | inl m ↦
              let (o, run, left) = check_class_total s in
              let (b, done) =
                after_class_total n o
                  (λ rest q. check_from_total n rest (omega (arith, h, left rest q))) in
              (b, rw (k, m, run) done)
        ]
      ]

  -- The fuel is enough: a pattern is found to be well formed or not.
  pub check_pattern_total : (p : Text) → (b : Bool) × (check_pattern escapes rune_length p ≡ some b)
  unfolding check_pattern
  check_pattern_total p = check_from_total (length p + 1) p (omega arith)
