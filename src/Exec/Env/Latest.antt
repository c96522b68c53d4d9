-- ===== src/Exec/Env/Latest.antt =====
-- Which of several entries for a name envValue of internal/agent/exec/env.go finds after mergeEnv.
use mathlib.Core.Path.{subst}
use mathlib.Core.Bool.{false≢true}
use mathlib.Core.Option.{some-injective}
use f1337_mcp.Prelude.{
  get_or-get_elem?, get_elem?-some, get_elem?-lt, some≢none, ℕ, zero, suc, ◌≤◌, ◌<◌, ◌≡◌, refl, sym,
  ap, ◌∙◌, inl, inr, Option, none, some, List, [], ◌∷◌, ◌++◌, arith, Bool-cases, Option-cases,
  length, get_elem?, Text, eq_text, eq_text_iff,
}
use f1337_mcp.Exec.Env.{
  env-injective, Platform, Merging, nothing_merged, env, env_key, set_entry, set_base,
  set_overrides, merge_env, at_key, value_below, env_value, folded_name, check_env_entry,
}
use f1337_mcp.Exec.Env.Merged.{Indexes, set_base-Indexes}
use f1337_mcp.Exec.Env.Reading.{value_of, value_below-latest}
use f1337_mcp.Exec.Env.Held.{held_at, held-set_base}

module _ (upper : Text → Text) (p : Platform) where
  -- In a list that is indexed the loop finds the entry that the index leads to.
  value_below-none :
      (l : List Text) (m : List (Text × ℕ)) (want : Text) (n : ℕ)
      → n ≤ length l
      → Indexes upper p l m
      → at_key m want ≡ none
      → value_below upper p l want n ≡ none
  unfolding value_below
  value_below-none l m want zero le h q = refl
  value_below-none l m want (suc n) le h q =
      let (e, got) = get_elem?-some l n (omega (arith, le)) in
      elim (Bool-cases (eq_text (env_key upper p e) want)) [
        | inl same ↦
            let q' : at_key m (env_key upper p e) ≡ none =
              rw ((eq_text_iff (env_key upper p e) want).0 same) q in
            absurd (some≢none n (sym (h.0 n e got) ∙ q'))
        | inr other ↦
            rw (get_or-get_elem? l n [] got, other)
              (value_below-none l m want n (omega (arith, le)) h q)
      ]

  elem_at :
      (l : List Text) (n i : ℕ) {e : Text} → n ≡ i → get_elem? l n ≡ some e → get_elem? l i ≡ some e
  elem_at l n i r g = rw (← r) g

  value_below-some :
      (l : List Text) (m : List (Text × ℕ)) (want : Text) (i : ℕ) (n : ℕ)
      → n ≤ length l
      → i < n
      → Indexes upper p l m
      → at_key m want ≡ some i
      → value_below upper p l want n ≡ value_of (get_elem? l i)
  unfolding value_below
  value_below-some l m want i zero le lt h q = absurd (omega (arith, lt))
  value_below-some l m want i (suc n) le lt h q =
      let (e, got) = get_elem?-some l n (omega (arith, le)) in
      let (e', got', same') = h.1 want i q in
      elim (Bool-cases (eq_text (env_key upper p e) want)) [
        | inl same ↦
            let at_n : at_key m want ≡ some n =
              rw ((eq_text_iff (env_key upper p e) want).0 same) at (h.0 n e got) in
            let i' : n ≡ i = some-injective n i (sym at_n ∙ q) in
            rw (get_or-get_elem? l n [] got, same, elem_at l n i i' got) refl
        | inr other ↦
            let ne : ¬ (i ≡ n) = λ r.
              let e'' : some e' ≡ some e = sym got' ∙ (rw (← r) at got) in
              let k' : env_key upper p e ≡ want =
                ap (λ e. env_key upper p e) (sym (some-injective e' e e'')) ∙ same' in
              absurd (false≢true (sym other ∙ (eq_text_iff (env_key upper p e) want).1 k')) in
            rw (get_or-get_elem? l n [] got, other)
              (value_below-some l m want i n (omega (arith, le)) (omega (arith, lt, ne)) h q)
      ]

  value_below-held :
      (l : List Text) (m : List (Text × ℕ)) (want : Text) (o : Option ℕ)
      → at_key m want ≡ o
      → Indexes upper p l m
      → value_below upper p l want (length l) ≡ value_of (held_at upper p l o)
  value_below-held l m want none q h = value_below-none l m want (length l) (omega arith) h q
  value_below-held l m want (some i) q h =
      let (e, got, same) = h.1 want i q in
      value_below-some l m want i (length l) (omega arith) (get_elem?-lt l i got) h q

  set_base-append :
      (s : Merging) (l r : List Text)
      → set_base upper p s (l ++ r) ≡ set_base upper p (set_base upper p s l) r
  unfolding set_base
  set_base-append s [] r = refl
  set_base-append s (e ∷ l) r = set_base-append (set_entry upper p s e) l r

  -- Overrides that are all accepted are put in like the base.
  set_overrides-set_base :
      (s : Merging) (entries : List Text) {l : List Text}
      → set_overrides upper p s entries ≡ env l
      → (set_base upper p s entries).merged ≡ l
  unfolding set_overrides set_base
  set_overrides-set_base s [] h = env-injective _ _ h
  set_overrides-set_base s (e ∷ es) h = elim (Option-cases (check_env_entry e)) [
    | inl ok ↦ set_overrides-set_base (set_entry upper p s e) es (rw (set_overrides, ok) at h)
    | inr (x, bad) ↦ absurd (cc (rw (set_overrides, bad) at h))
  ]

  abbrev pub Distinct : List Text → Type 0
  Distinct l =
      (i j : ℕ) (a b : Text)
      → get_elem? l i ≡ some a
      → get_elem? l j ≡ some b
      → env_key upper p a ≡ env_key upper p b
      → i ≡ j

  Indexes-Distinct : (l : List Text) (m : List (Text × ℕ)) → Indexes upper p l m → Distinct l
  Indexes-Distinct l m h i j a b g g' same =
      some-injective i j (sym (h.0 i a g) ∙ (ap (λ k. at_key m k) same ∙ h.0 j b g'))

  nothing-Indexes : Indexes upper p [] []
  unfolding at_key
  nothing-Indexes = (λ i e g. absurd (some≢none e (sym g)), λ k i g. absurd (some≢none i (sym g)))

  module _ (entries : List Text) where
    abbrev filled : Merging
    filled = set_base upper p nothing_merged entries

    filled-Indexes : Indexes upper p filled.merged filled.index
    filled-Indexes = set_base-Indexes upper p nothing_merged entries nothing-Indexes

    filled_value :
        (name : Text) → env_value upper p filled.merged name ≡ env_value upper p entries name
    unfolding env_value at_key value_below
    filled_value name =
        let want = folded_name upper p name in
        value_below-held filled.merged filled.index want (at_key filled.index want) refl
          filled-Indexes
        ∙ ap value_of (held-set_base upper p nothing_merged entries want nothing-Indexes)
        ∙ sym (value_below-latest upper p [] entries want none refl)

  -- A merged environment has one entry for each key, and every name has in it the value that it
  -- has in the base followed by the overrides, where the last entry wins.
  pub merge_env-Latest :
      (base overrides : List Text) {l : List Text}
      → merge_env upper p base overrides ≡ env l
      → Distinct l
        × ((name : Text) → env_value upper p l name ≡ env_value upper p (base ++ overrides) name)
  unfolding merge_env
  merge_env-Latest base overrides ok =
      let is_l : (filled (base ++ overrides)).merged ≡ _ =
        ap (λ (s : Merging). s.merged) (set_base-append nothing_merged base overrides)
        ∙ set_overrides-set_base (set_base upper p nothing_merged base) overrides ok in
      subst
        (λ l.
          Distinct l
          × ((name : Text) → env_value upper p l name ≡ env_value upper p (base ++ overrides) name))
        is_l
        (
          Indexes-Distinct _ _ (filled-Indexes (base ++ overrides)),
          filled_value (base ++ overrides),
        )
