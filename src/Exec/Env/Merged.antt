-- ===== src/Exec/Env/Merged.antt =====
-- mergeEnv of internal/agent/exec/env.go against the plain concatenation of its two lists.
use mathlib.Core.Option.{some-injective}
use native.Mathlib.Decide.{ℕ_discrete}
use f1337_mcp.Prelude.{
  get_elem?-set_ne, get_elem?-append_left, some≢none, get_elem?-lt, get_elem?-set_self,
  get_elem?-snoc, get_elem?-append_last, ℕ, ◌≡◌, refl, sym, ap, ◌∙◌, inl, inr, Option, none, some,
  List, [], ◌∷◌, ◌++◌, Bool-cases, length, get_elem?, set, Text, eq_text, eq_text_iff, eq_text_refl,
}
use f1337_mcp.Exec.Env.{Platform, Merging, env_key, put_entry, set_entry, set_base, at_key}

module _ (upper : Text → Text) (p : Platform) where
  abbrev pub key_of : Text → Text
  key_of entry = env_key upper p entry

  -- The index leads to the one entry for each key.
  abbrev pub Indexes : List Text → List (Text × ℕ) → Type 0
  Indexes l m =
      ((i : ℕ) (e : Text) → get_elem? l i ≡ some e → at_key m (key_of e) ≡ some i)
      × ((k : Text) (i : ℕ)
          → at_key m k ≡ some i
          → (e : Text) × (get_elem? l i ≡ some e) × (key_of e ≡ k))

  module _ (l : List Text) (m : List (Text × ℕ)) (entry : Text) (h : Indexes l m) where
    replaced_keys :
        (i : ℕ)
        → at_key m (key_of entry) ≡ some i
        → (j : ℕ) (e : Text) → get_elem? (set l i entry) j ≡ some e
        → at_key m (key_of e) ≡ some j
    replaced_keys i q j e g =
        let (old, got, same) = h.1 (key_of entry) i q in
        elim (ℕ_discrete i j) [
          | yes r ↦
              let g' : get_elem? (set l i entry) i ≡ some e = rw (← r) at g in
              let e' : entry ≡ e =
                some-injective entry e
                  (sym (get_elem?-set_self l i entry (get_elem?-lt l i got)) ∙ g') in
              rw (← e') (rw (← r) q)
          | no r ↦ h.0 j e (sym (get_elem?-set_ne l i j entry r) ∙ g)
        ]

    replaced_positions :
        (i : ℕ)
        → at_key m (key_of entry) ≡ some i
        → (k : Text) (j : ℕ) → at_key m k ≡ some j
        → (e : Text) × (get_elem? (set l i entry) j ≡ some e) × (key_of e ≡ k)
    replaced_positions i q k j g =
        let (old, got, same) = h.1 (key_of entry) i q in
        let (other, got', same') = h.1 k j g in
        elim (ℕ_discrete i j) [
          | yes r ↦
              let both : some old ≡ some other = sym got ∙ (rw (← r) at got') in
              let k' : key_of entry ≡ k =
                sym same ∙ (ap (λ e. key_of e) (some-injective old other both) ∙ same') in
              (entry, rw (← r) (get_elem?-set_self l i entry (get_elem?-lt l i got)), k')
          | no r ↦ (other, get_elem?-set_ne l i j entry r ∙ got', same')
        ]

    added_keys :
        at_key m (key_of entry) ≡ none
        → (j : ℕ) (e : Text) → get_elem? (l ++ (entry ∷ [])) j ≡ some e
        → at_key ((key_of entry, length l) ∷ m) (key_of e) ≡ some j
    unfolding at_key
    added_keys q j e g = elim (get_elem?-snoc l entry j g) [
      | inl old ↦ elim (Bool-cases (eq_text (key_of entry) (key_of e))) [
        | inl same ↦
            let k : key_of entry ≡ key_of e = (eq_text_iff (key_of entry) (key_of e)).0 same in
            absurd (some≢none j (sym (h.0 j e old) ∙ (rw (← k) q)))
        | inr other ↦ rw other (h.0 j e old)
      ]
      | inr last ↦ rw (← last.1) (rw (eq_text_refl (key_of entry)) (ap some (sym last.0)))
    ]

    added_positions :
        at_key m (key_of entry) ≡ none
        → (k : Text) (j : ℕ) → at_key ((key_of entry, length l) ∷ m) k ≡ some j
        → (e : Text) × (get_elem? (l ++ (entry ∷ [])) j ≡ some e) × (key_of e ≡ k)
    unfolding at_key
    added_positions q k j g = elim (Bool-cases (eq_text (key_of entry) k)) [
      | inl same ↦
          let g' : some (length l) ≡ some j = rw same at g in
          let j' : length l ≡ j = some-injective (length l) j g' in
          (entry, rw (← j') (get_elem?-append_last l entry), (eq_text_iff (key_of entry) k).0 same)
      | inr other ↦
          let g' : at_key m k ≡ some j = rw other at g in
          let (e, got, is_k) = h.1 k j g' in
          (e, get_elem?-append_left l (entry ∷ []) j (get_elem?-lt l j got) ∙ got, is_k)
    ]

  pub put_entry-Indexes :
      (s : Merging) (entry : Text) (o : Option ℕ)
      → at_key s.index (key_of entry) ≡ o
      → Indexes s.merged s.index
      → Indexes (put_entry upper p entry o s).merged (put_entry upper p entry o s).index
  unfolding put_entry
  put_entry-Indexes s entry (some i) q h =
      (replaced_keys s.merged s.index entry h i q, replaced_positions s.merged s.index entry h i q)
  put_entry-Indexes s entry none q h =
      (added_keys s.merged s.index entry h q, added_positions s.merged s.index entry h q)

  pub set_base-Indexes :
      (s : Merging) (entries : List Text)
      → Indexes s.merged s.index
      → Indexes (set_base upper p s entries).merged (set_base upper p s entries).index
  unfolding set_base
  set_base-Indexes s [] h = h
  set_base-Indexes s (entry ∷ entries) h =
      set_base-Indexes (set_entry upper p s entry) entries
        (put_entry-Indexes s entry (at_key s.index (key_of entry)) refl h)
