-- ===== src/Exec/Env/Held.antt =====
-- The entry that the map of mergeEnv in internal/agent/exec/env.go leads to.
use mathlib.Core.Bool.{false≢true}
use mathlib.Core.Option.{some-injective}
use f1337_mcp.Prelude.{
  get_elem?-lt, get_elem?-set_self, get_elem?-append_left, get_elem?-append_last, get_elem?-set_ne,
  ℕ, ◌≡◌, refl, sym, ap, ◌∙◌, inl, inr, false, Option, none, some, List, [], ◌∷◌, ◌++◌,
  if◌then◌else◌, Bool-cases, length, get_elem?, set, Text, eq_text, eq_text_iff,
}
use f1337_mcp.Exec.Env.{Platform, Merging, env_key, put_entry, set_entry, set_base, at_key}
use f1337_mcp.Exec.Env.Merged.{Indexes, put_entry-Indexes}
use f1337_mcp.Exec.Env.Reading.{latest}

module _ (upper : Text → Text) (p : Platform) where
  abbrev pub held_at : List Text → Option ℕ → Option Text
  held_at l none = none
  held_at l (some i) = get_elem? l i

  -- The entry that the index leads to.
  abbrev pub held : Merging → Text → Option Text
  held s k = held_at s.merged (at_key s.index k)

  module _ (l : List Text) (m : List (Text × ℕ)) (entry k : Text) (h : Indexes upper p l m) where
    held_elsewhere :
        (i : ℕ) (o : Option ℕ)
        → at_key m k ≡ o
        → at_key m (env_key upper p entry) ≡ some i
        → eq_text (env_key upper p entry) k ≡ false
        → held_at (set l i entry) o ≡ held_at l o
    held_elsewhere i none g q other = refl
    held_elsewhere i (some j) g q other = get_elem?-set_ne l i j entry (λ r.
        let (e, got, same) = h.1 (env_key upper p entry) i q in
        let (e', got', same') = h.1 k j g in
        let both : some e ≡ some e' = sym got ∙ (rw (← r) at got') in
        let k' : env_key upper p entry ≡ k =
          sym same ∙ (ap (λ e. env_key upper p e) (some-injective e e' both) ∙ same') in
        absurd (false≢true (sym other ∙ (eq_text_iff (env_key upper p entry) k).1 k')))

    held-replaced :
        (i : ℕ)
        → at_key m (env_key upper p entry) ≡ some i
        → held_at (set l i entry) (at_key m k)
          ≡ (if eq_text (env_key upper p entry) k then some entry else held_at l (at_key m k))
    held-replaced i q = elim (Bool-cases (eq_text (env_key upper p entry) k)) [
      | inl same ↦
          let (old, got, _) = h.1 (env_key upper p entry) i q in
          let at_k : at_key m k ≡ some i =
            rw ((eq_text_iff (env_key upper p entry) k).0 same) at q in
          rw (same, at_k) (get_elem?-set_self l i entry (get_elem?-lt l i got))
      | inr other ↦ rw other (held_elsewhere i (at_key m k) refl q other)
    ]

    held_before : (o : Option ℕ) → at_key m k ≡ o → held_at (l ++ (entry ∷ [])) o ≡ held_at l o
    held_before none g = refl
    held_before (some j) g =
        let (e, got, _) = h.1 k j g in get_elem?-append_left l (entry ∷ []) j (get_elem?-lt l j got)

    held-added :
        held_at (l ++ (entry ∷ [])) (at_key ((env_key upper p entry, length l) ∷ m) k)
        ≡ (if eq_text (env_key upper p entry) k then some entry else held_at l (at_key m k))
    unfolding at_key
    held-added = elim (Bool-cases (eq_text (env_key upper p entry) k)) [
      | inl same ↦ rw same (get_elem?-append_last l entry)
      | inr other ↦ rw other (held_before (at_key m k) refl)
    ]

  held-put_entry :
      (s : Merging) (entry k : Text) (o : Option ℕ)
      → at_key s.index (env_key upper p entry) ≡ o
      → Indexes upper p s.merged s.index
      → held (put_entry upper p entry o s) k
        ≡ (if eq_text (env_key upper p entry) k then some entry else held s k)
  unfolding put_entry
  held-put_entry s entry k (some i) q h = held-replaced s.merged s.index entry k h i q
  held-put_entry s entry k none q h = held-added s.merged s.index entry k h

  pub held-set_base :
      (s : Merging) (entries : List Text) (k : Text)
      → Indexes upper p s.merged s.index
      → held (set_base upper p s entries) k ≡ latest upper p (held s k) entries k
  unfolding set_base
  held-set_base s [] k h = refl
  held-set_base s (e ∷ es) k h =
      held-set_base (set_entry upper p s e) es k
        (put_entry-Indexes upper p s e (at_key s.index (env_key upper p e)) refl h)
      ∙ ap (λ o. latest upper p o es k)
          (held-put_entry s e k (at_key s.index (env_key upper p e)) refl h)
