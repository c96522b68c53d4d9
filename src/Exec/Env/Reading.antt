-- ===== src/Exec/Env/Reading.antt =====
-- The loop of envValue in internal/agent/exec/env.go finds the last entry.
use f1337_mcp.Prelude.{
  get_elem?-append_left, get_elem?-append_last, get_elem?-some, get_or-get_elem?, ℕ, zero, suc, ◌≤◌,
  ◌≡◌, refl, sym, ◌∙◌, Bool, true, false, Option, none, some, List, [], ◌∷◌, ◌++◌, append_assoc,
  append-nil, arith, if◌then◌else◌, length, length-append, Text, eq_text,
}
use f1337_mcp.Exec.Env.{Platform, env_key, value_below, after_cut, cut_equals}

-- The value of an entry.
abbrev pub value_of : Option Text → Option Text
value_of none = none
value_of (some e) = some (after_cut (cut_equals e))

module _ (upper : Text → Text) (p : Platform) where
  -- The last entry with the key, if there is one.
  abbrev pub latest : Option Text → List Text → Text → Option Text
  latest o [] k = o
  latest o (e ∷ es) k = latest (if eq_text (env_key upper p e) k then some e else o) es k

  value_below-append :
      (l r : List Text) (want : Text) (n : ℕ)
      → n ≤ length l
      → value_below upper p (l ++ r) want n ≡ value_below upper p l want n
  unfolding value_below
  value_below-append l r want zero h = refl
  value_below-append l r want (suc i) h =
      let (e, got) = get_elem?-some l i (omega (arith, h)) in
      rw
        (
          get_or-get_elem? l i [] got,
          get_or-get_elem? (l ++ r) i [] (get_elem?-append_left l r i (omega (arith, h)) ∙ got),
          value_below-append l r want i (omega (arith, h)),
        )
        refl

  value_below-snoc :
      (l : List Text) (want e : Text)
      → value_below upper p (l ++ (e ∷ [])) want (length (l ++ (e ∷ []))) ≡ (
          if eq_text (env_key upper p e) want
          then some (after_cut (cut_equals e))
          else value_below upper p l want (length l))
  unfolding value_below
  value_below-snoc l want e =
      let n : length (l ++ (e ∷ [])) ≡ suc (length l) = omega (arith, length-append l (e ∷ [])) in
      rw n (
        rw
          (
            get_or-get_elem? (l ++ (e ∷ [])) (length l) [] (get_elem?-append_last l e),
            value_below-append l (e ∷ []) want (length l) (omega arith),
          )
          refl)

  value_of_if :
      (b : Bool) (e : Text) (o : Option Text)
      → value_of (if b then some e else o)
        ≡ (if b then some (after_cut (cut_equals e)) else value_of o)
  value_of_if true e o = refl
  value_of_if false e o = refl

  -- Reading from the end finds the last entry.
  pub value_below-latest :
      (l r : List Text) (want : Text) (o : Option Text)
      → value_below upper p l want (length l) ≡ value_of o
      → value_below upper p (l ++ r) want (length (l ++ r)) ≡ value_of (latest o r want)
  value_below-latest l [] want o h = rw (append-nil l) h
  value_below-latest l (e ∷ r) want o h =
      let step : value_below upper p (l ++ (e ∷ [])) want (length (l ++ (e ∷ [])))
          ≡ value_of (if eq_text (env_key upper p e) want then some e else o) =
        value_below-snoc l want e ∙ (rw h (sym (value_of_if _ e o))) in
      let rest = value_below-latest (l ++ (e ∷ [])) r want _ step in
      rw (append_assoc l (e ∷ []) r) at rest
