-- ===== src/Exec/Env/Allowed.antt =====
-- Where the entries of the environment that internal/agent/exec/env.go makes come from.
use f1337_mcp.Prelude.{
  Has-append_right, Has-append_left, All-both, All-put, Has, ℕ, suc, ◌≡◌, refl, inl, inr, Bool,
  true, false, Option, none, some, List, [], ◌∷◌, ◌++◌, if◌then◌else◌, Bool-cases, Option-cases,
  All, Text, codes, eq_text,
}
use f1337_mcp.Exec.Env.{
  Platform, Merging, nothing_merged, env, env_key, put_entry, set_entry, set_base, set_overrides,
  merge_env, at_key, env-injective, check_env_entry, environment, build_base_env, base_path,
  base_home, entries_for, locale_vars,
}

module _ (P : Text → Type 0) where
  module _ (upper : Text → Text) (p : Platform) where
    put_entry-All :
        (s : Merging) (entry : Text) (o : Option ℕ)
        → All P s.merged
        → P entry
        → All P (put_entry upper p entry o s).merged
    unfolding put_entry
    put_entry-All s entry (some i) h k = All-put P s.merged i entry h k
    put_entry-All s entry none h k = All-both P s.merged (entry ∷ []) h (k, tt)

    set_base-All :
        (s : Merging) (entries : List Text)
        → All P s.merged
        → All P entries
        → All P (set_base upper p s entries).merged
    unfolding set_base
    set_base-All s [] h k = h
    set_base-All s (e ∷ es) h k =
        set_base-All (set_entry upper p s e) es
          (put_entry-All s e (at_key s.index (env_key upper p e)) h k.0) k.1

    set_overrides-All :
        (s : Merging) (entries : List Text) {l : List Text}
        → ((e : Text) → Has entries e → check_env_entry e ≡ none → P e)
        → All P s.merged
        → set_overrides upper p s entries ≡ env l
        → All P l
    unfolding set_overrides
    set_overrides-All s [] k h ok = rw (← env-injective _ _ ok) h
    set_overrides-All s (e ∷ es) k h ok = elim (Option-cases (check_env_entry e)) [
      | inl fine ↦
          set_overrides-All (set_entry upper p s e) es (λ x m. k x (suc m.0, m.1))
            (put_entry-All s e (at_key s.index (env_key upper p e)) h (k e (0, refl) fine))
            (rw (set_overrides, fine) at ok)
      | inr (x, bad) ↦ absurd (cc (rw (set_overrides, bad) at ok))
    ]

module _ (upper : Text → Text) (p : Platform) (get : Text → Text)
    (user_home_dir : Option Text) where
  -- What an entry of the environment may be: PATH, the home directory, a variable of the fixed lists that is set, or an
  -- entry of the request that is well formed.
  pub data Origin (overrides : List Text) (e : Text) : Type 0 where
    path : e ≡ codes "PATH" ++ (61 ∷ base_path upper p get user_home_dir) → Origin overrides e
    home :
        eq_text (base_home upper p get user_home_dir) [] ≡ false
        → e ≡ p.home_var ++ (61 ∷ base_home upper p get user_home_dir)
        → Origin overrides e
    listed :
        (name : Text)
        → Has (p.temp_vars ++ (locale_vars ++ p.passthrough)) name
        → eq_text (get name) [] ≡ false
        → e ≡ name ++ (61 ∷ get name)
        → Origin overrides e
    requested : Has overrides e → check_env_entry e ≡ none → Origin overrides e

  entries_for-All :
      (P : Text → Type 0) (names : List Text)
      → ((name : Text)
          → Has names name
          → eq_text (get name) [] ≡ false
          → P (name ++ (61 ∷ get name)))
      → All P (entries_for upper p get user_home_dir names)
  unfolding entries_for
  entries_for-All P [] h = tt
  entries_for-All P (name ∷ names) h =
      let rest = entries_for-All P names (λ n m. h n (suc m.0, m.1)) in
      elim (Bool-cases (eq_text (get name) [])) [
        | inl unset ↦ rw unset rest
        | inr is_set ↦ rw is_set (h name (0, refl) is_set, rest)
      ]

  home-All :
      (overrides : List Text) (b : Bool)
      → eq_text (base_home upper p get user_home_dir) [] ≡ b
      → All
          (Origin overrides)
          (if b then [] else (p.home_var ++ (61 ∷ base_home upper p get user_home_dir)) ∷ [])
  home-All overrides true q = tt
  home-All overrides false q = (home q refl, tt)

  build_base_env-Origin :
      (overrides : List Text) → All (Origin overrides) (build_base_env upper p get user_home_dir)
  unfolding build_base_env
  build_base_env-Origin overrides =
      let P = Origin overrides in
      let pick : (l : List Text)
          → ((n : Text) → Has l n → Has (p.temp_vars ++ (locale_vars ++ p.passthrough)) n)
          → All P (entries_for upper p get user_home_dir l) =
        λ l k. entries_for-All P l (λ n m g. listed n (k n m) g refl) in
      let t =
        pick p.temp_vars (λ n m. Has-append_left p.temp_vars (locale_vars ++ p.passthrough) n m) in
      let c = pick locale_vars (λ n m.
        Has-append_right p.temp_vars (locale_vars ++ p.passthrough) n
          (Has-append_left locale_vars p.passthrough n m)) in
      let w = pick p.passthrough (λ n m.
        Has-append_right p.temp_vars (locale_vars ++ p.passthrough) n
          (Has-append_right locale_vars p.passthrough n m)) in
      (
        path refl,
        All-both P _ _ (home-All overrides (eq_text (base_home upper p get user_home_dir) []) refl)
            (All-both P _ _ t (All-both P _ _ c w)),
      )

  -- Every entry of the environment of a command is PATH, the home directory, a variable of the
  -- fixed lists that is set, or an entry of the request that is well formed.
  pub environment-Origin :
      (overrides : List Text) {l : List Text}
      → environment upper p get user_home_dir overrides ≡ env l
      → All (Origin overrides) l
  unfolding environment merge_env
  environment-Origin overrides ok =
      let base = build_base_env upper p get user_home_dir in
      set_overrides-All (Origin overrides) upper p (set_base upper p nothing_merged base) overrides
        (λ e m fine. requested m fine)
        (set_base-All (Origin overrides) upper p nothing_merged base tt
          (build_base_env-Origin overrides))
        ok
