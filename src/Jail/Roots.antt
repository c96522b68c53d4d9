-- ===== src/Jail/Roots.antt =====
-- Which roots a jail of internal/security/jail/jail.go has.
use f1337_mcp.Prelude.{
  All-both, Has, suc, ◌≡◌, refl, ◌⊎◌, inl, inr, Bool, true, false, List, [], ◌∷◌, ◌++◌, ◌==◌,
  if◌then◌else◌, Bool-cases, length, any, All, Text,
}
use f1337_mcp.Jail.Paths.{Filepath, equal_paths}
use f1337_mcp.Jail.{
  mode_confined, Config, Jail, FileSystem, Outcome, done, fails, resolve_root, resolve_roots,
  with_roots, new_jail, confined_jail,
}

pub done-injective {ℓ} : {A : Type ℓ} (a b : A) → Outcome.done a ≡ Outcome.done b → a ≡ b
done-injective a b h = cc

pub Outcome-cases {ℓ} :
    {A : Type ℓ} (o : Outcome A) → ((a : A) × (o ≡ done a)) ⊎ ((e : _) × (o ≡ fails e))
Outcome-cases (done a) = inl (a, refl)
Outcome-cases (fails e) = inr (e, refl)

module _ (f : Filepath) (fs : FileSystem) (cfg : Config) where
  -- The root is what a configured directory resolves to.
  abbrev pub Configured : Text → Type 0
  Configured root = (c : Text) × Has cfg.roots c × (resolve_root f fs c ≡ done root)

  added :
      (b : Bool) (acc : List Text) (r : Text)
      → All Configured acc
      → Configured r
      → All Configured (if b then acc else acc ++ (r ∷ []))
  added true acc r h k = h
  added false acc r h k = All-both Configured acc (r ∷ []) h (k, tt)

  resolve_roots-Configured :
      (acc roots : List Text) {out : List Text}
      → ((c : Text) → Has roots c → Has cfg.roots c)
      → All Configured acc
      → resolve_roots f fs acc roots ≡ done out
      → All Configured out
  unfolding resolve_roots
  resolve_roots-Configured acc [] sub h ok = rw (← done-injective _ _ ok) h
  resolve_roots-Configured acc (root ∷ roots) sub h ok =
      elim (Outcome-cases (resolve_root f fs root)) [
        | inr (e, bad) ↦ absurd (cc (rw (resolve_roots, bad) at ok))
        | inl (r, good) ↦
            resolve_roots-Configured
              (if any (λ existing. equal_paths f existing r) acc then acc else acc ++ (r ∷ []))
              roots (λ c m. sub c (suc m.0, m.1))
              (added (any (λ existing. equal_paths f existing r) acc) acc r h
                (root, sub root (0, refl), good))
              (rw (resolve_roots, good) at ok)
      ]

  by_dir :
      (roots : List Text) (o : Outcome Text) {j : Jail}
      → All Configured roots
      → confined_jail f fs cfg.roots roots o ≡ done j
      → All Configured j.roots × (j.mode ≡ mode_confined)
  unfolding confined_jail
  by_dir roots (fails e) h ok = absurd (cc)
  by_dir roots (done dir) h ok = rw (← done-injective _ _ ok) (h, refl)

  by_roots :
      (o : Outcome (List Text)) {j : Jail}
      → resolve_roots f fs [] cfg.roots ≡ o
      → with_roots f fs cfg o ≡ done j
      → All Configured j.roots × (j.mode ≡ mode_confined)
  unfolding with_roots
  by_roots (fails e) r ok = absurd (cc)
  by_roots (done roots) r ok =
      by_dir roots _ (resolve_roots-Configured [] cfg.roots (λ c m. m) tt r) ok

  pub new_jail-Configured :
      {j : Jail} → new_jail f fs cfg ≡ done j → All Configured j.roots × (j.mode ≡ mode_confined)
  unfolding new_jail with_roots confined_jail
  new_jail-Configured ok = elim (Bool-cases (length cfg.roots == 0)) [
    | inl none_given ↦ absurd (cc (rw none_given at ok))
    | inr given ↦ by_roots (resolve_roots f fs [] cfg.roots) refl (rw given at ok)
  ]
