-- ===== src/Jail/Ends.antt =====
-- The loop of resolveAnchor in internal/security/jail/jail.go ends.
use mathlib.Core.Bool.{false≢true}
use mathlib.Core.Option.{some-injective}
use f1337_mcp.Prelude.{
  ℕ, zero, suc, ◌<◌, ◌≡◌, refl, sym, ap, ◌∙◌, ◌⊎◌, inl, inr, Bool, true, false, ◌&&◌, Option, none,
  some, List, [], ◌∷◌, arith, Bool-cases, length, Text, eq_text, eq_text_iff,
}
use f1337_mcp.Jail.Paths.{
  Filepath, PathKind, path_local, path_relative, path_unc, path_device, path_invalid,
  normalize_path, by_kind, from_base, is_local,
}
use f1337_mcp.Jail.{
  Mode, mode_unset, mode_confined, mode_unconfined, Jail, FileSystem, Inspected, present, absent,
  Evaluated, reached, unreached, Outcome, done, fails, is_traversable, is_not_exist, Anchor,
  anchored, climbed, anchor_round, resolve_anchor, check_anchor, resolve_absolute, resolve_path,
  spinning, contains_resolved, joined, is_configured,
}

-- An absolute path that Clean leaves as it is.
abbrev pub IsCleanLocal : Filepath → Text → Type 0
IsCleanLocal f p = (is_local (f.classify p) ≡ true) × (f.clean p ≡ p)

-- What package path/filepath documents: Clean, Abs, Join and Dir answer cleaned paths, which are absolute
-- for an absolute argument (and for every one, with Abs), and Dir of a cleaned absolute path is shorter
-- unless it is the path itself.
pub record IsPathPackage (f : Filepath) : Type 0 where
  pub clean_local : (p : Text) → is_local (f.classify p) ≡ true → IsCleanLocal f (f.clean p)
  pub abs_local : (p a : Text) → f.abs p ≡ some a → IsCleanLocal f a
  pub join_local :
      (b p : Text) → is_local (f.classify b) ≡ true → IsCleanLocal f (f.join (b ∷ p ∷ []))
  pub dir_local : (p : Text) → IsCleanLocal f p → IsCleanLocal f (f.dir p)
  pub dir_shorter : (p : Text) → IsCleanLocal f p → (f.dir p ≡ p) ⊎ (length (f.dir p) < length p)

abbrev pub Stops {ℓ} : {A : Type ℓ} → Outcome A → Type ℓ
Stops o = ¬ (o ≡ fails spinning)

module _ (f : Filepath) (fs : FileSystem) where
  anchored-Stops :
      (b : Bool) (remainder : List Text) (v : Evaluated) → Stops (anchored f fs b remainder v)
  unfolding anchored
  anchored-Stops b remainder (reached r) h = cc
  anchored-Stops b remainder (unreached e) h = elim (Bool-cases (b && is_not_exist e)) [
    | inl dangling ↦ cc (rw dangling at h)
    | inr other ↦ cc (rw other at h)
  ]

  climbed-Stops :
      (above : Outcome Anchor) (at_top can_climb : Bool)
      → (at_top ≡ false → Stops above)
      → Stops (climbed f fs above at_top can_climb)
  unfolding climbed
  climbed-Stops above at_top false k h = cc
  climbed-Stops above true true k h = cc
  climbed-Stops above false true k h = k refl h

  round-Stops :
      (current : Text) (remainder : List Text) (above : Outcome Anchor) (i : Inspected)
      → (eq_text (f.dir current) current ≡ false → Stops above)
      → Stops (anchor_round f fs current remainder above i)
  unfolding anchor_round
  round-Stops current remainder above (present b) k =
      anchored-Stops b remainder (fs.eval_symlinks current)
  round-Stops current remainder above (absent e) k =
      climbed-Stops above (eq_text (f.dir current) current) (is_traversable e) k

  module _ (laws : IsPathPackage f) where
    resolve_anchor-Stops :
        (fuel : ℕ) (current : Text) (remainder : List Text)
        → length current < fuel
        → IsCleanLocal f current
        → Stops (resolve_anchor f fs fuel current remainder)
    unfolding resolve_anchor
    resolve_anchor-Stops zero current remainder h l = absurd (omega arith)
    resolve_anchor-Stops (suc fuel) current remainder h l =
        round-Stops current remainder
          (resolve_anchor f fs fuel (f.dir current) (f.base current ∷ remainder)) (fs.lstat current)
          (λ below. elim (laws.dir_shorter current l) [
            | inl same ↦
                absurd (false≢true (sym below ∙ (eq_text_iff (f.dir current) current).1 same))
            | inr shorter ↦
                resolve_anchor-Stops fuel (f.dir current) (f.base current ∷ remainder)
                  (omega (arith, h, shorter)) (laws.dir_local current l)
          ])

    normalized_local :
        (base p : Text) (k : PathKind) (abs : Text)
        → f.classify p ≡ k
        → by_kind f base p k ≡ some abs
        → IsCleanLocal f abs
    unfolding by_kind from_base
    normalized_local base p path_invalid abs q h = absurd (cc)
    normalized_local base p path_unc abs q h = absurd (cc)
    normalized_local base p path_device abs q h = absurd (cc)
    normalized_local base p path_local abs q h =
        rw (← some-injective (f.clean p) abs h) (laws.clean_local p (ap is_local q))
    normalized_local base p path_relative abs q h = elim (Bool-cases (eq_text base [])) [
      | inl unset ↦ laws.abs_local p abs (rw unset at h)
      | inr is_set ↦ elim (Bool-cases (is_local (f.classify base))) [
        | inr foreign ↦ absurd (cc (rw (is_set, foreign) at h))
        | inl local ↦
            rw (← some-injective (f.join (base ∷ p ∷ [])) abs (rw (is_set, local) at h))
              (laws.join_local base p local)
      ]
    ]

    abbrev as_anchor : Outcome Text → Outcome Anchor
    as_anchor (done t) = fails spinning
    as_anchor (fails e) = fails e

    check_anchor-Stops : (j : Jail) (o : Outcome Anchor) → Stops o → Stops (check_anchor f fs j o)
    unfolding check_anchor
    check_anchor-Stops j (fails e) s h = s (ap as_anchor h)
    check_anchor-Stops j (done a) s h = elim (Bool-cases (contains_resolved f fs j a.anchor)) [
      | inr outside ↦ cc (rw outside at h)
      | inl inside ↦ elim (Bool-cases (contains_resolved f fs j (joined f fs a))) [
        | inr outside ↦ cc (rw (inside, outside) at h)
        | inl also ↦ cc (rw (inside, also) at h)
      ]
    ]

    resolve_absolute-Stops :
        (j : Jail) (m : Mode) (o : Option Text)
        → ((abs : Text) → o ≡ some abs → IsCleanLocal f abs)
        → Stops (resolve_absolute f fs j m o)
    unfolding resolve_absolute
    resolve_absolute-Stops j m none k h = cc
    resolve_absolute-Stops j mode_unconfined (some abs) k h = cc
    resolve_absolute-Stops j mode_unset (some abs) k h =
        check_anchor-Stops j _
          (resolve_anchor-Stops (suc (length abs)) abs [] (omega arith) (k abs refl)) h
    resolve_absolute-Stops j mode_confined (some abs) k h =
        check_anchor-Stops j _
          (resolve_anchor-Stops (suc (length abs)) abs [] (omega arith) (k abs refl)) h

    -- If package path/filepath keeps absolute paths absolute and cleaned, and Dir shortens them,
    -- Resolve ends within a round for each byte of the path and one more.
    pub resolve_path-Stops : (j : Jail) (path : Text) → Stops (resolve_path f fs j path)
    unfolding resolve_path normalize_path
    resolve_path-Stops j path h = elim (Bool-cases (is_configured j.mode)) [
      | inr unset ↦ cc (rw unset at h)
      | inl built ↦ elim (Bool-cases (eq_text path [])) [
        | inl empty ↦ cc (rw (built, empty) at h)
        | inr other ↦
            resolve_absolute-Stops j j.mode (normalize_path f j.working_dir path)
              (λ abs q. normalized_local j.working_dir path (f.classify path) abs refl q)
              (rw (built, other) at h)
      ]
    ]
