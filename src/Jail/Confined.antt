-- ===== src/Jail/Confined.antt =====
-- Where the paths lie that Resolve and OpenFile of internal/security/jail answer.
use mathlib.Core.Option.{some-injective}
use f1337_mcp.Prelude.{
  Has, ℕ, zero, suc, ◌≡◌, refl, sym, ◌≢◌, inl, inr, Bool, true, false, ◌&&◌, Option, none, some,
  List, [], ◌∷◌, Bool-cases, Option-cases, length, Text, eq_text,
}
use f1337_mcp.Jail.Paths.{Filepath, has_path_prefix, normalize_path}
use f1337_mcp.Jail.Prefix.{Beneath, has_path_prefix-Beneath}
use f1337_mcp.Jail.Roots.{done-injective}
use f1337_mcp.Jail.{
  Mode, mode_unset, mode_confined, mode_unconfined, Jail, FileError, Inspected, present, absent,
  Evaluated, reached, unreached, FileSystem, Outcome, done, fails, is_traversable, is_configured,
  Anchor, root_in, contains_by_mode, contains_resolved, anchored, climbed, anchor_round,
  resolve_anchor, joined, check_anchor, resolve_absolute, resolve_path, is_not_exist,
}

module _ (f : Filepath) (fs : FileSystem) where
  -- The directories above a path that were passed, each of which does not exist, with what was trimmed.
  pub data Climbs (abs : Text) : Text → List Text → Type 0 where
    start : Climbs abs abs []
    up :
        {current : Text} {remainder : List Text}
        → (e : FileError) → Climbs abs current remainder
        → fs.lstat current ≡ absent e
        → is_traversable e ≡ true
        → Climbs abs (f.dir current) (f.base current ∷ remainder)

  -- The anchor is what an existing directory above the path resolves to, and nothing between the two exists.
  pub record IsAnchor (abs : Text) (a : Anchor) : Type 0 where
    pub existing : Text
    pub climbs : Climbs abs existing a.remainder
    pub is_link : Bool
    pub exists : fs.lstat existing ≡ present is_link
    pub evaluates : fs.eval_symlinks existing ≡ reached a.anchor

  anchored-IsAnchor :
      (abs current : Text) (remainder : List Text) (b : Bool) (v : Evaluated) {a : Anchor}
      → Climbs abs current remainder
      → fs.lstat current ≡ present b
      → fs.eval_symlinks current ≡ v
      → anchored f fs b remainder v ≡ done a
      → IsAnchor abs a
  unfolding anchored
  anchored-IsAnchor abs current remainder b (reached r) c l v h =
      rw (← done-injective _ _ h)
        (record { existing = current; climbs = c; is_link = b; exists = l; evaluates = v })
  anchored-IsAnchor abs current remainder b (unreached e) c l v h =
      elim (Bool-cases (b && is_not_exist e)) [
        | inl dangling ↦ absurd (cc (rw dangling at h))
        | inr other ↦ absurd (cc (rw other at h))
      ]

  climbed-done :
      (above : Outcome Anchor) (at_top can_climb : Bool) {a : Anchor}
      → climbed f fs above at_top can_climb ≡ done a
      → (can_climb ≡ true) × (above ≡ done a)
  unfolding climbed
  climbed-done above at_top false h = absurd (cc)
  climbed-done above true true h = absurd (cc)
  climbed-done above false true h = (refl, h)

  round-IsAnchor :
      (abs current : Text) (remainder : List Text) (above : Outcome Anchor) (i : Inspected)
      {a : Anchor}
      → Climbs abs current remainder
      → fs.lstat current ≡ i
      → (Climbs abs (f.dir current) (f.base current ∷ remainder) → above ≡ done a → IsAnchor abs a)
      → anchor_round f fs current remainder above i ≡ done a
      → IsAnchor abs a
  unfolding anchor_round
  round-IsAnchor abs current remainder above (present b) c l go h =
      anchored-IsAnchor abs current remainder b (fs.eval_symlinks current) c l refl h
  round-IsAnchor abs current remainder above (absent e) c l go h =
      let (t, d) = climbed-done above _ (is_traversable e) h in go (up e c l t) d

  resolve_anchor-IsAnchor :
      (fuel : ℕ) (abs current : Text) (remainder : List Text) {a : Anchor}
      → Climbs abs current remainder
      → resolve_anchor f fs fuel current remainder ≡ done a
      → IsAnchor abs a
  unfolding resolve_anchor
  resolve_anchor-IsAnchor zero abs current remainder c h = absurd (cc)
  resolve_anchor-IsAnchor (suc fuel) abs current remainder c h =
      round-IsAnchor abs current remainder
        (resolve_anchor f fs fuel (f.dir current) (f.base current ∷ remainder)) (fs.lstat current) c
        refl
        (λ c' h'.
          resolve_anchor-IsAnchor fuel abs (f.dir current) (f.base current ∷ remainder) c' h')
        h

  pub root_in-Beneath :
      (roots : List Text) (path : Text) {root : Text}
      → root_in f fs roots path ≡ some root
      → Has roots root × Beneath f path root
  unfolding root_in
  root_in-Beneath [] path h = absurd (cc)
  root_in-Beneath (r ∷ roots) path h = elim (Bool-cases (has_path_prefix f path r)) [
    | inl is_prefix ↦
        let e = some-injective r _ (rw is_prefix at h) in
        rw (← e) ((0, refl), has_path_prefix-Beneath f path r is_prefix)
    | inr other ↦ let (m, b) = root_in-Beneath roots path (rw other at h) in ((suc m.0, m.1), b)
  ]

  -- The path lies beneath a root of the jail.
  abbrev pub IsWithin : Jail → Text → Type 0
  IsWithin j path = (root : Text) × Has j.roots root × Beneath f path root

  by_mode-IsWithin :
      (m : Mode) (j : Jail) (path : Text)
      → m ≢ mode_unconfined
      → contains_by_mode f fs m j path ≡ true
      → IsWithin j path
  unfolding contains_by_mode
  by_mode-IsWithin mode_unset j path c h = absurd (cc)
  by_mode-IsWithin mode_unconfined j path c h = absurd (c refl)
  by_mode-IsWithin mode_confined j path c h = elim (Option-cases (root_in f fs j.roots path)) [
    | inl nowhere ↦ absurd (cc (rw nowhere at h))
    | inr (root, e) ↦ let (m, b) = root_in-Beneath j.roots path e in (root, m, b)
  ]

  -- What Resolve answers for an absolute path.
  pub record IsResolved (j : Jail) (abs path : Text) : Type 0 where
    pub at_anchor : Anchor
    pub found : IsAnchor abs at_anchor
    pub anchor_within : IsWithin j at_anchor.anchor
    pub is_joined : path ≡ joined f fs at_anchor
    pub path_within : IsWithin j path

  check_anchor-IsResolved :
      (j : Jail) (abs : Text) (o : Outcome Anchor) {r : Text}
      → j.mode ≢ mode_unconfined
      → resolve_anchor f fs (suc (length abs)) abs [] ≡ o
      → check_anchor f fs j o ≡ done r
      → IsResolved j abs r
  unfolding check_anchor contains_resolved
  check_anchor-IsResolved j abs (fails e) c q h = absurd (cc)
  check_anchor-IsResolved j abs (done a) c q h =
      elim (Bool-cases (contains_by_mode f fs j.mode j a.anchor)) [
        | inr outside ↦ absurd (cc (rw (contains_resolved, outside) at h))
        | inl inside ↦ elim (Bool-cases (contains_by_mode f fs j.mode j (joined f fs a))) [
          | inr outside ↦ absurd (cc (rw (contains_resolved, inside, outside) at h))
          | inl also ↦
              let h' =
                done-injective (joined f fs a) _ (rw (contains_resolved, inside, also) at h) in
              record {
                at_anchor = a;
                found = resolve_anchor-IsAnchor (suc (length abs)) abs abs [] start q;
                anchor_within = by_mode-IsWithin j.mode j a.anchor c inside;
                is_joined = sym h';
                path_within = rw (← h') (by_mode-IsWithin j.mode j (joined f fs a) c also);
              }
        ]
      ]

  resolve_absolute-IsResolved :
      (j : Jail) (m : Mode) (o : Option Text) {r : Text}
      → j.mode ≢ mode_unconfined
      → m ≢ mode_unconfined
      → resolve_absolute f fs j m o ≡ done r
      → (abs : Text) × (o ≡ some abs) × IsResolved j abs r
  unfolding resolve_absolute
  resolve_absolute-IsResolved j m none c c' h = absurd (cc)
  resolve_absolute-IsResolved j mode_unconfined (some abs) c c' h = absurd (c' refl)
  resolve_absolute-IsResolved j mode_unset (some abs) c c' h =
      (abs, refl, check_anchor-IsResolved j abs _ c refl h)
  resolve_absolute-IsResolved j mode_confined (some abs) c c' h =
      (abs, refl, check_anchor-IsResolved j abs _ c refl h)

  pub resolve_path-IsResolved :
      (j : Jail) (path : Text) {r : Text}
      → j.mode ≢ mode_unconfined
      → resolve_path f fs j path ≡ done r
      → (abs : Text) × (normalize_path f j.working_dir path ≡ some abs) × IsResolved j abs r
  unfolding resolve_path
  resolve_path-IsResolved j path c h = elim (Bool-cases (is_configured j.mode)) [
    | inr unset ↦ absurd (cc (rw unset at h))
    | inl built ↦ elim (Bool-cases (eq_text path [])) [
      | inl empty ↦ absurd (cc (rw (built, empty) at h))
      | inr other ↦
          resolve_absolute-IsResolved j j.mode (normalize_path f j.working_dir path) c c
            (rw (built, other) at h)
    ]
  ]
