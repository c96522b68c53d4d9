-- ===== src/Jail.antt =====
-- internal/security/jail/jail.go and open.go: which paths a caller may reach. What the file system answers (os.Lstat,
-- os.Stat, filepath.EvalSymlinks) and what package path/filepath computes are arguments.
pub mod Paths
pub mod Prefix
pub mod Roots
pub mod Confined
pub mod Ends
pub mod Opened
mod Examples
use f1337_mcp.Prelude.{
  ℕ, zero, suc, ◌+◌, ◌-◌, ◌*◌, ◌/◌, ◌%◌, ◌^◌, ◌≤◌, ◌<◌, ◌≡◌, refl, sym, ap, ◌∙◌, ◌≢◌, ◌↔◌, ◌⊎◌, inl,
  inr, Bool, true, false, not, ◌&&◌, ◌||◌, Option, none, some, List, [], ◌∷◌, ◌++◌, map,
  append_assoc, append-nil, arith, ltb, leb, ◌==◌, if◌then◌else◌, ltb→lt, lt→ltb, ==_iff,
  Bool-cases, Option-cases, is_some, length, get_elem?, get_or, set, take, drop, replicate, any,
  all, All, length-append, length-set, length-replicate, length-take, length-drop, take-append-drop,
  get_or-set_self, get_or-set_ne, Text, codes, eq_text, eq_text_iff, eq_text_refl, has_prefix,
  is_space, trim_left, trim_space, contains_byte, lower_byte,
}
use f1337_mcp.Jail.Paths.{
  PathKind, Filepath, has_path_prefix, equal_paths, normalize_path, is_local,
}

pub data Mode : Type 0 where
  mode_unset : Mode
  mode_confined : Mode
  mode_unconfined : Mode

pub record Config : Type 0 where
  pub roots : List Text
  pub working_dir : Text

pub record Jail : Type 0 where
  pub mode : Mode
  pub roots : List Text
  pub configured : List Text
  pub working_dir : Text

-- What a call of the file system fails with, as far as the code tells it.
pub data FileError : Type 0 where
  not_exist : FileError
  not_dir : FileError
  other_error : FileError

-- os.Lstat: whether what is there is a symlink, or the error
pub data Inspected : Type 0 where
  present : Bool → Inspected
  absent : FileError → Inspected

-- filepath.EvalSymlinks
pub data Evaluated : Type 0 where
  reached : Text → Evaluated
  unreached : FileError → Evaluated

pub record FileSystem : Type 0 where
  pub lstat : Text → Inspected
  pub eval_symlinks : Text → Evaluated
  -- os.Stat, and whether it is a directory
  pub stat_dir : Text → Option Bool

pub data JailError : Type 0 where
  no_roots : JailError
  root_not_local : JailError
  root_unresolved : JailError
  root_uninspected : JailError
  root_no_directory : JailError
  not_configured : JailError
  invalid_path : JailError
  outside_jail : JailError
  dangling_symlink : JailError
  unresolved : JailError
  uninspected : JailError
  no_existing_ancestor : JailError
  no_relative_path : JailError
  -- The fuel of the model has run out.
  spinning : JailError

pub data Outcome {ℓ} (A : Type ℓ) : Type ℓ where
  done : A → Outcome A
  fails : JailError → Outcome A

-- `isTraversable`
unfoldable pub is_traversable : FileError → Bool
is_traversable not_exist = true
is_traversable not_dir = true
is_traversable other_error = false

abbrev pub is_configured : Mode → Bool
is_configured mode_unset = false
is_configured mode_confined = true
is_configured mode_unconfined = true

abbrev pub is_not_exist : FileError → Bool
is_not_exist not_exist = true
is_not_exist not_dir = false
is_not_exist other_error = false

-- The deepest component that exists, resolved, and what stands below it.
pub record Anchor : Type 0 where
  pub anchor : Text
  pub remainder : List Text

module _ (f : Filepath) (fs : FileSystem) where
  -- `resolveRoot` once EvalSymlinks and Stat have answered
  unfoldable pub root_directory : Text → Option Bool → Outcome Text
  root_directory resolved none = fails root_uninspected
  root_directory resolved (some false) = fails root_no_directory
  root_directory resolved (some true) = done resolved

  unfoldable pub root_resolved : Evaluated → Outcome Text
  unfolding root_directory
  root_resolved (unreached e) = fails root_unresolved
  root_resolved (reached resolved) = root_directory resolved (fs.stat_dir resolved)

  unfoldable pub resolve_root : Text → Outcome Text
  unfolding root_resolved
  resolve_root root =
      if not (is_local (f.classify root))
      then fails root_not_local
      else root_resolved (fs.eval_symlinks (f.clean root))

  -- The loop of `New` over the roots.
  unfoldable pub resolve_roots : List Text → List Text → Outcome (List Text)
  resolve_roots acc [] = done acc
  resolve_roots acc (root ∷ roots) = elim (resolve_root root) [
    | fails e ↦ fails e
    | done resolved ↦
        resolve_roots
          (if any (λ existing. equal_paths f existing resolved) acc
            then acc
            else acc ++ (resolved ∷ []))
          roots
  ]

  unfoldable pub confined_jail : List Text → List Text → Outcome Text → Outcome Jail
  confined_jail configured roots (fails e) = fails e
  confined_jail configured roots (done dir) =
      done
        (record { mode = mode_confined; roots = roots; configured = configured; working_dir = dir })

  unfoldable pub with_roots : Config → Outcome (List Text) → Outcome Jail
  unfolding confined_jail
  with_roots cfg (fails e) = fails e
  with_roots cfg (done roots) = confined_jail cfg.roots roots (
      if eq_text cfg.working_dir [] then done (get_or roots 0 []) else resolve_root cfg.working_dir)

  -- `New`
  unfoldable pub new_jail : Config → Outcome Jail
  unfolding with_roots resolve_roots resolve_root
  new_jail cfg =
      if length cfg.roots == 0 then fails no_roots else with_roots cfg (resolve_roots [] cfg.roots)

  -- `Unconfined`, with what os.Getwd answers
  unfoldable pub unconfined : Option Text → Jail
  unconfined cwd = record {
    mode = mode_unconfined;
    roots = [];
    configured = [];
    working_dir = elim cwd [ some d ↦ d | none ↦ [] ];
  }

  -- The loops of `ContainsResolved` and `rootFor` over the roots.
  unfoldable pub root_in : List Text → Text → Option Text
  root_in [] path = none
  root_in (root ∷ roots) path =
      let rest = root_in roots path in if has_path_prefix f path root then some root else rest

  unfoldable pub root_for : Jail → Text → Option Text
  unfolding root_in
  root_for j path = root_in j.roots path

  unfoldable pub contains_by_mode : Mode → Jail → Text → Bool
  unfolding root_in
  contains_by_mode mode_unset j path = false
  contains_by_mode mode_unconfined j path = true
  contains_by_mode mode_confined j path = is_some (root_in j.roots path)

  -- `ContainsResolved`
  unfoldable pub contains_resolved : Jail → Text → Bool
  unfolding contains_by_mode
  contains_resolved j path = contains_by_mode j.mode j path

  -- A round of resolveAnchor in which the component exists.
  unfoldable pub anchored : Bool → List Text → Evaluated → Outcome Anchor
  anchored is_link remainder (reached resolved) =
      done (record { anchor = resolved; remainder = remainder })
  anchored is_link remainder (unreached e) =
      if is_link && is_not_exist e then fails dangling_symlink else fails unresolved

  unfoldable pub climbed : Outcome Anchor → Bool → Bool → Outcome Anchor
  climbed above at_top can_climb =
      if not can_climb
      then fails uninspected
      else if at_top
      then fails no_existing_ancestor
      else above

  unfoldable pub anchor_round : Text → List Text → Outcome Anchor → Inspected → Outcome Anchor
  unfolding anchored climbed is_traversable
  anchor_round current remainder above (present is_link) =
      anchored is_link remainder (fs.eval_symlinks current)
  anchor_round current remainder above (absent e) =
      climbed above (eq_text (f.dir current) current) (is_traversable e)

  -- `resolveAnchor`, with fuel
  unfoldable pub resolve_anchor : ℕ → Text → List Text → Outcome Anchor
  unfolding anchor_round
  resolve_anchor zero current remainder = fails spinning
  resolve_anchor (suc fuel) current remainder =
      anchor_round current remainder
        (resolve_anchor fuel (f.dir current) (f.base current ∷ remainder)) (fs.lstat current)

  unfoldable pub joined : Anchor → Text
  joined a = if length a.remainder == 0 then a.anchor else f.join (a.anchor ∷ a.remainder)

  unfoldable pub check_anchor : Jail → Outcome Anchor → Outcome Text
  unfolding joined contains_resolved
  check_anchor j (fails e) = fails e
  check_anchor j (done a) =
      if not (contains_resolved j a.anchor)
      then fails outside_jail
      else if not (contains_resolved j (joined a))
      then fails outside_jail
      else done (joined a)

  unfoldable pub resolve_absolute : Jail → Mode → Option Text → Outcome Text
  unfolding check_anchor resolve_anchor
  resolve_absolute j mode none = fails invalid_path
  resolve_absolute j mode_unconfined (some abs) = done abs
  resolve_absolute j mode_unset (some abs) =
      check_anchor j (resolve_anchor (suc (length abs)) abs [])
  resolve_absolute j mode_confined (some abs) =
      check_anchor j (resolve_anchor (suc (length abs)) abs [])

  -- `Resolve`
  unfoldable pub resolve_path : Jail → Text → Outcome Text
  unfolding resolve_absolute
  resolve_path j path =
      if not (is_configured j.mode)
      then fails not_configured
      else if eq_text path []
      then fails invalid_path
      else resolve_absolute j j.mode (normalize_path f j.working_dir path)

-- What `OpenFile` asks the host to open.
pub data Opening : Type 0 where
  anywhere : Text → Opening
  beneath : Text → Text → Text → Opening

module _ (f : Filepath) (fs : FileSystem) where
  unfoldable pub open_rel : Text → Text → Option Text → Outcome Opening
  open_rel root resolved none = fails no_relative_path
  open_rel root resolved (some rel) = done (beneath root rel resolved)

  unfoldable pub open_under : Text → Option Text → Outcome Opening
  unfolding open_rel
  open_under resolved none = fails outside_jail
  open_under resolved (some root) = open_rel root resolved (f.rel root resolved)

  unfoldable pub open_resolved : Jail → Mode → Outcome Text → Outcome Opening
  unfolding open_under root_for
  open_resolved j mode (fails e) = fails e
  open_resolved j mode_unconfined (done resolved) = done (anywhere resolved)
  open_resolved j mode_unset (done resolved) = open_under resolved (root_for f fs j resolved)
  open_resolved j mode_confined (done resolved) = open_under resolved (root_for f fs j resolved)

  -- `OpenFile`, up to the call that opens
  unfoldable pub open_file : Jail → Text → Outcome Opening
  unfolding open_resolved
  open_file j path =
      if not (is_configured j.mode)
      then fails not_configured
      else open_resolved j j.mode (resolve_path f fs j path)
