-- ===== src/Jail/Paths.antt =====
-- internal/platform/paths.go, paths_unix.go and winpath.go: kinds of paths, and when one lies beneath another. What package
-- path/filepath computes is an argument.
use f1337_mcp.Prelude.{
  ℕ, ◌+◌, Bool, true, false, not, ◌&&◌, ◌||◌, Option, none, some, List, [], ◌∷◌, ◌++◌, leb, ◌==◌,
  if◌then◌else◌, length, get_or, take, drop, Text, eq_text, has_prefix,
}

pub data PathKind : Type 0 where
  path_invalid : PathKind
  path_relative : PathKind
  path_local : PathKind
  path_unc : PathKind
  path_device : PathKind

-- Package path/filepath of the platform, the classifyPath it is built with, and the constants that differ.
pub record Filepath : Type 0 where
  pub clean : Text → Text
  pub dir : Text → Text
  pub base : Text → Text
  pub join : List Text → Text
  pub abs : Text → Option Text
  pub rel : Text → Text → Option Text
  pub classify : Text → PathKind
  pub separator : ℕ
  pub case_insensitive_paths : Bool

abbrev pub is_local : PathKind → Bool
is_local path_invalid = false
is_local path_relative = false
is_local path_local = true
is_local path_unc = false
is_local path_device = false

-- `classifyPath` of paths_unix.go, where filepath.IsAbs asks for a leading slash
unfoldable pub classify_unix_path : Text → PathKind
classify_unix_path [] = path_invalid
classify_unix_path (c ∷ p) = if c == 47 then path_local else path_relative

-- strings.ReplaceAll(p, "/", `\`)
unfoldable pub to_backslashes : Text → Text
to_backslashes [] = []
to_backslashes (c ∷ p) = (if c == 47 then 92 else c) ∷ to_backslashes p

unfoldable pub is_drive_letter : ℕ → Bool
is_drive_letter c = (leb 97 c && leb c 122) || (leb 65 c && leb c 90)

unfoldable pub classify_doubled : Text → PathKind
classify_doubled rest =
    if eq_text rest (63 ∷ [])
      || (eq_text rest (46 ∷ [])
          || (has_prefix rest (63 ∷ 92 ∷ []) || has_prefix rest (46 ∷ 92 ∷ [])))
    then path_device
    else path_unc

unfoldable pub classify_drive : Text → PathKind
unfolding is_drive_letter
classify_drive s =
    if leb 2 (length s) && (is_drive_letter (get_or s 0 0) && (get_or s 1 0 == 58))
    then (if leb 3 (length s) && (get_or s 2 0 == 92) then path_local else path_invalid)
    else path_relative

-- `classifyWindowsPath`
unfoldable pub classify_windows_path : Text → PathKind
unfolding to_backslashes classify_doubled classify_drive
classify_windows_path p =
    if eq_text p []
    then path_invalid
    else if has_prefix (to_backslashes p) (92 ∷ 92 ∷ [])
    then classify_doubled (drop 2 (to_backslashes p))
    else classify_drive (to_backslashes p)

-- `foldASCII`
unfoldable pub fold_ascii : ℕ → ℕ
fold_ascii c = if leb 65 c && leb c 90 then c + 32 else c

-- The loop of `equalPathBytes`, over texts of one length.
unfoldable pub equal_folded : Text → Text → Bool
unfolding fold_ascii
equal_folded [] b = true
equal_folded (x ∷ a) [] = false
equal_folded (x ∷ a) (y ∷ b) =
    let rest = equal_folded a b in if fold_ascii x == fold_ascii y then rest else false

module _ (f : Filepath) where
  -- `equalPathBytes`
  unfoldable pub equal_path_bytes : Text → Text → Bool
  unfolding equal_folded
  equal_path_bytes a b =
      if not f.case_insensitive_paths
      then eq_text a b
      else if not (length a == length b)
      then false
      else equal_folded a b

  -- `EqualPaths`
  unfoldable pub equal_paths : Text → Text → Bool
  unfolding equal_path_bytes
  equal_paths a b = equal_path_bytes (f.clean a) (f.clean b)

  -- strings.HasSuffix(prefix, PathSeparator)
  unfoldable pub ends_in_separator : Text → Bool
  ends_in_separator [] = false
  ends_in_separator (c ∷ []) = c == f.separator
  ends_in_separator (c ∷ d ∷ p) = ends_in_separator (d ∷ p)

  unfoldable pub with_separator : Text → Text
  unfolding ends_in_separator
  with_separator prefix = if ends_in_separator prefix then prefix else prefix ++ (f.separator ∷ [])

  unfoldable pub is_beneath : Text → Text → Bool
  unfolding equal_path_bytes
  is_beneath path prefix =
      if leb (length path) (length prefix)
      then false
      else equal_path_bytes (take (length prefix) path) prefix

  unfoldable pub has_clean_prefix : Text → Text → Bool
  unfolding equal_path_bytes is_beneath with_separator
  has_clean_prefix path prefix =
      if equal_path_bytes path prefix then true else is_beneath path (with_separator prefix)

  -- `HasPathPrefix`
  unfoldable pub has_path_prefix : Text → Text → Bool
  unfolding has_clean_prefix
  has_path_prefix path prefix =
      if eq_text path [] || eq_text prefix []
      then false
      else has_clean_prefix (f.clean path) (f.clean prefix)

  unfoldable pub from_base : Text → Text → Option Text
  from_base base p =
      if eq_text base []
      then f.abs p
      else if not (is_local (f.classify base))
      then none
      else some (f.join (base ∷ p ∷ []))

  unfoldable pub by_kind : Text → Text → PathKind → Option Text
  unfolding from_base
  by_kind base p path_invalid = none
  by_kind base p path_unc = none
  by_kind base p path_device = none
  by_kind base p path_local = some (f.clean p)
  by_kind base p path_relative = from_base base p

  -- `NormalizePath`
  unfoldable pub normalize_path : Text → Text → Option Text
  unfolding by_kind
  normalize_path base p = by_kind base p (f.classify p)
