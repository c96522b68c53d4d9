-- ===== src/Files/Ignore.antt =====
-- internal/agent/fs/gitignore.go: the rules of ignore files and the stack of them that a walk keeps, innermost file first.
-- filepath.Rel, the matching of a segment and what loadIgnoreFile reads are arguments.
pub mod Decides
use f1337_mcp.Prelude.{
  ℕ, zero, suc, ◌+◌, ◌-◌, ◌*◌, ◌/◌, ◌%◌, ◌^◌, ◌≤◌, ◌<◌, ◌≡◌, refl, sym, ap, ◌∙◌, ◌≢◌, ◌↔◌, ◌⊎◌, inl,
  inr, Bool, true, false, not, ◌&&◌, ◌||◌, Option, none, some, List, [], ◌∷◌, ◌++◌, map,
  append_assoc, append-nil, arith, ltb, leb, ◌==◌, if◌then◌else◌, ltb→lt, lt→ltb, ==_iff,
  Bool-cases, Option-cases, is_some, length, get_elem?, get_or, set, take, drop, replicate, any,
  all, All, length-append, length-set, length-replicate, length-take, length-drop, take-append-drop,
  get_or-set_self, get_or-set_ne, Text, codes, eq_text, eq_text_iff, eq_text_refl, has_prefix,
  is_space, trim_left, trim_space, contains_byte, lower_byte,
}
use f1337_mcp.Files.Pattern.{Pattern, compile_pattern, match_path}
use f1337_mcp.Jail.Paths.{Filepath, has_path_prefix}

pub record IgnoreRule : Type 0 where
  pub pat : Pattern
  pub negate : Bool
  pub dir_only : Bool

pub record IgnoreFile : Type 0 where
  pub dir : Text
  pub rules : List IgnoreRule

-- strings.TrimRight(line, " \t\r")
unfoldable pub trim_blanks : Text → Text
trim_blanks [] = []
trim_blanks (c ∷ s) =
    let rest = trim_blanks s in
    if eq_text rest [] && (c == 32 || (c == 9 || c == 13)) then [] else c ∷ rest

unfoldable pub ends_in_slash : Text → Bool
ends_in_slash [] = false
ends_in_slash (c ∷ []) = c == 47
ends_in_slash (c ∷ d ∷ s) = ends_in_slash (d ∷ s)

-- strings.TrimSuffix(s, "/") of a text that ends in one, and strings.TrimPrefix(s, "/")
unfoldable pub without_last : Text → Text
without_last [] = []
without_last (c ∷ []) = []
without_last (c ∷ d ∷ s) = c ∷ without_last (d ∷ s)

unfoldable pub trim_slash : Text → Text
trim_slash [] = []
trim_slash (c ∷ s) = if c == 47 then s else c ∷ s

module _ (folds : Bool) (seg_match : Text → Text → Option Bool) where
  unfoldable pub rule_of : Bool → Bool → Option Pattern → Option IgnoreRule
  rule_of negate dir_only none = none
  rule_of negate dir_only (some p) = some (record { pat = p; negate = negate; dir_only = dir_only })

  -- The pattern is anchored if it had a slash.
  unfoldable pub with_depth : Bool → Bool → Bool → Text → Option IgnoreRule
  unfolding rule_of
  with_depth negate dir_only anchored s =
      if eq_text s []
      then none
      else rule_of negate dir_only
          (compile_pattern folds seg_match (if anchored then s else codes "**/" ++ s))

  unfoldable pub without_bang : Bool → Text → Option IgnoreRule
  unfolding with_depth ends_in_slash without_last trim_slash
  without_bang negate s =
      let dir_only = ends_in_slash s in
      let s' = if dir_only then without_last s else s in
      if eq_text s' []
      then none
      else with_depth negate dir_only (contains_byte 47 s') (trim_slash s')

  -- `parseIgnoreLine`
  unfoldable pub parse_ignore_line : Text → Option IgnoreRule
  unfolding without_bang trim_blanks
  parse_ignore_line line =
      let trimmed = trim_blanks line in
      if eq_text trimmed [] || has_prefix trimmed (codes "#")
      then none
      else if has_prefix trimmed (codes "!")
      then without_bang true (drop 1 trimmed)
      else without_bang false trimmed

  -- The loop of `loadIgnoreFile` over the lines that the scanner gives.
  unfoldable pub parse_lines : List Text → List IgnoreRule
  unfolding parse_ignore_line
  parse_lines [] = []
  parse_lines (line ∷ lines) =
      let rest = parse_lines lines in
      elim (parse_ignore_line line) [ none ↦ rest | some rule ↦ rule ∷ rest ]

  unfoldable pub push_rules : Text → List IgnoreRule → List IgnoreFile → List IgnoreFile
  push_rules dir [] files = files
  push_rules dir (r ∷ rs) files = record { dir = dir; rules = r ∷ rs } ∷ files

  -- `push`, with the lines of the file, if it is a regular one that opens
  unfoldable pub push_ignore : Text → Option (List Text) → List IgnoreFile → List IgnoreFile
  unfolding parse_lines push_rules
  push_ignore dir none files = files
  push_ignore dir (some lines) files = push_rules dir (parse_lines lines) files

-- `trimTo`
unfoldable pub trim_to : Filepath → Text → List IgnoreFile → List IgnoreFile
trim_to f dir [] = []
trim_to f dir (file ∷ files) =
    let rest = trim_to f dir files in
    if not (has_path_prefix f dir file.dir) then rest else file ∷ files

module _ (matches_rule : Pattern → Text → Bool) where
  -- Whether a rule says something of a path.
  unfoldable pub applies : Text → Bool → IgnoreRule → Bool
  applies rel is_dir rule = not (rule.dir_only && not is_dir) && matches_rule rule.pat rel

  -- The loop of `ignored` over the rules of a file: `decided` and `excluded`.
  unfoldable pub decide_by : Text → Bool → Option Bool → List IgnoreRule → Option Bool
  unfolding applies
  decide_by rel is_dir decided [] = decided
  decide_by rel is_dir decided (rule ∷ rules) =
      decide_by rel is_dir (if applies rel is_dir rule then some (not rule.negate) else decided)
        rules

  unfoldable pub decide_in : IgnoreFile → Bool → Option Text → Option Bool
  unfolding decide_by
  decide_in file is_dir none = none
  decide_in file is_dir (some rel) =
      if has_prefix rel (codes "..") then none else decide_by rel is_dir none file.rules

  -- `ignored`, with filepath.Rel followed by filepath.ToSlash
  unfoldable pub ignored : (Text → Text → Option Text) → List IgnoreFile → Text → Bool → Bool
  unfolding decide_in
  ignored rel_of [] path is_dir = false
  ignored rel_of (file ∷ files) path is_dir =
      let rest = ignored rel_of files path is_dir in
      elim (decide_in file is_dir (rel_of file.dir path)) [ some excluded ↦ excluded | none ↦ rest ]
