-- ===== src/Files/Examples.antt =====
-- The file tools of internal/agent/fs on concrete inputs.
use f1337_mcp.Prelude.{
  ◌≡◌, refl, ap, Bool, true, false, Option, some, List, [], ◌∷◌, ◌++◌, map, arith, Text, codes,
  eq_text, has_prefix, trim_space, contains_byte, lower_byte,
}
use mathlib.Core.Option.{some-injective}
use f1337_mcp.Files.Ignore.{IgnoreFile, parse_lines, ignored}
use f1337_mcp.Files.Ignore.Decides.{Dotted, Decision, ignored-Decision}
use f1337_mcp.Files.Pattern.{
  seg_ok, split_on, folded_path, pattern_segments, Pattern, slash, compile_pattern, match_segments,
  match_path, prefix_can_match,
}
use f1337_mcp.Files.Pattern.Reference.{glob}
use f1337_mcp.Files.Pattern.Memo.{match_segments-glob}
use f1337_mcp.Files.Pattern.Prefix.{prefix_complete}
use f1337_mcp.Files.Edit.{
  index, count_line_endings, check_new_line_endings, check_result_size, count_of,
  replace_occurrences,
}
use f1337_mcp.Files.Edit.Replaces.{Replaces, replace_occurrences-Replaces}
use f1337_mcp.Files.Edit.Endings.{replace_occurrences-endings}
use f1337_mcp.Files.Edit.Handler.{File, EditRequest, Surroundings, load_for_edit, edit_file}
use f1337_mcp.Files.Edit.Written.{Sound, edit_file-Sound}
use f1337_mcp.Files.Locks.{lock_both, Chain, no_deadlock}
use f1337_mcp.Files.Edit.Hints.{Hint, no_match_hint, occurrence_lines}
use f1337_mcp.Files.Diff.{line_spans, line_of_offset, kept_window}

-- path.Match for segments without wildcards.
abbrev literal : Text → Text → Option Bool
literal pat name = some (eq_text pat name)

abbrev tests : Pattern
tests = record { segments = codes "**" ∷ codes "go" ∷ codes "**" ∷ codes "t" ∷ []; folding = false }

compiles : compile_pattern false literal (codes " **\\go/./**/**//t") ≡ some tests
unfolding compile_pattern eq_text trim_space split_on
compiles = refl

matched : match_path (map lower_byte) literal tests (codes "a/go/t") ≡ true
unfolding match_path pattern_segments folded_path eq_text seg_ok
matched = refl

pruned :
    prefix_can_match
      (map lower_byte)
      literal
      (record { segments = codes "go" ∷ codes "t" ∷ []; folding = false })
      (codes "a")
    ≡ false
unfolding prefix_can_match eq_text
pruned = refl

match_segments-glob_example :
    match_segments literal tests.segments (codes "a" ∷ codes "go" ∷ codes "t" ∷ [])
    ≡ glob literal tests.segments (codes "a" ∷ codes "go" ∷ codes "t" ∷ [])
match_segments-glob_example =
    match_segments-glob literal tests.segments (codes "a" ∷ codes "go" ∷ codes "t" ∷ [])

lower_join :
    (s t : Text) → map lower_byte (s ++ slash ∷ t) ≡ map lower_byte s ++ slash ∷ map lower_byte t
lower_join [] t = refl
lower_join (c ∷ s) t = ap (λ r. lower_byte c ∷ r) (lower_join s t)

prefix_complete_example : prefix_can_match (map lower_byte) literal tests (codes "a/go") ≡ true
prefix_complete_example =
    prefix_complete (map lower_byte) literal lower_join tests (codes "a/go") (codes "t") matched

abbrev crlf_file : Text
crlf_file = codes "one\r\ntwo\r\n"

replaced : replace_occurrences (codes "a-b-c") (codes "-") (codes "::") true ≡ (
  codes "a::b::c",
  record { old_start = 1; old_end = 2; new_start = 1; new_end = 3 }
      ∷ record { old_start = 3; old_end = 4; new_start = 4; new_end = 6 }
      ∷ [],
)
unfolding replace_occurrences index has_prefix eq_text
replaced = refl

replace_occurrences-Replaces_example :
    Replaces
      (codes "-")
      (codes "::")
      true
      0
      0
      (codes "a-b-c")
      (replace_occurrences (codes "a-b-c") (codes "-") (codes "::") true).0
      (replace_occurrences (codes "a-b-c") (codes "-") (codes "::") true).1
replace_occurrences-Replaces_example =
    replace_occurrences-Replaces (codes "a-b-c") (codes "-") (codes "::") true (omega arith)

replace_occurrences-endings_example :
    (count_line_endings (replace_occurrences crlf_file (codes "one") (codes "1\r\n") true).0).1 ≡ 0
unfolding check_new_line_endings count_line_endings contains_byte
replace_occurrences-endings_example =
    replace_occurrences-endings crlf_file (codes "one") (codes "1\r\n") true (omega arith) refl
      (omega arith) refl refl

-- The check does not look at a new string without LF: an LF file gets a CRLF.
mixed :
    (check_new_line_endings (codes "a\nb\n") (codes "a\r") ≡ true)
    × (count_line_endings (replace_occurrences (codes "a\nb\n") (codes "a") (codes "a\r") false).0
        ≡ (1, 1))
unfolding check_new_line_endings count_line_endings replace_occurrences contains_byte index
    has_prefix
mixed = (refl, refl)

abbrev edit_request : EditRequest
edit_request = record {
  path = codes "f";
  old_string = codes "-";
  new_string = codes "::";
  replace_all = true;
}

abbrev plain_file : File
plain_file = record {
  is_irregular = false;
  opens = true;
  is_dir = some false;
  size = 5;
  mode = 420;
  bytes = some (codes "a-b-c");
}

abbrev around : Surroundings
around = record {
  resolve_path = λ p. some p;
  write_target = λ p. some p;
  locked = true;
  file = λ p. plain_file;
  cancelled = false;
  writes = true;
}

edit_file-Sound_example :
    Sound 8 around edit_request (λ t. true) (edit_file 8 around edit_request (λ t. true))
edit_file-Sound_example = edit_file-Sound 8 around edit_request (λ t. true)

edited : (edit_file 8 around edit_request (λ t. true)).0 ≡ some (codes "f", codes "a::b::c", 420)
unfolding edit_file eq_text load_for_edit count_of index has_prefix check_new_line_endings
    contains_byte check_result_size replace_occurrences
edited = refl

-- Two moves that cross take their locks in the same order.
crossing :
    lock_both true (map lower_byte) (codes "B") (codes "a")
    ≡ lock_both true (map lower_byte) (codes "a") (codes "B")
unfolding lock_both
crossing = refl

no_deadlock_example : ¬ Chain true (map lower_byte) (codes "a") (codes "a")
no_deadlock_example = no_deadlock true (map lower_byte) (codes "a")

hinted :
    (no_match_hint (codes "a\r\nb") (codes "a\nb") ≡ Hint.crlf_ending)
    × (no_match_hint (codes "x\n  if  y {\n") (codes "if y {") ≡ Hint.whitespace_at 2)
    × (no_match_hint (codes "x\n") (codes "y") ≡ Hint.absent_text)
    × (occurrence_lines (codes "a\nb\na a") (codes "a") 2 ≡ 1 ∷ 3 ∷ [])
unfolding no_match_hint occurrence_lines contains_byte index has_prefix eq_text split_on
hinted = (refl, refl, refl, refl)

lines_found :
    (line_spans (codes "a\nbc\nd")
      ≡ record { start = 0; stop = 2 }
        ∷ record { start = 2; stop = 5 }
        ∷ record { start = 5; stop = 6 }
        ∷ [])
    × (line_of_offset (line_spans (codes "a\nbc\nd")) 4 ≡ 1)
    × (line_of_offset (line_spans (codes "a\nbc\nd")) 99 ≡ 2)
    × (kept_window 1000 (some 900) ≡ (488, 1000))
unfolding line_spans line_of_offset kept_window
lines_found = (refl, refl, refl, refl)

abbrev unfolded : Text → Text
unfolded t = t

-- The rules of an ignore file: a directory anywhere, and one name that is kept.
abbrev ignore_lines : List Text
ignore_lines = codes "# built" ∷ codes "out/ " ∷ codes "*log" ∷ codes "!*log" ∷ []

abbrev below_root : Text → Text → Option Text
below_root dir path = some path

abbrev ignore_stack : List IgnoreFile
ignore_stack = record { dir = codes "/"; rules = parse_lines false literal ignore_lines } ∷ []

ignores :
    (ignored (match_path unfolded literal) below_root ignore_stack (codes "a/out") true ≡ true)
    × (ignored (match_path unfolded literal) below_root ignore_stack (codes "a/out") false ≡ false)
    × (ignored (match_path unfolded literal) below_root ignore_stack (codes "*log") false ≡ false)
unfolding ignored parse_lines has_prefix eq_text compile_pattern trim_space contains_byte split_on
    match_path pattern_segments folded_path seg_ok
ignores = (refl, refl, refl)

-- A name that begins with two dots is never ignored.
dotted :
    ignored
      (match_path unfolded literal)
      below_root
      (record { dir = codes "/"; rules = parse_lines false literal (codes "..cache" ∷ []) } ∷ [])
      (codes "..cache")
      false
    ≡ false
unfolding ignored parse_lines has_prefix
dotted = refl

undotted : (rel : Text) → some (codes "a/out") ≡ some rel → ¬ Dotted rel
undotted rel e d = absurd (cc (some-injective _ _ e, d.spells))

ignored-Decision_example :
    Decision
      (match_path unfolded literal)
      below_root
      (codes "a/out")
      true
      ignore_stack
      (ignored (match_path unfolded literal) below_root ignore_stack (codes "a/out") true)
ignored-Decision_example =
    ignored-Decision (match_path unfolded literal) below_root (codes "a/out") true ignore_stack
      (undotted, tt)
