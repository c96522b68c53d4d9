-- ===== src/Files/Edit/Handler.antt =====
-- `EditFile` and `loadForEdit` of internal/agent/fs/edit.go: the order of their checks. What the file system
-- answers is an argument, and the write is recorded as it is asked for.
use f1337_mcp.Prelude.{
  ℕ, ◌+◌, ◌%◌, ◌^◌, Bool, not, ◌&&◌, Option, none, some, List, [], ltb, ◌==◌, if◌then◌else◌, length,
  take, Text, eq_text,
}
use f1337_mcp.Files.Edit.Hints.{Hint, no_match_hint, occurrence_lines}
use f1337_mcp.Files.Edit.{
  Occurrence, count_of, replace_occurrences, check_result_size, check_new_line_endings,
}

-- Why an edit failed.
pub data EditError : Type 0 where
  old_required : EditError
  identical : EditError
  unresolved : EditError
  bad_target : EditError
  interrupted : EditError
  irregular : EditError
  unopened : EditError
  unreadable : EditError
  directory : EditError
  too_large : EditError
  grew : EditError
  not_utf8 : EditError
  no_match : Hint → EditError
  ambiguous : ℕ → List ℕ → EditError
  mixed_endings : EditError
  result_too_large : EditError
  not_written : EditError

pub data Outcome {ℓ} (A : Type ℓ) : Type ℓ where
  ok : A → Outcome A
  failed : EditError → Outcome A

-- What the file system tells about the file that is edited.
pub record File : Type 0 where
  pub is_irregular : Bool
  pub opens : Bool
  pub is_dir : Option Bool
  pub size : ℕ
  pub mode : ℕ
  pub bytes : Option Text

-- `loadForEdit`
unfoldable pub load_read : (Text → Bool) → ℕ → ℕ → Option Text → Outcome (Text × ℕ)
load_read utf8_valid max_edit_bytes mode none = failed unreadable
load_read utf8_valid max_edit_bytes mode (some bytes) =
    let content = take (max_edit_bytes + 1) bytes in
    if ltb max_edit_bytes (length content)
    then failed grew
    else if not (utf8_valid content)
    then failed not_utf8
    else ok (content, mode)

unfoldable pub load_stat : (Text → Bool) → ℕ → File → Option Bool → Outcome (Text × ℕ)
unfolding load_read
load_stat utf8_valid max_edit_bytes f none = failed unreadable
load_stat utf8_valid max_edit_bytes f (some is_dir) =
    if is_dir
    then failed directory
    else if ltb max_edit_bytes f.size
    then failed too_large
    else load_read utf8_valid max_edit_bytes f.mode f.bytes

unfoldable pub load_for_edit : (Text → Bool) → ℕ → File → Outcome (Text × ℕ)
unfolding load_stat
load_for_edit utf8_valid max_edit_bytes f =
    if f.is_irregular
    then failed irregular
    else if not f.opens
    then failed unopened
    else load_stat utf8_valid max_edit_bytes f f.is_dir

pub record EditRequest : Type 0 where
  pub path : Text
  pub old_string : Text
  pub new_string : Text
  pub replace_all : Bool

-- What surrounds the edit: the path's resolution and target, whether the lock is got, the file, whether the
-- caller has gone by the time of the write, and whether the write succeeds.
pub record Surroundings : Type 0 where
  pub resolve_path : Text → Option Text
  pub write_target : Text → Option Text
  pub locked : Bool
  pub file : Text → File
  pub cancelled : Bool
  pub writes : Bool

-- A write that was asked for: the path, the bytes and the mode.
abbrev pub Write : Type 0
Write = Text × Text × ℕ

pub record EditResponse : Type 0 where
  pub path : Text
  pub replacements : ℕ
  pub occurrences : List Occurrence

abbrev pub Answer : Type 0
Answer = Option Write × Outcome EditResponse

module _ (max_edit_bytes : ℕ) (w : Surroundings) (req : EditRequest) where
  unfoldable pub commit : Text → Text → ℕ → Answer
  commit path content mode =
      let (updated, occs) =
        replace_occurrences content req.old_string req.new_string req.replace_all in
      if w.cancelled
      then (none, failed interrupted)
      else if not w.writes
      then (some (path, updated, mode), failed not_written)
      else (
        some (path, updated, mode),
        ok (record { path = path; replacements = length occs % 2 ^ 32; occurrences = occs }),
      )

  unfoldable pub edit_content : Text → Outcome (Text × ℕ) → Answer
  unfolding commit no_match_hint occurrence_lines
  edit_content path (failed e) = (none, failed e)
  edit_content path (ok (content, mode)) =
      let count = count_of req.old_string content in
      if count == 0
      then (none, failed (no_match (no_match_hint content req.old_string)))
      else if ltb 1 count && not req.replace_all
      then (none, failed (ambiguous count (occurrence_lines content req.old_string 5)))
      else if not (check_new_line_endings content req.new_string)
      then (none, failed mixed_endings)
      else if not (
          check_result_size max_edit_bytes (length content) count req.old_string req.new_string
            req.replace_all)
      then (none, failed result_too_large)
      else commit path content mode

  unfoldable pub edit_target : (Text → Bool) → Option Text → Answer
  unfolding edit_content
  edit_target utf8_valid none = (none, failed bad_target)
  edit_target utf8_valid (some path) =
      if not w.locked
      then (none, failed interrupted)
      else edit_content path (load_for_edit utf8_valid max_edit_bytes (w.file path))

  unfoldable pub edit_resolved : (Text → Bool) → Option Text → Answer
  unfolding edit_target
  edit_resolved utf8_valid none = (none, failed unresolved)
  edit_resolved utf8_valid (some path) = edit_target utf8_valid (w.write_target path)

  unfoldable pub edit_file : (Text → Bool) → Answer
  unfolding edit_resolved
  edit_file utf8_valid =
      if eq_text req.old_string []
      then (none, failed old_required)
      else if eq_text req.old_string req.new_string
      then (none, failed identical)
      else edit_resolved utf8_valid (w.resolve_path req.path)
