-- ===== src/Files/Edit/Written.antt =====
-- What `EditFile` of internal/agent/fs/edit.go writes.
use mathlib.Core.Bool.{false≢true}
use f1337_mcp.Prelude.{
  ℕ, zero, suc, ◌+◌, ◌≤◌, ◌<◌, ◌≡◌, refl, sym, ap, ◌⊎◌, inl, inr, Bool, true, false, not, ◌&&◌,
  Option, none, some, [], ◌∷◌, arith, ltb, ◌==◌, ltb→lt, lt→ltb, Bool-cases, length, take,
  length-take, Text, eq_text,
}
use f1337_mcp.Files.Edit.{count_of, replace_occurrences, check_result_size, check_new_line_endings}
use f1337_mcp.Files.Edit.Sizes.{check_result_size_sound}
use f1337_mcp.Files.Edit.Handler.{
  EditError, Outcome, File, load_read, load_stat, load_for_edit, EditRequest, Surroundings, Write,
  Answer, commit, edit_content, edit_target, edit_resolved, edit_file,
}

pub take_all : (n : ℕ) (s : Text) → length s ≤ n → take n s ≡ s
take_all zero [] h = refl
take_all (suc n) [] h = refl
take_all zero (c ∷ s) h = absurd (omega (arith, h))
take_all (suc n) (c ∷ s) h = ap (λ r. c ∷ r) (take_all n s (omega (arith, h)))

load_read_sound :
    (utf8_valid : Text → Bool) (max_edit_bytes mode : ℕ) (bytes : Option Text) (content : Text)
    (m : ℕ)
    → load_read utf8_valid max_edit_bytes mode bytes ≡ Outcome.ok (content, m)
    → (bytes ≡ some content)
      × (length content ≤ max_edit_bytes)
      × (utf8_valid content ≡ true)
      × (mode ≡ m)
unfolding load_read
load_read_sound utf8_valid max_edit_bytes mode none content m h = cc
load_read_sound utf8_valid max_edit_bytes mode (some bytes) content m h =
    elim (Bool-cases (ltb max_edit_bytes (length bytes))) [
      | inl long ↦
          let big : ltb max_edit_bytes (length (take (max_edit_bytes + 1) bytes)) ≡ true =
            lt→ltb _ _ (
              omega (
                arith,
                length-take (max_edit_bytes + 1) bytes,
                ltb→lt max_edit_bytes (length bytes) long,
              )) in
          cc (rw big at h)
      | inr short ↦
          let whole = take_all (max_edit_bytes + 1) bytes (ground (arith, short)) in
          let h' = rw whole at h in ground (arith, short, h')
    ]

load_stat_sound :
    (utf8_valid : Text → Bool) (max_edit_bytes : ℕ) (f : File) (d : Option Bool) (content : Text)
    (mode : ℕ)
    → load_stat utf8_valid max_edit_bytes f d ≡ Outcome.ok (content, mode)
    → (f.bytes ≡ some content)
      × (length content ≤ max_edit_bytes)
      × (utf8_valid content ≡ true)
      × (f.mode ≡ mode)
unfolding load_stat
load_stat_sound utf8_valid max_edit_bytes f none content mode h = cc
load_stat_sound utf8_valid max_edit_bytes f (some true) content mode h = cc
load_stat_sound utf8_valid max_edit_bytes f (some false) content mode h =
    elim (Bool-cases (ltb max_edit_bytes f.size)) [
      | inl e ↦ cc (rw e at h)
      | inr e ↦ load_read_sound utf8_valid max_edit_bytes f.mode f.bytes content mode (rw e at h)
    ]

-- What is loaded for an edit is the whole file, within the limit and valid UTF-8, with the
-- mode of the file.
pub load_for_edit_sound :
    (utf8_valid : Text → Bool) (max_edit_bytes : ℕ) (f : File) (content : Text) (mode : ℕ)
    → load_for_edit utf8_valid max_edit_bytes f ≡ Outcome.ok (content, mode)
    → (f.bytes ≡ some content)
      × (length content ≤ max_edit_bytes)
      × (utf8_valid content ≡ true)
      × (f.mode ≡ mode)
unfolding load_for_edit
load_for_edit_sound utf8_valid max_edit_bytes f content mode h = elim (Bool-cases f.is_irregular) [
  | inl e ↦ cc (rw (load_for_edit, e) at h)
  | inr e ↦ elim (Bool-cases f.opens) [
    | inl o ↦
        load_stat_sound utf8_valid max_edit_bytes f f.is_dir content mode
          (rw (load_for_edit, e, o) at h)
    | inr o ↦ cc (rw (load_for_edit, e, o) at h)
  ]
]

single :
    (every : Bool) (n : ℕ)
    → (n == 0) ≡ false
    → (ltb 1 n && not every) ≡ false
    → (every ≡ true) ⊎ (n ≡ 1)
single true n h e = inl refl
single false n h e = inr (ground (arith, h, e))

solid : (s : Text) → eq_text s [] ≡ false → 0 < length s
unfolding eq_text
solid [] h = absurd (false≢true (sym h))
solid (c ∷ s) h = omega arith

module _ (max_edit_bytes : ℕ) (w : Surroundings) (req : EditRequest)
    (utf8_valid : Text → Bool) where
  -- The path that the request resolves to.
  abbrev pub Aimed : Text → Type 0
  Aimed path =
      (resolved : Text) × (w.resolve_path req.path ≡ some resolved)
      × (w.write_target resolved ≡ some path)

  -- The write is the replacement in what was loaded, within the limit.
  abbrev pub Faithful : Write → Type 0
  Faithful (path, updated, mode) =
      (content : Text) × (load_for_edit utf8_valid max_edit_bytes (w.file path)
        ≡ Outcome.ok (content, mode))
      × (updated ≡ (replace_occurrences content req.old_string req.new_string req.replace_all).0)
      × (length updated ≤ max_edit_bytes)
      × (check_new_line_endings content req.new_string ≡ true)
      × ((req.replace_all ≡ true) ⊎ (count_of req.old_string content ≡ 1))
      × Aimed path

  abbrev pub Sound : Answer → Type 0
  Sound (none, Outcome.ok r) = ⊥
  Sound (none, Outcome.failed e) = Unit
  Sound (some p, Outcome.ok r) = Faithful p × (r.path ≡ p.0)
  Sound (some p, Outcome.failed e) = Faithful p × (e ≡ EditError.not_written)

  commit-Sound :
      (path content : Text) (mode : ℕ)
      → Faithful (
        path,
        (replace_occurrences content req.old_string req.new_string req.replace_all).0,
        mode,
      )
      → Sound (commit max_edit_bytes w req path content mode)
  unfolding commit
  commit-Sound path content mode f = elim (Bool-cases w.cancelled) [
    | inl e ↦ rw e tt
    | inr e ↦ elim (Bool-cases w.writes) [
      | inl k ↦ rw (e, k) (f, refl)
      | inr k ↦ rw (e, k) (f, refl)
    ]
  ]

  edit_content-Sound :
      (path : Text) (o : Outcome (Text × ℕ))
      → load_for_edit utf8_valid max_edit_bytes (w.file path) ≡ o
      → Aimed path
      → 0 < length req.old_string
      → Sound (edit_content max_edit_bytes w req path o)
  unfolding edit_content
  edit_content-Sound path (Outcome.failed e) h aim solid = tt
  edit_content-Sound path (Outcome.ok (content, mode)) h aim solid =
      elim (Bool-cases (count_of req.old_string content == 0)) [
        | inl e ↦ rw e tt
        | inr e ↦
            elim (Bool-cases (ltb 1 (count_of req.old_string content) && not req.replace_all)) [
              | inl a ↦ rw (e, a) tt
              | inr a ↦ elim (Bool-cases (check_new_line_endings content req.new_string)) [
                | inr m ↦ rw (e, a, m) tt
                | inl m ↦
                    elim (Bool-cases (
                      check_result_size max_edit_bytes (length content)
                        (count_of req.old_string content) req.old_string req.new_string
                        req.replace_all)) [
                          | inr s ↦ rw (e, a, m, s) tt
                          | inl s ↦
                              rw (e, a, m, s)
                                (commit-Sound path content mode (
                                  content,
                                  h,
                                  refl,
                                  check_result_size_sound max_edit_bytes content req.old_string
                                      req.new_string req.replace_all solid (ground (arith, e)) s,
                                  m,
                                  single req.replace_all (count_of req.old_string content) e a,
                                  aim,
                                ))
                        ]
              ]
            ]
      ]

  edit_target-Sound :
      (resolved : Text) (target : Option Text)
      → w.resolve_path req.path ≡ some resolved
      → w.write_target resolved ≡ target
      → 0 < length req.old_string
      → Sound (edit_target max_edit_bytes w req utf8_valid target)
  unfolding edit_target
  edit_target-Sound resolved none p q solid = tt
  edit_target-Sound resolved (some path) p q solid = elim (Bool-cases w.locked) [
    | inr e ↦ rw e tt
    | inl e ↦ rw e (
        edit_content-Sound path (load_for_edit utf8_valid max_edit_bytes (w.file path)) refl
          (resolved, p, q) solid)
  ]

  edit_resolved-Sound :
      (r : Option Text)
      → w.resolve_path req.path ≡ r
      → 0 < length req.old_string
      → Sound (edit_resolved max_edit_bytes w req utf8_valid r)
  unfolding edit_resolved
  edit_resolved-Sound none p solid = tt
  edit_resolved-Sound (some path) p solid =
      edit_target-Sound path (w.write_target path) p refl solid

  -- An edit writes at most once, to the target that its path resolves to: the loaded contents
  -- with the replacement made, within the size limit, accepted by the line-ending check and,
  -- unless every occurrence was asked for, with exactly one to replace. It answers with success
  -- just if that write was made.
  pub edit_file-Sound : Sound (edit_file max_edit_bytes w req utf8_valid)
  unfolding edit_file
  edit_file-Sound = elim (Bool-cases (eq_text req.old_string [])) [
    | inl e ↦ rw e tt
    | inr e ↦ elim (Bool-cases (eq_text req.old_string req.new_string)) [
      | inl s ↦ rw (e, s) tt
      | inr s ↦
          rw (e, s) (edit_resolved-Sound (w.resolve_path req.path) refl (solid req.old_string e))
    ]
  ]
