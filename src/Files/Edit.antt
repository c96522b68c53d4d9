-- ===== src/Files/Edit.antt =====
-- internal/agent/fs/edit.go: the replacement of an exact string. Contents are lists of bytes; `index` and
-- `count_of` are strings.Index and strings.Count.
pub mod Search
pub mod Replaces
pub mod Sizes
pub mod Endings
pub mod Hints
pub mod Handler
pub mod Written
use f1337_mcp.Prelude.{
  ℕ, zero, suc, ◌+◌, ◌-◌, ◌*◌, ◌/◌, ◌%◌, ◌^◌, ◌≤◌, ◌<◌, ◌≡◌, refl, sym, ap, ◌∙◌, ◌≢◌, ◌↔◌, ◌⊎◌, inl,
  inr, Bool, true, false, not, ◌&&◌, ◌||◌, Option, none, some, List, [], ◌∷◌, ◌++◌, map,
  append_assoc, append-nil, arith, ltb, leb, ◌==◌, if◌then◌else◌, ltb→lt, lt→ltb, ==_iff,
  Bool-cases, Option-cases, is_some, length, get_elem?, get_or, set, take, drop, replicate, any,
  all, All, length-append, length-set, length-replicate, length-take, length-drop, take-append-drop,
  get_or-set_self, get_or-set_ne, Text, codes, eq_text, eq_text_iff, eq_text_refl, has_prefix,
  is_space, trim_left, trim_space, contains_byte, lower_byte,
}

abbrev pub shifted : Option ℕ → Option ℕ
shifted none = none
shifted (some j) = some (suc j)

-- strings.Index
unfoldable pub index : Text → Text → Option ℕ
index sub [] = if eq_text sub [] then some 0 else none
index sub (c ∷ s) =
    let rest = shifted (index sub s) in if has_prefix (c ∷ s) sub then some 0 else rest

-- strings.Contains
abbrev pub occurs : Text → Text → Bool
occurs sub s = is_some (index sub s)

-- `s[from:to]`
abbrev pub slice : Text → ℕ → ℕ → Text
slice s from to = take (to - from) (drop from s)

pub record Occurrence : Type 0 where
  pub old_start : ℕ
  pub old_end : ℕ
  pub new_start : ℕ
  pub new_end : ℕ

-- strings.Count of a string that is not empty, on fuel: the bytes of the text and one more.
unfoldable pub count_from : ℕ → Text → Text → ℕ
count_from zero sub s = 0
count_from (suc n) sub s = elim (index sub s) [
  | none ↦ 0
  | some j ↦ 1 + count_from n sub (drop (j + length sub) s)
]

unfoldable pub count_of : Text → Text → ℕ
unfolding count_from
count_of sub s = count_from (length s + 1) sub s

module _ (content old new : Text) (every : Bool) where
  -- The loop of `replaceOccurrences` with its variables `i`, `last`, `out` and `occs`, on fuel.
  unfoldable pub replace_from : ℕ → ℕ → ℕ → Text → List Occurrence → Text × List Occurrence
  replace_from zero i last out occs = (out ++ drop last content, occs)
  replace_from (suc n) i last out occs = elim (index old (drop i content)) [
    | none ↦ (out ++ drop last content, occs)
    | some j ↦
        let at' = i + j in
        let copied = out ++ slice content last at' in
        let written = copied ++ new in
        let occs' =
          occs
          ++ record {
            old_start = at';
            old_end = at' + length old;
            new_start = length copied;
            new_end = length written;
          }
            ∷ [] in
        let next = at' + length old in
        if not every
        then (written ++ drop next content, occs')
        else replace_from n next next written occs'
  ]

  unfoldable pub replace_occurrences : Text × List Occurrence
  unfolding replace_from
  replace_occurrences = replace_from (length content + 1) 0 0 [] []

-- `checkResultSize`: whether the result of `replacing` replacements is within the limit; the difference of the
-- lengths may be negative.
unfoldable pub check_result_size : ℕ → ℕ → ℕ → Text → Text → Bool → Bool
check_result_size max_edit_bytes content_len count old new every =
    let replacing = if every then count else 1 in
    leb (content_len + replacing * length new) (max_edit_bytes + replacing * length old)

-- `countLineEndings`: CRLF and bare LF, after a byte that was CR or not.
unfoldable pub count_endings : Bool → Text → ℕ × ℕ
count_endings cr [] = (0, 0)
count_endings cr (c ∷ s) =
    let (crlf, lf) = count_endings (c == 13) s in
    if not (c == 10) then (crlf, lf) else if cr then (crlf + 1, lf) else (crlf, lf + 1)

unfoldable pub count_line_endings : Text → ℕ × ℕ
unfolding count_endings
count_line_endings s = count_endings false s

-- `checkNewLineEndings`
unfoldable pub check_new_line_endings : Text → Text → Bool
unfolding count_line_endings
check_new_line_endings content new =
    if not (contains_byte 10 new)
    then true
    else let (crlf, lf) = count_line_endings content in
      let (new_crlf, new_lf) = count_line_endings new in
      if ltb 0 crlf && (lf == 0) && ltb 0 new_lf
      then false
      else not (ltb 0 lf && (crlf == 0) && ltb 0 new_crlf)
