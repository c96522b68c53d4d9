-- ===== src/Files/Edit/Hints.antt =====
-- What internal/agent/fs/edit.go tells about a text that was not found, or was found too often.
use mathlib.Core.Option.{some-injective}
use f1337_mcp.Prelude.{
  some≢none, ℕ, zero, suc, ◌+◌, ◌≤◌, ◌<◌, ◌≡◌, refl, sym, ◌∙◌, inl, inr, Bool, true, false, not,
  ◌&&◌, Option, none, some, List, [], ◌∷◌, ◌++◌, map, arith, ◌==◌, if◌then◌else◌, Bool-cases,
  Option-cases, length, take, drop, Text, eq_text, is_space, contains_byte,
}
use f1337_mcp.Files.Edit.{index, occurs}
use f1337_mcp.Files.Pattern.{split_on, onto_first}

-- strings.ReplaceAll(s, "\r\n", "\n")
unfoldable pub to_lf : Text → Text
to_lf [] = []
to_lf (c ∷ []) = c ∷ []
to_lf (c ∷ d ∷ s) = let rest = to_lf (d ∷ s) in if (c == 13) && (d == 10) then rest else c ∷ rest

-- strings.ReplaceAll(toLF(s), "\n", "\r\n")
unfoldable pub add_cr : Text → Text
add_cr [] = []
add_cr (c ∷ s) = let rest = add_cr s in if c == 10 then 13 ∷ 10 ∷ rest else c ∷ rest

unfoldable pub to_crlf : Text → Text
unfolding add_cr
to_crlf s = add_cr (to_lf s)

-- Why a text is not found.
pub data Hint : Type 0 where
  crlf_ending : Hint
  lf_ending : Hint
  whitespace_at : ℕ → Hint
  absent_text : Hint

-- `lineEndingMismatch`
unfoldable pub line_ending_mismatch : Text → Text → Option Hint
unfolding to_lf to_crlf
line_ending_mismatch content old =
    if not (contains_byte 10 old)
    then none
    else if occurs (to_crlf old) content
    then some crlf_ending
    else if occurs (to_lf old) content
    then some lf_ending
    else none

-- strings.Count of a byte
unfoldable pub count_byte : ℕ → Text → ℕ
count_byte b [] = 0
count_byte b (c ∷ s) = let rest = count_byte b s in if c == b then 1 + rest else rest

-- One line of `normalizeWhitespace`, of ASCII: strings.Fields joined by a space, with whether a field has been written and
-- whether space stands before what follows.
unfoldable pub join_fields : Bool → Bool → Text → Text
join_fields begun gap [] = []
join_fields begun gap (c ∷ s) =
    let skip = join_fields begun true s in
    let more = join_fields true false s in
    if is_space c then skip else if begun && gap then 32 ∷ c ∷ more else c ∷ more

-- strings.Join with LF
unfoldable pub join_lines : List Text → Text
join_lines [] = []
join_lines (l ∷ []) = l
join_lines (l ∷ m ∷ ls) = l ++ 10 ∷ join_lines (m ∷ ls)

unfoldable pub normalize_whitespace : Text → Text
unfolding to_lf join_fields join_lines
normalize_whitespace s = join_lines (map (join_fields false false) (split_on 10 (to_lf s)))

-- `whitespaceNearMiss`: the line of the first match without regard to space.
unfoldable pub whitespace_near_miss : Text → Text → Option ℕ
unfolding normalize_whitespace count_byte
whitespace_near_miss content old =
    if eq_text (normalize_whitespace old) []
    then none
    else elim (index (normalize_whitespace old) (normalize_whitespace content)) [
      | none ↦ none
      | some j ↦ some (count_byte 10 (take j (normalize_whitespace content)) + 1)
    ]

-- `noMatchError`
unfoldable pub no_match_hint : Text → Text → Hint
unfolding line_ending_mismatch whitespace_near_miss
no_match_hint content old = elim (line_ending_mismatch content old) [
  | some h ↦ h
  | none ↦ elim (whitespace_near_miss content old) [
    | some line ↦ whitespace_at line
    | none ↦ absent_text
  ]
]

-- The loop of `occurrenceLines` from byte `i` on, with the lines that may still be added.
unfoldable pub lines_of : ℕ → Text → Text → ℕ → List ℕ
unfolding count_byte
lines_of zero content old i = []
lines_of (suc n) content old i = elim (index old (drop i content)) [
  | none ↦ []
  | some j ↦
      (count_byte 10 (take (i + j) content) + 1) ∷ lines_of n content old (i + j + length old)
]

unfoldable pub occurrence_lines : Text → Text → ℕ → List ℕ
unfolding lines_of
occurrence_lines content old limit = lines_of limit content old 0

count_byte-take : (b k : ℕ) (s : Text) → count_byte b (take k s) ≤ count_byte b s
unfolding count_byte
count_byte-take b zero s = omega arith
count_byte-take b (suc k) [] = omega arith
count_byte-take b (suc k) (c ∷ s) = ground (arith, count_byte-take b k s)

pub count_byte-append :
    (b : ℕ) (s t : Text) → count_byte b (s ++ t) ≡ count_byte b s + count_byte b t
unfolding count_byte
count_byte-append b [] t = omega arith
count_byte-append b (c ∷ s) t = ground (arith, count_byte-append b s t)

count_byte-to_lf : (s : Text) → count_byte 10 (to_lf s) ≡ count_byte 10 s
unfolding count_byte to_lf
count_byte-to_lf [] = refl
count_byte-to_lf (c ∷ []) = refl
count_byte-to_lf (c ∷ d ∷ s) = ground (arith, count_byte-to_lf (d ∷ s))

count_byte-join_fields : (begun gap : Bool) (s : Text) → count_byte 10 (join_fields begun gap s) ≡ 0
unfolding count_byte join_fields
count_byte-join_fields begun gap [] = refl
count_byte-join_fields begun gap (c ∷ s) =
    ground (arith, count_byte-join_fields begun true s, count_byte-join_fields true false s)

line_break : (s : Text) → count_byte 10 (10 ∷ s) ≡ 1 + count_byte 10 s
unfolding count_byte
line_break s = refl

count_byte-join_lines :
    (ls : List Text)
    → 0 < length ls
    → count_byte 10 (join_lines (map (join_fields false false) ls)) + 1 ≡ length ls
unfolding join_lines
count_byte-join_lines [] h = absurd (omega (arith, h))
count_byte-join_lines (l ∷ []) h = omega (arith, count_byte-join_fields false false l)
count_byte-join_lines (l ∷ m ∷ ls) h =
    let rest = join_lines (map (join_fields false false) (m ∷ ls)) in
    omega (
      arith,
      count_byte-append 10 (join_fields false false l) (10 ∷ rest),
      count_byte-join_fields false false l,
      line_break rest,
      count_byte-join_lines (m ∷ ls) (omega arith),
    )

length-onto_first : (c : ℕ) (ls : List Text) → 0 < length ls → length (onto_first c ls) ≡ length ls
length-onto_first c [] h = absurd (omega (arith, h))
length-onto_first c (l ∷ ls) h = refl

length-split_on : (b : ℕ) (s : Text) → length (split_on b s) ≡ count_byte b s + 1
unfolding split_on count_byte
length-split_on b [] = refl
length-split_on b (c ∷ s) = elim (Bool-cases (c == b)) [
  | inl e ↦ rw e (omega (arith, length-split_on b s))
  | inr e ↦ rw e (
      length-onto_first c (split_on b s) (omega (arith, length-split_on b s)) ∙ length-split_on b s)
]

-- Without its space a text has as many lines.
pub normalize_whitespace-lines :
    (s : Text) → count_byte 10 (normalize_whitespace s) ≡ count_byte 10 s
unfolding normalize_whitespace
normalize_whitespace-lines s = omega (
  arith,
  count_byte-join_lines (split_on 10 (to_lf s)) (omega (arith, length-split_on 10 (to_lf s))),
  length-split_on 10 (to_lf s),
  count_byte-to_lf s,
)

-- The line that is named is a line of the contents.
pub whitespace_near_miss_bounds :
    (content old : Text) (line : ℕ)
    → whitespace_near_miss content old ≡ some line
    → (1 ≤ line) × (line ≤ count_byte 10 content + 1)
unfolding whitespace_near_miss
whitespace_near_miss_bounds content old line h =
    elim (Bool-cases (eq_text (normalize_whitespace old) [])) [
      | inl e ↦ absurd (some≢none line (sym (rw e at h)))
      | inr e ↦
          elim (Option-cases (index (normalize_whitespace old) (normalize_whitespace content))) [
            | inl k ↦ absurd (some≢none line (sym (rw (e, k) at h)))
            | inr (j, k) ↦
                let same =
                  some-injective (count_byte 10 (take j (normalize_whitespace content)) + 1) line
                    (rw (e, k) at h) in
                (
                  omega (arith, same),
                  omega (
                    arith,
                    same,
                    count_byte-take 10 j (normalize_whitespace content),
                    normalize_whitespace-lines content,
                  ),
                )
          ]
    ]
