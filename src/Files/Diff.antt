-- ===== src/Files/Diff.antt =====
-- internal/agent/fs/diff.go: the lines of a text, the groups of replacements that share a hunk, and the caps on what
-- is shown.
use mathlib.Core.Path.{subst}
use Prim.Native.Nat.{min, max}
use f1337_mcp.Prelude.{
  ℕ, ◌+◌, ◌-◌, ◌*◌, ◌/◌, ◌≤◌, ◌<◌, ◌≡◌, refl, inl, inr, Bool, true, false, Option, none, some, List,
  [], ◌∷◌, ◌++◌, arith, ltb, leb, ◌==◌, if◌then◌else◌, ltb→lt, Bool-cases, length, Text,
}
use f1337_mcp.Files.Edit.{Occurrence}
use f1337_mcp.Policy.Limits.{ℤ, pos, negsuc}

pub record Span : Type 0 where
  pub start : ℕ
  pub stop : ℕ

-- The loop of `lineSpans` at byte `i`, with the start of the line.
unfoldable pub spans_from : ℕ → ℕ → Text → List Span
spans_from start i [] = if ltb start i then record { start = start; stop = i } ∷ [] else []
spans_from start i (c ∷ s) =
    let cut = spans_from (i + 1) (i + 1) s in
    let on = spans_from start (i + 1) s in
    if c == 10 then record { start = start; stop = i + 1 } ∷ cut else on

or_empty : List Span → List Span
or_empty [] = record { start = 0; stop = 0 } ∷ []
or_empty (l ∷ ls) = l ∷ ls

unfoldable pub line_spans : Text → List Span
unfolding spans_from or_empty
line_spans b = or_empty (spans_from 0 0 b)

-- sort.Search for the first line that ends behind the offset, or their number.
unfoldable pub search_line : List Span → ℕ → ℕ
search_line [] off = 0
search_line (l ∷ ls) off = let rest = search_line ls off in if ltb off l.stop then 0 else 1 + rest

unfoldable pub line_of_offset : List Span → ℕ → ℕ
unfolding search_line
line_of_offset spans off =
    if leb (length spans) (search_line spans off) then length spans - 1 else search_line spans off

abbrev pub diff_context_lines : ℕ
diff_context_lines = 3

abbrev pub diff_max_body_lines : ℕ
diff_max_body_lines = 160

abbrev pub diff_max_line_bytes : ℕ
diff_max_line_bytes = 512

-- `a - b` of ints
unfoldable pub minus : ℕ → ℕ → ℤ
minus a b = if leb b a then pos (a - b) else negsuc (b - a - 1)

pub record ChangeGroup : Type 0 where
  pub first_line : ℕ
  pub last_line : ℕ
  pub drift_before : ℤ
  pub drift_after : ℤ
  pub first_old_start : ℕ
  pub first_new_start : ℕ

unfoldable pub new_group : List Span → Occurrence → ChangeGroup
unfolding line_of_offset minus
new_group lines o = record {
  first_line = line_of_offset lines o.old_start;
  last_line = line_of_offset lines (max (o.old_end - 1) o.old_start);
  drift_before = minus o.new_start o.old_start;
  drift_after = minus o.new_end o.old_end;
  first_old_start = o.old_start;
  first_new_start = o.new_start;
}

-- The loop of `groupOccurrences` with the last group so far.
unfoldable pub group_from : List Span → ChangeGroup → List Occurrence → List ChangeGroup
unfolding new_group
group_from lines g [] = g ∷ []
group_from lines g (o ∷ os) =
    let n = new_group lines o in
    let joins =
      group_from lines
        (record g { last_line = max g.last_line n.last_line; drift_after = n.drift_after }) os in
    let opens = group_from lines n os in
    if leb n.first_line (g.last_line + 2 * diff_context_lines + 1) then joins else g ∷ opens

unfoldable pub group_occurrences : List Span → List Occurrence → List ChangeGroup
unfolding group_from
group_occurrences lines [] = []
group_occurrences lines (o ∷ os) = group_from lines (new_group lines o) os

-- `writeDiffLine`: whether the cap was reached, and the lines so far.
unfoldable pub write_diff_line : Text → Text → Text × ℕ → Bool × Text × ℕ
write_diff_line prefix line (out, body) =
    if leb diff_max_body_lines body
    then (true, out, body)
    else (false, out ++ prefix ++ line ++ 10 ∷ [], body + 1)

-- The part of a line that `elideLongLine` keeps, around a change or from its start.
unfoldable pub kept_window : ℕ → Option ℕ → ℕ × ℕ
kept_window size focus =
    let half = diff_max_line_bytes / 2 in
    let at' : ℕ = elim focus [ none ↦ half | some f ↦ f ] in
    let start = min (at' - half) (size - diff_max_line_bytes) in
    if leb size diff_max_line_bytes then (0, size) else (start, start + diff_max_line_bytes)

-- Lines that follow one another from one byte to another, none of them empty.
pub data Tiles : ℕ → ℕ → List Span → Type 0 where
  nothing : (n : ℕ) → Tiles n n []
  line :
      (start stop end : ℕ) (ls : List Span)
      → start < stop
      → Tiles stop end ls
      → Tiles start end (record { start = start; stop = stop } ∷ ls)

spans_from-Tiles :
    (start i end : ℕ) (s : Text)
    → start ≤ i
    → i + length s ≡ end
    → Tiles start end (spans_from start i s)
unfolding spans_from
spans_from-Tiles start i end [] h e = elim (Bool-cases (ltb start i)) [
  | inl k ↦
      let here : i ≡ end = omega (arith, e) in
      rw k (
        Tiles.line start i end [] (ltb→lt start i k)
          (subst (λ n. Tiles i n []) here (Tiles.nothing i)))
  | inr k ↦
      let here : start ≡ end = ground (arith, e, h, k) in
      rw k (subst (λ n. Tiles start n []) here (Tiles.nothing start))
]
spans_from-Tiles start i end (c ∷ s) h e = elim (Bool-cases (c == 10)) [
  | inl k ↦ rw k (
      Tiles.line start (i + 1) end (spans_from (i + 1) (i + 1) s) (omega (arith, h))
        (spans_from-Tiles (i + 1) (i + 1) end s (omega arith) (omega (arith, e))))
  | inr k ↦ rw k (spans_from-Tiles start (i + 1) end s (omega (arith, h)) (omega (arith, e)))
]

Tiles-nil : (a b : ℕ) (ls : List Span) → Tiles a b ls → ls ≡ [] → a ≡ b
Tiles-nil _ _ _ (Tiles.nothing n) h = refl
Tiles-nil _ _ _ (Tiles.line start stop end ls lt rest) h = cc

or_empty-Tiles : (n : ℕ) (ls : List Span) → 0 < n → Tiles 0 n ls → Tiles 0 n (or_empty ls)
unfolding or_empty
or_empty-Tiles n (l ∷ ls) h t = t
or_empty-Tiles n [] h t = absurd (omega (arith, h, Tiles-nil 0 n [] t refl))

-- The lines of a text that is not empty make it up.
pub line_spans-Tiles : (b : Text) → 0 < length b → Tiles 0 (length b) (line_spans b)
unfolding line_spans
line_spans-Tiles b h =
    or_empty-Tiles (length b) (spans_from 0 0 b) h
      (spans_from-Tiles 0 0 (length b) b (omega arith) (omega arith))

-- Groups whose hunks, with their context, do not touch.
abbrev pub Separate : List ChangeGroup → Type 0
Separate [] = Unit
Separate (g ∷ []) = Unit
Separate (g ∷ h ∷ gs) =
    (g.last_line + 2 * diff_context_lines + 1 < h.first_line) × Separate (h ∷ gs)

group_from-Separate :
    (lines : List Span) (before : ChangeGroup) (g : ChangeGroup) (os : List Occurrence)
    → before.last_line + 2 * diff_context_lines + 1 < g.first_line
    → Separate (before ∷ group_from lines g os)
unfolding group_from
group_from-Separate lines before g [] h = (h, tt)
group_from-Separate lines before g (o ∷ os) h =
    elim (Bool-cases
      (leb (new_group lines o).first_line (g.last_line + 2 * diff_context_lines + 1))) [
        | inl k ↦ rw k (
            group_from-Separate lines before
              (record g {
                last_line = max g.last_line (new_group lines o).last_line;
                drift_after = (new_group lines o).drift_after;
              })
              os h)
        | inr k ↦ rw k (h, group_from-Separate lines g (new_group lines o) os (ground (arith, k)))
      ]

group_from_apart :
    (lines : List Span) (g : ChangeGroup) (os : List Occurrence) → Separate (group_from lines g os)
unfolding group_from
group_from_apart lines g [] = tt
group_from_apart lines g (o ∷ os) =
    elim (Bool-cases
      (leb (new_group lines o).first_line (g.last_line + 2 * diff_context_lines + 1))) [
        | inl k ↦ rw k (
            group_from_apart lines
              (record g {
                last_line = max g.last_line (new_group lines o).last_line;
                drift_after = (new_group lines o).drift_after;
              })
              os)
        | inr k ↦ rw k (group_from-Separate lines g (new_group lines o) os (ground (arith, k)))
      ]

-- Whatever the replacements, the hunks of two groups in a row do not touch.
pub group_occurrences-Separate :
    (lines : List Span) (occs : List Occurrence) → Separate (group_occurrences lines occs)
unfolding group_occurrences
group_occurrences-Separate lines [] = tt
group_occurrences-Separate lines (o ∷ os) = group_from_apart lines (new_group lines o) os

-- What is kept of a line is within it, and within the cap.
pub kept_window_bounds :
    (size : ℕ) (focus : Option ℕ)
    → ((kept_window size focus).1 ≤ size)
      × ((kept_window size focus).1 - (kept_window size focus).0 ≤ diff_max_line_bytes)
unfolding kept_window
kept_window_bounds size none = ground arith
kept_window_bounds size (some f) = ground arith
