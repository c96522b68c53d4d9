-- ===== src/Process/LogBuffer/Split.antt =====
-- splitLine loses nothing, and every piece but the last has the full length.
use f1337_mcp.Prelude.{
  ℕ, zero, suc, ◌≤◌, ◌<◌, ◌≡◌, inl, inr, List, [], ◌∷◌, ◌++◌, append-nil, arith, leb, Bool-cases,
  length, take, drop, length-take, length-drop, take-append-drop, Text,
}
use f1337_mcp.Process.LogBuffer.{split_at, split_line, max_line_bytes}

abbrev pub join : List Text → Text
join [] = []
join (p ∷ ps) = p ++ join ps

-- Every piece but the last has exactly `limit` bytes, and the last at most as many.
abbrev pub AllFull : ℕ → List Text → Type 0
AllFull limit [] = ⊥
AllFull limit (p ∷ []) = length p ≤ limit
AllFull limit (p ∷ q ∷ ps) = (length p ≡ limit) × AllFull limit (q ∷ ps)

split_at-join : (limit fuel : ℕ) (text : Text) → join (split_at limit fuel text) ≡ text
unfolding split_at
split_at-join limit zero text = append-nil text
split_at-join limit (suc fuel) text = elim (Bool-cases (leb (length text) limit)) [
  | inl short ↦ rw short (append-nil text)
  | inr long ↦
      rw long (rw (split_at-join limit fuel (drop limit text)) (take-append-drop limit text))
]

AllFull-cons :
    (limit : ℕ) (p : Text) (ps : List Text)
    → length p ≡ limit
    → AllFull limit ps
    → AllFull limit (p ∷ ps)
AllFull-cons limit p [] h f = absurd f
AllFull-cons limit p (q ∷ ps) h f = (h, f)

split_at-AllFull :
    (limit fuel : ℕ) (text : Text)
    → 0 < limit
    → length text ≤ fuel
    → AllFull limit (split_at limit fuel text)
unfolding split_at
split_at-AllFull limit zero text h f = omega arith
split_at-AllFull limit (suc fuel) text h f = elim (Bool-cases (leb (length text) limit)) [
  | inl short ↦ rw short (ground (arith, short))
  | inr long ↦ rw long (
      AllFull-cons limit (take limit text) (split_at limit fuel (drop limit text))
        (ground (arith, length-take limit text))
        (split_at-AllFull limit fuel (drop limit text) h (ground (arith, length-drop limit text))))
]

-- The pieces of a line put together are the line, every piece but the last has the full 16 KiB, and
-- the last has no more.
pub split_line_pieces :
    (text : Text) → (join (split_line text) ≡ text) × AllFull max_line_bytes (split_line text)
unfolding split_line
split_line_pieces text = (
  split_at-join max_line_bytes (length text) text,
  split_at-AllFull max_line_bytes (length text) text (omega arith) (omega arith),
)
