-- ===== src/Process/LogBuffer/Ring.antt =====
-- The ring refines the bounded list of the last lines.
use mathlib.Core.Path.{ap₂}
use f1337_mcp.Prelude.{
  ==-false, ℕ, zero, suc, ◌+◌, ◌-◌, ◌%◌, ◌≤◌, ◌<◌, ◌≡◌, refl, sym, ap, ◌∙◌, ◌≢◌, inl, inr, List, [],
  ◌∷◌, ◌++◌, arith, ◌==◌, if◌then◌else◌, ==_iff, Bool-cases, length, get_or, set, drop, length-set,
  get_or-set_self, get_or-set_ne,
}
use native.Mathlib.Nat.{mod-add-mod, add-zero}
use f1337_mcp.Process.LogBuffer.{LogLine, LogBuffer, blank, push_line, lines_from, ring_lines}

-- The abstract log: a line goes to the end, and the oldest leaves at the capacity.
unfoldable pub push_bounded : ℕ → LogLine → List LogLine → List LogLine
push_bounded cap_lines line lines =
    if length lines == cap_lines then drop 1 lines ++ line ∷ [] else lines ++ line ∷ []

pub record IsRing (b : LogBuffer) : Type 0 where
  pub storage : length b.ring ≡ b.cap_lines
  pub head_in : b.head < b.cap_lines
  pub size_in : b.size ≤ b.cap_lines

length-lines_from : (r : List LogLine) (c h i n : ℕ) → length (lines_from r c h i n) ≡ n
unfolding lines_from
length-lines_from r c h i zero = refl
length-lines_from r c h i (suc n) = ap suc (length-lines_from r c h (i + 1) n)

-- Two windows are equal if they read equal lines.
lines_from_shift :
    (r r' : List LogLine) (c h h' n i j : ℕ)
    → ((k : ℕ) → k < n → get_or r' ((h' + (j + k)) % c) blank ≡ get_or r ((h + (i + k)) % c) blank)
    → lines_from r' c h' j n ≡ lines_from r c h i n
unfolding lines_from
lines_from_shift r r' c h h' zero i j e = refl
lines_from_shift r r' c h h' (suc n) i j e = ap₂ ◌∷◌ (simp add-zero at (e 0 (omega arith))) (
    lines_from_shift r r' c h h' n (i + 1) (j + 1)
      (λ k lt. rw (one_on j k) (rw (one_on i k) (e (k + 1) (omega arith)))))
  where
    one_on : (x k : ℕ) → x + 1 + k ≡ x + (k + 1)
    one_on x k = omega arith

lines_from_snoc :
    (r : List LogLine) (c h n i : ℕ)
    → lines_from r c h i (suc n) ≡ lines_from r c h i n ++ get_or r ((h + (i + n)) % c) blank ∷ []
unfolding lines_from
lines_from_snoc r c h zero i = ap (λ k. get_or r ((h + k) % c) blank ∷ []) (omega arith)
lines_from_snoc r c h (suc n) i =
    ap (λ l. get_or r ((h + i) % c) blank ∷ l)
      (lines_from_snoc r c h n (i + 1)
        ∙ ap (λ k. lines_from r c h (i + 1) n ++ get_or r ((h + k) % c) blank ∷ []) (omega arith))

-- Fewer than `c` steps round the ring end elsewhere.
add-mod-ne : (c h k : ℕ) → h < c → 0 < k → k < c → (h + k) % c ≢ h
add-mod-ne c h k hh hk lt = grind arith

ring_ne : (c h k n : ℕ) → h < c → k < n → n < c → (h + n) % c ≢ (h + (0 + k)) % c
ring_ne c h k n hh lt hn = grind arith

full_turn : (c h : ℕ) → h < c → (h + c) % c ≡ h
full_turn c h hh = grind arith

-- A line written behind a ring that is not full is the last of its window.
room_window :
    (r : List LogLine) (c h n : ℕ) (line : LogLine)
    → length r ≡ c
    → h < c
    → n < c
    → lines_from (set r ((h + n) % c) line) c h 0 (suc n) ≡ lines_from r c h 0 n ++ line ∷ []
room_window r c h n line hl hh hn =
    lines_from_snoc (set r ((h + n) % c) line) c h n 0
    ∙ ap₂ (λ a l. a ++ l ∷ [])
        (lines_from_shift r (set r ((h + n) % c) line) c h h n 0 0
          (λ k lt. get_or-set_ne r line blank (ring_ne c h k n hh lt hn)))
        (rw from_zero (get_or-set_self r ((h + n) % c) line blank (omega arith)))
  where
    from_zero : 0 + n ≡ n
    from_zero = omega arith

-- A line written over the oldest of a full ring is the last of the window that begins one further.
full_window :
    (r : List LogLine) (m h : ℕ) (line : LogLine)
    → length r ≡ suc m
    → h < suc m
    → lines_from (set r h line) (suc m) ((h + 1) % suc m) 0 (suc m)
      ≡ drop 1 (lines_from r (suc m) h 0 (suc m)) ++ line ∷ []
unfolding lines_from
full_window r m h line hl hh =
    lines_from_snoc (set r h line) (suc m) ((h + 1) % suc m) m 0
    ∙ ap₂ (λ a l. a ++ l ∷ [])
        (lines_from_shift r (set r h line) (suc m) h ((h + 1) % suc m) m 1 0 (λ k lt.
          rw (turned k) (
            get_or-set_ne r line blank
              (λ e. add-mod-ne (suc m) h (1 + k) hh (omega arith) (omega arith) (sym e)))))
        (rw (turned m) (rw whole (get_or-set_self r h line blank (omega arith))))
  where
    turned : (k : ℕ) → ((h + 1) % suc m + (0 + k)) % suc m ≡ (h + (1 + k)) % suc m
    turned k = rw mod-add-mod (ap (λ x. x % suc m) (omega arith))

    whole : (h + (1 + m)) % suc m ≡ h
    whole = ap (λ x. (h + x) % suc m) (omega arith) ∙ full_turn (suc m) h hh

pub push_line-IsRing : (line : LogLine) (b : LogBuffer) → IsRing b → IsRing (push_line line b)
unfolding push_line
push_line-IsRing line b v = grind (arith, length-set {0})

-- The same for a ring whose capacity is written `suc m`.
full_lines :
    (line : LogLine) (b : LogBuffer)
    → IsRing b
    → b.size ≡ b.cap_lines
    → lines_from (set b.ring b.head line) b.cap_lines ((b.head + 1) % b.cap_lines) 0 b.size
      ≡ drop 1 (lines_from b.ring b.cap_lines b.head 0 b.size) ++ line ∷ []
full_lines line b v e = rw e (
    turn b.cap_lines (b.cap_lines - 1) (omega (arith, v.head_in)) b.ring b.head v.storage v.head_in)
  where
    turn :
        (c m : ℕ)
        → c ≡ suc m
        → (r : List LogLine) (h : ℕ) → length r ≡ c
        → h < c
        → lines_from (set r h line) c ((h + 1) % c) 0 c ≡ drop 1 (lines_from r c h 0 c) ++ line ∷ []
    turn c m p r h hl hh = rw p (full_window r m h line (hl ∙ p) (omega (arith, p, hh)))

pub ring_lines-push_line :
    (line : LogLine) (b : LogBuffer)
    → IsRing b
    → ring_lines (push_line line b) ≡ push_bounded b.cap_lines line (ring_lines b)
unfolding push_line ring_lines push_bounded
ring_lines-push_line line b v = rw length-lines_from (elim (Bool-cases (b.size == b.cap_lines)) [
  | inl e ↦ rw e (full_lines line b v ((==_iff b.size b.cap_lines).0 e))
  | inr e ↦ rw e (
      ap
        (λ n. lines_from (set b.ring ((b.head + b.size) % b.cap_lines) line) b.cap_lines b.head 0 n)
        one_more
      ∙ room_window b.ring b.cap_lines b.head b.size line v.storage v.head_in
          (omega (arith, v.size_in, ==-false b.size b.cap_lines e)))
])
  where
    one_more : b.size + 1 ≡ suc b.size
    one_more = omega arith
