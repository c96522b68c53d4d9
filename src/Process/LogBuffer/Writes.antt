-- ===== src/Process/LogBuffer/Writes.antt =====
-- Every line written to an open buffer, and the last of them that a snapshot shows.
use f1337_mcp.Prelude.{
  ==-false, drop-append, drop-drop, ℕ, suc, ◌+◌, ◌-◌, ◌≤◌, ◌<◌, ◌≡◌, refl, sym, ap, ◌∙◌, ◌≢◌, inl,
  inr, Bool, false, List, [], ◌∷◌, ◌++◌, append_assoc, append-nil, arith, ◌==◌, if◌then◌else◌,
  ==_iff, Bool-cases, length, drop, length-append, length-replicate, length-drop, Text,
}
use mathlib.Core.Path.{ap₂}
use native.Mathlib.Nat.{add-zero, zero-sub}
use f1337_mcp.Process.LogBuffer.{
  lines_from, LogLine, LogBuffer, new_log_buffer, blank, push_line, next_line, count_line, append,
  ring_lines, snapshot,
}
use f1337_mcp.Process.LogBuffer.Ring.{IsRing, push_bounded, ring_lines-push_line, push_line-IsRing}

-- One call of `append`, as its arguments.
pub record Write : Type 0 where
  pub stream : ℕ
  pub text : Text
  pub at : ℕ
  pub cont : Bool

unfoldable pub write_all : List Write → LogBuffer → LogBuffer
write_all [] b = b
write_all (w ∷ ws) b = write_all ws (append w.stream w.text w.at w.cont b)

-- Every line that was ever written, numbered from `n`.
unfoldable pub written : ℕ → List Write → List LogLine
written n [] = []
written n (w ∷ ws) =
    record { seq = n; stream = w.stream; at = w.at; text = w.text; cont = w.cont }
    ∷ written (n + 1) ws

unfoldable pub last_lines : ℕ → List LogLine → List LogLine
last_lines c lines = drop (length lines - c) lines

push_bounded-last_lines :
    (c : ℕ) (line : LogLine) (lines : List LogLine)
    → 0 < c
    → push_bounded c line (last_lines c lines) ≡ last_lines c (lines ++ line ∷ [])
unfolding push_bounded last_lines
push_bounded-last_lines c line lines hc =
    elim (Bool-cases (length (drop (length lines - c) lines) == c)) [
      | inl e ↦
          let full : length lines - (length lines - c) ≡ c =
            sym (length-drop (length lines - c) lines)
            ∙ (==_iff (length (drop (length lines - c) lines)) c).0 e in
          let more : length lines + 1 - c ≡ suc (length lines - c) = omega (arith, full, hc) in
          let kept : suc (length lines - c) ≤ length lines = omega (arith, full, hc) in
          rw e (
            rw length-append (
              rw more (
                ap (λ l. l ++ line ∷ []) (drop-drop (length lines - c) lines)
                ∙ sym (drop-append (suc (length lines - c)) lines (line ∷ []) kept))))
      | inr e ↦
          let short : length lines - (length lines - c) ≢ c = λ p.
            ==-false (length (drop (length lines - c) lines)) c e
              (length-drop (length lines - c) lines ∙ p) in
          let none_gone : length lines - c ≡ 0 = omega (arith, short) in
          let still : length lines + 1 - c ≡ 0 = omega (arith, short) in
          rw e (rw length-append (rw none_gone (rw still refl)))
    ]

-- The buffer is open, at line number `n`, and shows the last `c` of the lines `past`.
pub record Shows (c n : ℕ) (past : List LogLine) (b : LogBuffer) : Type 0 where
  pub ring_in : IsRing b
  pub is_open : b.closed ≡ false
  pub capacity : b.cap_lines ≡ c
  pub number : b.next_seq ≡ n
  pub lines : ring_lines b ≡ last_lines c past

push_line-Shows :
    (c n : ℕ) (past : List LogLine) (line : LogLine) (b : LogBuffer)
    → 0 < c
    → Shows c n past b
    → Shows c n (past ++ line ∷ []) (push_line line b)
unfolding push_line
push_line-Shows c n past line b hc v = record {
  ring_in = push_line-IsRing line b v.ring_in;
  is_open = ground (arith, v.is_open);
  capacity = ground (arith, v.capacity);
  number = ground (arith, v.number);
  lines =
      ring_lines-push_line line b v.ring_in
      ∙ ap₂ (λ k l. push_bounded k line l) v.capacity v.lines
      ∙ push_bounded-last_lines c line past hc;
}

count_line-Shows :
    (c n : ℕ) (past : List LogLine) (line : LogLine) (b : LogBuffer)
    → Shows c n past b
    → Shows c (n + 1) past (count_line line b)
unfolding count_line ring_lines
count_line-Shows c n past line b v = record {
  ring_in = record {
    storage = v.ring_in.storage;
    head_in = v.ring_in.head_in;
    size_in = v.ring_in.size_in;
  };
  is_open = v.is_open;
  capacity = v.capacity;
  number = ap (λ k. k + 1) v.number;
  lines = v.lines;
}

pub append_open :
    (w : Write) (b : LogBuffer)
    → b.closed ≡ false
    → append w.stream w.text w.at w.cont b
      ≡ push_line
          (next_line w.stream w.text w.at w.cont b)
          (count_line (next_line w.stream w.text w.at w.cont b) b)
unfolding append
append_open w b e =
    ap
      (λ t.
        if t
        then b
        else push_line (next_line w.stream w.text w.at w.cont b)
            (count_line (next_line w.stream w.text w.at w.cont b) b))
      e

pub numbered :
    (n : ℕ) (w : Write) (b : LogBuffer)
    → b.next_seq ≡ n
    → next_line w.stream w.text w.at w.cont b
      ≡ record { seq = n; stream = w.stream; at = w.at; text = w.text; cont = w.cont }
unfolding next_line
numbered n w b e =
    ap (λ k. record { seq = k; stream = w.stream; at = w.at; text = w.text; cont = w.cont }) e

append-Shows :
    (c n : ℕ) (past : List LogLine) (w : Write) (b : LogBuffer)
    → 0 < c
    → Shows c n past b
    → Shows c (n + 1) (past ++ written n (w ∷ [])) (append w.stream w.text w.at w.cont b)
unfolding written
append-Shows c n past w b hc v =
    let line : LogLine = next_line w.stream w.text w.at w.cont b in
    let pushed : Shows c (n + 1) (past ++ line ∷ []) (push_line line (count_line line b)) =
      push_line-Shows c (n + 1) past line (count_line line b) hc
        (count_line-Shows c n past line b v) in
    rw (append_open w b v.is_open)
      (rw (numbered n w b v.number) (rw (numbered n w b v.number) at pushed))

one_longer : (n k : ℕ) → n + suc k ≡ n + 1 + k
one_longer n k = omega arith

write_all-Shows :
    (c n : ℕ) (past : List LogLine) (ws : List Write) (b : LogBuffer)
    → 0 < c
    → Shows c n past b
    → Shows c (n + length ws) (past ++ written n ws) (write_all ws b)
unfolding write_all written
write_all-Shows c n past [] b hc v = rw (append-nil past) (rw (add-zero n) v)
write_all-Shows c n past (w ∷ ws) b hc v = rw (one_longer n (length ws)) (
    rw (sym (append_assoc past (written n (w ∷ [])) (written (n + 1) ws))) (
      write_all-Shows c (n + 1) (past ++ written n (w ∷ [])) ws
        (append w.stream w.text w.at w.cont b) hc (append-Shows c n past w b hc v)))

new_log_buffer-Shows :
    (asked : ℕ) → Shows (new_log_buffer asked).cap_lines 0 [] (new_log_buffer asked)
unfolding new_log_buffer ring_lines last_lines lines_from
new_log_buffer-Shows asked = record {
  ring_in = record {
    storage = length-replicate (if asked == 0 then 1 else asked) blank;
    head_in = ground arith;
    size_in = omega arith;
  };
  is_open = refl;
  capacity = refl;
  number = refl;
  lines = rw zero-sub refl;
}

-- Whatever lines are written to a new buffer, a snapshot of it shows the last of them, as many as its
-- capacity, oldest first, each under its own number and none of them changed.
pub snapshot-write_all :
    (asked : ℕ) (ws : List Write)
    → (snapshot (write_all ws (new_log_buffer asked))).0.0
      ≡ last_lines (new_log_buffer asked).cap_lines (written 0 ws)
unfolding snapshot new_log_buffer
snapshot-write_all asked ws =
    (write_all-Shows (new_log_buffer asked).cap_lines 0 [] ws (new_log_buffer asked)
      (new_log_buffer-Shows asked).ring_in.head_in (new_log_buffer-Shows asked)).lines
