-- ===== src/Exec/Sink/Exact.antt =====
-- What the sink of internal/agent/exec/stream.go sends and what it counts.
use mathlib.Core.Bool.{false≢true}
use f1337_mcp.Files.Edit.Written.{take_all}
use f1337_mcp.Files.Pattern.Positions.{drop_all}
use f1337_mcp.Prelude.{
  drop-append_both, in_else, take-append, ℕ, zero, suc, ◌+◌, ◌-◌, ◌^◌, ◌≤◌, ◌<◌, ◌≡◌, refl, sym, ap,
  ◌∙◌, inl, inr, Bool, true, false, ◌&&◌, List, [], ◌∷◌, ◌++◌, append_assoc, append-nil, arith, ltb,
  ◌==◌, Bool-cases, length, take, drop, length-append, length-take, length-drop, Text,
}
use f1337_mcp.Files.Edit.Hints.{count_byte-append, count_byte}
use f1337_mcp.Exec.Sink.{new_sink, Sink, count_dropped, room_of, cut_to_room, send_chunks, write}
use f1337_mcp.Exec.Sink.Chunks.{
  wrap_small, count_byte-le-length, payloads, Sends, send_chunks-Sends, send_chunks_failed,
}

-- What the cap lets through, and what it holds back; a cap of 0 holds nothing back.
abbrev pub kept : ℕ → Text → Text
kept zero w = w
kept (suc m) w = take (suc m) w

abbrev pub held_back : ℕ → Text → Text
held_back zero w = []
held_back (suc m) w = drop (suc m) w

-- The bytes of several writes.
abbrev pub written : List (ℕ × Text) → Text
written [] = []
written ((stream, p) ∷ ws) = p ++ written ws

module _ (accepts : ℕ → Bool) where
  abbrev pub write_all : Sink → List (ℕ × Text) → Sink
  write_all s [] = s
  write_all s ((stream, p) ∷ ws) = write_all (write accepts s stream p) ws

-- The sink has sent and counted just what it was given.
pub record Exact (max : ℕ) (w : Text) (s : Sink) : Type 0 where
  pub bytes : payloads s.taken ≡ kept max w
  pub sent_bytes : s.sent ≡ length (kept max w)
  pub dropped : s.omitted ≡ length (held_back max w)
  pub lines : s.omitted_lines ≡ count_byte 10 (held_back max w)
  pub limit : s.max_bytes ≡ max
  pub works : s.failed ≡ false

unlimited-Exact : (w p : Text) (s t : Sink) → Exact 0 w s → Sends p s t → Exact 0 (w ++ p) t
unlimited-Exact w p s t e h = record {
  bytes = h.bytes ∙ ap (λ r. r ++ p) e.bytes;
  sent_bytes = omega (arith, h.sent_bytes, e.sent_bytes, length-append w p);
  dropped = h.dropped ∙ e.dropped;
  lines = h.lines ∙ e.lines;
  limit = h.limit ∙ e.limit;
  works = h.works ∙ e.works;
}

-- The sink has counted what was dropped.
record Drops (d : Text) (s t : Sink) : Type 0 where
  bytes : payloads t.taken ≡ payloads s.taken
  sent_bytes : t.sent ≡ s.sent
  dropped : t.omitted ≡ s.omitted + length d
  lines : t.omitted_lines ≡ s.omitted_lines + count_byte 10 d
  limit : t.max_bytes ≡ s.max_bytes
  works : t.failed ≡ s.failed

limited-Exact :
    (m r : ℕ) (w p : Text) (s u t : Sink)
    → r ≡ suc m - length w
    → Exact (suc m) w s
    → Drops (drop r p) s u
    → Sends (take r p) u t
    → Exact (suc m) (w ++ p) t
limited-Exact m r w p s u t is_r e d h =
    let kept' : take (suc m) (w ++ p) ≡ take (suc m) w ++ take r p =
      rw is_r (take-append (suc m) w p) in
    let held' : drop (suc m) (w ++ p) ≡ drop (suc m) w ++ drop r p =
      rw is_r (drop-append_both (suc m) w p) in
    record {
      bytes = h.bytes ∙ (ap (λ b. b ++ take r p) (d.bytes ∙ e.bytes) ∙ sym kept');
      sent_bytes = omega (
        arith,
        h.sent_bytes,
        d.sent_bytes,
        e.sent_bytes,
        ap length kept',
        length-append (take (suc m) w) (take r p),
      );
      dropped = omega (
        arith,
        h.dropped,
        d.dropped,
        e.dropped,
        ap length held',
        length-append (drop (suc m) w) (drop r p),
      );
      lines = omega (
        arith,
        h.lines,
        d.lines,
        e.lines,
        ap (count_byte 10) held',
        count_byte-append 10 (drop (suc m) w) (drop r p),
      );
      limit = h.limit ∙ (d.limit ∙ e.limit);
      works = h.works ∙ (d.works ∙ e.works);
    }

Drops-nothing : (r : ℕ) (p : Text) (s : Sink) → length p ≤ r → Drops (drop r p) s s
Drops-nothing r p s h = record {
  bytes = refl;
  sent_bytes = refl;
  dropped = omega (arith, ap length (drop_all r p h));
  lines = omega (arith, ap (count_byte 10) (drop_all r p h), count_byte-le-length 10 []);
  limit = refl;
  works = refl;
}

count_dropped-Drops :
    (d : Text) (s : Sink)
    → s.omitted + length d < 2 ^ 64
    → s.omitted_lines + count_byte 10 d < 2 ^ 64
    → Drops d s (count_dropped d s)
unfolding count_dropped
count_dropped-Drops d s h k = record {
  bytes = refl;
  sent_bytes = refl;
  dropped = wrap_small (s.omitted + length d) h;
  lines = wrap_small (s.omitted_lines + count_byte 10 d) k;
  limit = refl;
  works = refl;
}

count_dropped_failed : (d : Text) (s : Sink) → (count_dropped d s).failed ≡ s.failed
unfolding count_dropped
count_dropped_failed d s = refl

room_of-Exact : (m : ℕ) (w : Text) (s : Sink) → Exact (suc m) w s → room_of s ≡ suc m - length w
unfolding room_of
room_of-Exact m w s e = omega (arith, e.limit, e.sent_bytes, length-take (suc m) w)

cuts_to_room : Sink → Text → Bool
cuts_to_room s p = ltb 0 s.max_bytes && ltb (room_of s) (length p)

cut_small : (s : Sink) (p : Text) → cuts_to_room s p ≡ false → cut_to_room s p ≡ (p, s)
unfolding cut_to_room cuts_to_room
cut_small s p h = rw h refl

cut_large :
    (s : Sink) (p : Text)
    → cuts_to_room s p ≡ true
    → cut_to_room s p ≡ (take (room_of s) p, count_dropped (drop (room_of s) p) s)
unfolding cut_to_room cuts_to_room
cut_large s p h = rw h refl

fits_in_room :
    (s : Sink) (p : Text) → cuts_to_room s p ≡ false → 0 < s.max_bytes → length p ≤ room_of s
unfolding cuts_to_room
fits_in_room s p h k = ground arith

no_limit : (s : Sink) (p : Text) → s.max_bytes ≡ 0 → cuts_to_room s p ≡ false
unfolding cuts_to_room
no_limit s p h = ground arith

module _ (accepts : ℕ → Bool) where
  -- One write of bytes, once they are cut to the room.
  write-cut :
      (P : Sink → Type 0) (s : Sink) (stream : ℕ) (c : ℕ) (p remaining : Text) (s' : Sink)
      → cut_to_room s (c ∷ p) ≡ (remaining, s')
      → P (send_chunks accepts (length (c ∷ p)) stream remaining s')
      → P (write accepts s stream (c ∷ p))
  unfolding write
  write-cut P s stream c p remaining s' cut h =
      rw cut (in_else P (length (c ∷ p) == 0) s _ (ground arith) h)

  -- What holds of the sink unless a send has failed.
  abbrev ExactUnlessFailed : ℕ → Text → Sink → Type 0
  ExactUnlessFailed max w t = t.failed ≡ false → Exact max w t

  write-Exact_nothing :
      (max : ℕ) (w : Text) (stream : ℕ) (s : Sink)
      → Exact max w s
      → Exact max (w ++ []) (write accepts s stream [])
  unfolding write
  write-Exact_nothing max w stream s e = rw (append-nil w) e

  write-Exact_limited :
      (m : ℕ) (w : Text) (c : ℕ) (p : Text) (stream : ℕ) (s : Sink)
      → length (w ++ (c ∷ p)) < 2 ^ 64
      → Exact (suc m) w s
      → ExactUnlessFailed (suc m) (w ++ (c ∷ p)) (write accepts s stream (c ∷ p))
  write-Exact_limited m w c p stream s h e =
      let q = c ∷ p in
      let r = room_of s in
      let is_r = room_of-Exact m w s e in
      let total = length-append w q in
      let sent_le : s.sent ≤ length w = omega (arith, e.sent_bytes, length-take (suc m) w) in
      let omitted_le : s.omitted ≤ length w = omega (arith, e.dropped, length-drop (suc m) w) in
      elim (Bool-cases (cuts_to_room s q)) [
        | inl over ↦
            let d = drop r q in
            let d_le : length d ≤ length q = omega (arith, length-drop r q) in
            let counted = count_dropped-Drops d s (omega (arith, h, total, omitted_le, d_le)) (
              omega (
                arith,
                h,
                total,
                omitted_le,
                d_le,
                count_byte-le-length 10 d,
                e.lines,
                e.dropped,
                count_byte-le-length 10 (drop (suc m) w),
              )) in
            let take_le : length (take r q) ≤ length q = omega (arith, length-take r q) in
            write-cut (ExactUnlessFailed (suc m) (w ++ q)) s stream c p (take r q)
              (count_dropped d s) (cut_large s q over)
              (λ works. limited-Exact m r w q s (count_dropped d s) _ is_r e counted (
                send_chunks-Sends accepts (length q) stream (take r q) (count_dropped d s) take_le
                  (counted.works ∙ e.works)
                  (omega (arith, h, total, sent_le, take_le, counted.sent_bytes)) works))
        | inr fits ↦
            let small = fits_in_room s q fits (rw e.limit (omega arith)) in
            write-cut (ExactUnlessFailed (suc m) (w ++ q)) s stream c p q s (cut_small s q fits)
              (λ works. limited-Exact m r w q s s _ is_r e (Drops-nothing r q s small) (
                rw (take_all r q small) (
                  send_chunks-Sends accepts (length q) stream q s (omega arith) e.works
                    (omega (arith, h, total, sent_le)) works)))
      ]

  write-Exact :
      (max : ℕ) (w p : Text) (stream : ℕ) (s : Sink)
      → length (w ++ p) < 2 ^ 64
      → Exact max w s
      → ExactUnlessFailed max (w ++ p) (write accepts s stream p)
  write-Exact max w [] stream s h e works = write-Exact_nothing max w stream s e
  write-Exact zero w (c ∷ p) stream s h e works =
      write-cut (ExactUnlessFailed 0 (w ++ (c ∷ p))) s stream c p (c ∷ p) s
        (cut_small s (c ∷ p) (no_limit s (c ∷ p) e.limit))
        (λ fine. unlimited-Exact w (c ∷ p) s _ e (
          send_chunks-Sends accepts (length (c ∷ p)) stream (c ∷ p) s (omega arith) e.works
            (omega (arith, h, length-append w (c ∷ p), e.sent_bytes)) fine))
        works
  write-Exact (suc m) w (c ∷ p) stream s h e works = write-Exact_limited m w c p stream s h e works

  write_failed :
      (s : Sink) (stream : ℕ) (p : Text)
      → s.failed ≡ true
      → (write accepts s stream p).failed ≡ true
  unfolding write
  write_failed s stream [] f = f
  write_failed s stream (c ∷ p) f = elim (Bool-cases (cuts_to_room s (c ∷ p))) [
    | inl over ↦
        write-cut (λ (t : Sink). t.failed ≡ true) s stream c p _ _ (cut_large s (c ∷ p) over)
          (send_chunks_failed accepts (length (c ∷ p)) stream (take (room_of s) (c ∷ p))
            (count_dropped (drop (room_of s) (c ∷ p)) s)
            (count_dropped_failed (drop (room_of s) (c ∷ p)) s ∙ f))
    | inr fits ↦
        write-cut (λ (t : Sink). t.failed ≡ true) s stream c p (c ∷ p) s (cut_small s (c ∷ p) fits)
          (send_chunks_failed accepts (length (c ∷ p)) stream (c ∷ p) s f)
  ]

  write_all_failed :
      (s : Sink) (ws : List (ℕ × Text)) → s.failed ≡ true → (write_all accepts s ws).failed ≡ true
  write_all_failed s [] f = f
  write_all_failed s ((stream, p) ∷ ws) f =
      write_all_failed (write accepts s stream p) ws (write_failed s stream p f)

  write_all-Exact_from :
      (max : ℕ) (w : Text) (s : Sink) (ws : List (ℕ × Text))
      → length (w ++ written ws) < 2 ^ 64
      → Exact max w s
      → ExactUnlessFailed max (w ++ written ws) (write_all accepts s ws)
  write_all-Exact_from max w s [] h e works = rw (append-nil w) e
  write_all-Exact_from max w s ((stream, p) ∷ ws) h e works =
      let h' : length (w ++ p ++ written ws) < 2 ^ 64 = rw (append_assoc w p (written ws)) h in
      let short : length (w ++ p) < 2 ^ 64 =
        omega (arith, h', length-append (w ++ p) (written ws)) in
      elim (Bool-cases (write accepts s stream p).failed) [
        | inl lost ↦
            absurd (false≢true (sym works ∙ write_all_failed (write accepts s stream p) ws lost))
        | inr fine ↦ rw (append_assoc w p (written ws)) at (
            write_all-Exact_from max (w ++ p) (write accepts s stream p) ws h'
              (write-Exact max w p stream s short e fine) works)
      ]

new_sink-Exact : (max : ℕ) → Exact max [] (new_sink max)
unfolding new_sink count_byte
new_sink-Exact zero = record {
  bytes = refl;
  sent_bytes = refl;
  dropped = refl;
  lines = refl;
  limit = refl;
  works = refl;
}
new_sink-Exact (suc m) = record {
  bytes = refl;
  sent_bytes = refl;
  dropped = refl;
  lines = refl;
  limit = refl;
  works = refl;
}

-- Unless a send fails, a sink that is given fewer than 2^64 bytes sends exactly what the cap
-- lets through, in order, and counts the bytes and lines of all the rest.
pub write_all-Exact :
    (accepts : ℕ → Bool) (max : ℕ) (ws : List (ℕ × Text))
    → length (written ws) < 2 ^ 64
    → (write_all accepts (new_sink max) ws).failed ≡ false
    → Exact max (written ws) (write_all accepts (new_sink max) ws)
write_all-Exact accepts max ws h works =
    write_all-Exact_from accepts max [] (new_sink max) ws h (new_sink-Exact max) works
