-- ===== src/Exec/Sink/Chunks.antt =====
-- The loop of sink.write in internal/agent/exec/stream.go sends its chunks.
use mathlib.Core.Bool.{false≢true}
use f1337_mcp.Prelude.{
  in_else, in_then, ℕ, zero, suc, ◌+◌, ◌^◌, ◌≤◌, ◌<◌, ◌≡◌, refl, sym, ap, ◌∙◌, inl, inr, Bool, true,
  false, ◌||◌, List, [], ◌∷◌, ◌++◌, append_assoc, append-nil, arith, ◌==◌, Bool-cases, length, take,
  drop, length-append, length-drop, take-append-drop, Text,
}
use f1337_mcp.Files.Edit.Hints.{count_byte}
use f1337_mcp.Exec.Sink.{wrap, max_chunk_bytes, OutputChunk, Sink, sent_chunk, send_chunks}

pub wrap_small : (n : ℕ) → n < 2 ^ 64 → wrap n ≡ n
unfolding wrap
wrap_small n h = omega (arith, h)

pub count_byte-le-length : (b : ℕ) (s : Text) → count_byte b s ≤ length s
unfolding count_byte
count_byte-le-length b [] = omega arith
count_byte-le-length b (c ∷ s) = ground (arith, count_byte-le-length b s)

-- The bytes of chunks.
abbrev pub payloads : List OutputChunk → Text
payloads [] = []
payloads (c ∷ cs) = c.payload ++ payloads cs

payloads-snoc :
    (cs : List OutputChunk) (c : OutputChunk) → payloads (cs ++ (c ∷ [])) ≡ payloads cs ++ c.payload
payloads-snoc [] c = append-nil c.payload
payloads-snoc (d ∷ cs) c =
    rw (payloads-snoc cs c) (sym (append_assoc d.payload (payloads cs) c.payload))

-- A round, and so the loop, sends its chunk.
pub record Sends (p : Text) (s t : Sink) : Type 0 where
  pub bytes : payloads t.taken ≡ payloads s.taken ++ p
  pub sent_bytes : t.sent ≡ s.sent + length p
  pub dropped : t.omitted ≡ s.omitted
  pub lines : t.omitted_lines ≡ s.omitted_lines
  pub limit : t.max_bytes ≡ s.max_bytes
  pub works : t.failed ≡ s.failed

sent_chunk-Sends :
    (stream : ℕ) (p : Text) (s : Sink)
    → s.sent + length p < 2 ^ 64
    → Sends p s (sent_chunk stream p s true)
unfolding sent_chunk
sent_chunk-Sends stream p s h = record {
  bytes = payloads-snoc s.taken _;
  sent_bytes = wrap_small (s.sent + length p) h;
  dropped = refl;
  lines = refl;
  limit = refl;
  works = refl;
}

sent_chunk_lost : (stream : ℕ) (p : Text) (s : Sink) → (sent_chunk stream p s false).failed ≡ true
unfolding sent_chunk
sent_chunk_lost stream p s = refl

Sends-trans : (p q : Text) (s t u : Sink) → Sends p s t → Sends q t u → Sends (p ++ q) s u
Sends-trans p q s t u h k = record {
  bytes = k.bytes ∙ (ap (λ r. r ++ q) h.bytes ∙ append_assoc (payloads s.taken) p q);
  sent_bytes = omega (arith, h.sent_bytes, k.sent_bytes, length-append p q);
  dropped = k.dropped ∙ h.dropped;
  lines = k.lines ∙ h.lines;
  limit = k.limit ∙ h.limit;
  works = k.works ∙ h.works;
}

Sends-nothing : (s : Sink) → Sends [] s s
Sends-nothing s = record {
  bytes = sym (append-nil (payloads s.taken));
  sent_bytes = omega arith;
  dropped = refl;
  lines = refl;
  limit = refl;
  works = refl;
}

module _ (accepts : ℕ → Bool) where
  -- A sink that has failed stays so.
  pub send_chunks_failed :
      (fuel stream : ℕ) (p : Text) (s : Sink)
      → s.failed ≡ true
      → (send_chunks accepts fuel stream p s).failed ≡ true
  unfolding send_chunks
  send_chunks_failed zero stream p s f = f
  send_chunks_failed (suc fuel) stream p s f =
      in_then (λ (t : Sink). t.failed ≡ true) ((length p == 0) || s.failed) s _ (ground arith) f

  -- The first of the chunks, and the rest of them after it.
  first_chunk-Sends :
      (fuel stream : ℕ) (here later : Text) (s : Sink)
      → s.failed ≡ false
      → s.sent + length here < 2 ^ 64
      → ((t : Sink)
          → Sends here s t
          → (send_chunks accepts fuel stream later t).failed ≡ false
          → Sends later t (send_chunks accepts fuel stream later t))
      → (send_chunks accepts fuel stream later (sent_chunk stream here s (accepts s.sends))).failed
        ≡ false
      → Sends
          (here ++ later)
          s
          (send_chunks accepts fuel stream later (sent_chunk stream here s (accepts s.sends)))
  first_chunk-Sends fuel stream here later s ok h more works = elim (Bool-cases (accepts s.sends)) [
    | inl taken ↦
        let one = sent_chunk-Sends stream here s h in
        rw taken (
          Sends-trans here later s (sent_chunk stream here s true) _ one
            (more (sent_chunk stream here s true) one (rw taken at works)))
    | inr lost ↦ absurd (
        false≢true (
          sym (rw lost at works)
          ∙ send_chunks_failed fuel stream later (sent_chunk stream here s false)
              (sent_chunk_lost stream here s)))
  ]

  pub send_chunks-Sends :
      (fuel stream : ℕ) (p : Text) (s : Sink)
      → length p ≤ fuel
      → s.failed ≡ false
      → s.sent + length p < 2 ^ 64
      → (send_chunks accepts fuel stream p s).failed ≡ false
      → Sends p s (send_chunks accepts fuel stream p s)
  unfolding send_chunks
  send_chunks-Sends zero stream [] s le ok h works = Sends-nothing s
  send_chunks-Sends zero stream (c ∷ p) s le ok h works = absurd (omega (arith, le))
  send_chunks-Sends (suc fuel) stream [] s le ok h works = Sends-nothing s
  send_chunks-Sends (suc fuel) stream (c ∷ p) s le ok h works =
      let l = c ∷ p in
      let here = take max_chunk_bytes l in
      let later = drop max_chunk_bytes l in
      let some_left : (length l == 0) ≡ false = ground arith in
      let sizes : length here + length later ≡ length l =
        sym (length-append here later) ∙ ap length (take-append-drop max_chunk_bytes l) in
      let shorter : length later ≤ fuel = omega (arith, le, length-drop max_chunk_bytes l) in
      let test : ((length l == 0) || s.failed) ≡ false = rw some_left ok in
      in_else (λ (t : Sink). t.failed ≡ false → Sends (c ∷ p) s t) ((length l == 0) || s.failed) s _
        test
        (λ fine. rw (take-append-drop max_chunk_bytes l) at (
          first_chunk-Sends fuel stream here later s ok (omega (arith, h, sizes))
            (λ t one w.
              send_chunks-Sends fuel stream later t shorter (one.works ∙ ok)
                (omega (arith, h, sizes, one.sent_bytes)) w)
            fine))
        works
