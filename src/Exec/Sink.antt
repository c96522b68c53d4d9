-- ===== src/Exec/Sink.antt =====
-- internal/agent/exec/stream.go: what a command writes, sent in chunks up to a cap and counted beyond it. What the stream
-- answers to each Send, by the number of sends before it, is an argument.
pub mod Chunks
pub mod Exact
use Prim.Native.Nat.{min}
use f1337_mcp.Prelude.{
  ℕ, zero, suc, ◌+◌, ◌-◌, ◌*◌, ◌/◌, ◌%◌, ◌^◌, ◌≤◌, ◌<◌, ◌≡◌, refl, sym, ap, ◌∙◌, ◌≢◌, ◌↔◌, ◌⊎◌, inl,
  inr, Bool, true, false, not, ◌&&◌, ◌||◌, Option, none, some, List, [], ◌∷◌, ◌++◌, map,
  append_assoc, append-nil, arith, ltb, leb, ◌==◌, if◌then◌else◌, ltb→lt, lt→ltb, ==_iff,
  Bool-cases, Option-cases, is_some, length, get_elem?, get_or, set, take, drop, replicate, any,
  all, All, length-append, length-set, length-replicate, length-take, length-drop, take-append-drop,
  get_or-set_self, get_or-set_ne, Text, codes, eq_text, eq_text_iff, eq_text_refl, has_prefix,
  is_space, trim_left, trim_space, contains_byte, lower_byte,
}
use f1337_mcp.Files.Edit.Hints.{count_byte}

-- uint64 arithmetic
unfoldable pub wrap : ℕ → ℕ
wrap n = n % 2 ^ 64

-- `maxChunkBytes`
abbrev pub max_chunk_bytes : ℕ
max_chunk_bytes = 32768

pub record OutputChunk : Type 0 where
  pub stream : ℕ
  pub payload : Text

pub record Sink : Type 0 where
  pub max_bytes : ℕ
  pub sent : ℕ
  pub omitted : ℕ
  pub omitted_lines : ℕ
  pub failed : Bool
  -- The stream: the chunks it took, and how often it was asked to.
  pub taken : List OutputChunk
  pub sends : ℕ

-- `newSink`
unfoldable pub new_sink : ℕ → Sink
new_sink max_bytes = record {
  max_bytes = max_bytes;
  sent = 0;
  omitted = 0;
  omitted_lines = 0;
  failed = false;
  taken = [];
  sends = 0;
}

-- `dropped` is counted.
unfoldable pub count_dropped : Text → Sink → Sink
unfolding wrap
count_dropped dropped s = record s {
  omitted = wrap (s.omitted + length dropped);
  omitted_lines = wrap (s.omitted_lines + count_byte 10 dropped);
}

-- The room under the cap.
unfoldable pub room_of : Sink → ℕ
room_of s = s.max_bytes - min s.sent s.max_bytes

-- What is left to send, and the sink with the rest counted.
unfoldable pub cut_to_room : Sink → Text → Text × Sink
unfolding count_dropped room_of
cut_to_room s p =
    if ltb 0 s.max_bytes && ltb (room_of s) (length p)
    then (take (room_of s) p, count_dropped (drop (room_of s) p) s)
    else (p, s)

unfoldable pub sent_chunk : ℕ → Text → Sink → Bool → Sink
unfolding wrap
sent_chunk stream chunk s true = record s {
  sent = wrap (s.sent + length chunk);
  taken = s.taken ++ (record { stream = stream; payload = chunk } ∷ []);
  sends = s.sends + 1;
}
sent_chunk stream chunk s false = record s { failed = true; sends = s.sends + 1 }

module _ (accepts : ℕ → Bool) where
  -- The loop of `write`, with fuel.
  unfoldable pub send_chunks : ℕ → ℕ → Text → Sink → Sink
  unfolding sent_chunk
  send_chunks zero stream remaining s = s
  send_chunks (suc fuel) stream remaining s =
      let chunk = take max_chunk_bytes remaining in
      let next = sent_chunk stream chunk s (accepts s.sends) in
      let rest = send_chunks fuel stream (drop max_chunk_bytes remaining) next in
      if (length remaining == 0) || s.failed then s else rest

  -- `write`: the loop takes a round for each byte at most.
  unfoldable pub write : Sink → ℕ → Text → Sink
  unfolding cut_to_room send_chunks
  write s stream p =
      let (remaining, s') = cut_to_room s p in
      if length p == 0 then s else send_chunks (length p) stream remaining s'

  -- `sendResult`: whether the result is on the stream
  unfoldable pub send_result : Sink → Bool
  send_result s = not s.failed && accepts s.sends

pub record Truncation : Type 0 where
  pub truncated : Bool
  pub bytes_omitted : ℕ
  pub lines_omitted : ℕ

-- `truncation`
unfoldable pub truncation : Sink → Truncation
truncation s = record {
  truncated = ltb 0 s.omitted;
  bytes_omitted = s.omitted;
  lines_omitted = s.omitted_lines;
}
