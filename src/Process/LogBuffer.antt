-- ===== src/Process/LogBuffer.antt =====
-- internal/agent/process/logbuf.go: the ring of captured lines, its followers, and the splitting of
-- long lines. Sequence numbers and counters (uint64) are unbounded: 2^64 lines are out of reach.
-- A channel is its queue, oldest delivery first. The rotating file is not modelled: what `append`
-- writes to it is never read back by the functions here.
pub mod Ring
pub mod Writes
pub mod Followers
pub mod Split
use f1337_mcp.Prelude.{
  ℕ, zero, suc, ◌+◌, ◌-◌, ◌*◌, ◌/◌, ◌%◌, ◌^◌, ◌≤◌, ◌<◌, ◌≡◌, refl, sym, ap, ◌∙◌, ◌≢◌, ◌↔◌, ◌⊎◌, inl,
  inr, Bool, true, false, not, ◌&&◌, ◌||◌, Option, none, some, List, [], ◌∷◌, ◌++◌, map,
  append_assoc, append-nil, arith, ltb, leb, ◌==◌, if◌then◌else◌, ltb→lt, lt→ltb, ==_iff,
  Bool-cases, Option-cases, is_some, length, get_elem?, get_or, set, take, drop, replicate, any,
  all, All, length-append, length-set, length-replicate, length-take, length-drop, take-append-drop,
  get_or-set_self, get_or-set_ne, Text, codes, eq_text, eq_text_iff, eq_text_refl, has_prefix,
  is_space, trim_left, trim_space, contains_byte, lower_byte,
}

pub record LogLine : Type 0 where
  pub seq : ℕ
  pub stream : ℕ
  pub at : ℕ
  pub text : Text
  pub cont : Bool

pub record Delivery : Type 0 where
  pub line : LogLine
  pub dropped : ℕ

pub record Subscriber : Type 0 where
  pub key : ℕ
  pub queue : List Delivery
  pub pending : ℕ

abbrev pub subscriber_queue : ℕ
subscriber_queue = 256

-- The zero value of a line, in the slots of a ring that nothing has been written to.
abbrev pub blank : LogLine
blank = record { seq = 0; stream = 0; at = 0; text = []; cont = false }

pub record LogBuffer : Type 0 where
  pub ring : List LogLine
  pub cap_lines : ℕ
  pub head : ℕ
  pub size : ℕ
  pub next_seq : ℕ
  pub log_bytes : ℕ
  pub last_line : Text
  pub evicted : ℕ
  pub subs : List Subscriber
  pub next_key : ℕ
  pub closed : Bool

unfoldable pub new_log_buffer : ℕ → LogBuffer
new_log_buffer asked = record {
  ring = replicate cap_lines blank;
  cap_lines = cap_lines;
  head = 0;
  size = 0;
  next_seq = 0;
  log_bytes = 0;
  last_line = [];
  evicted = 0;
  subs = [];
  next_key = 0;
  closed = false;
}
  where
    cap_lines : ℕ
    cap_lines = if asked == 0 then 1 else asked

-- The write into the ring, which `append` and `restore` share in their text.
unfoldable pub push_line : LogLine → LogBuffer → LogBuffer
push_line line b =
    if b.size == b.cap_lines
    then record b {
      ring = set b.ring b.head line;
      head = (b.head + 1) % b.cap_lines;
      evicted = b.evicted + 1;
    }
    else record b { ring = set b.ring ((b.head + b.size) % b.cap_lines) line; size = b.size + 1 }

-- The non-blocking send to one follower.
unfoldable pub deliver : LogLine → Subscriber → Subscriber
deliver line sub =
    if ltb (length sub.queue) subscriber_queue
    then record sub {
      queue = sub.queue ++ record { line = line; dropped = sub.pending } ∷ [];
      pending = 0;
    }
    else record sub { pending = sub.pending + 1 }

-- The line that `append` makes of its arguments.
unfoldable pub next_line : ℕ → Text → ℕ → Bool → LogBuffer → LogLine
next_line stream text at cont b = record {
  seq = b.next_seq;
  stream = stream;
  at = at;
  text = text;
  cont = cont;
}

-- What `append` does besides its write into the ring.
unfoldable pub count_line : LogLine → LogBuffer → LogBuffer
unfolding deliver
count_line line b = record b {
  next_seq = b.next_seq + 1;
  log_bytes = b.log_bytes + length line.text;
  last_line = line.text;
  subs = map (deliver line) b.subs;
}

unfoldable pub append : ℕ → Text → ℕ → Bool → LogBuffer → LogBuffer
unfolding push_line next_line count_line
append stream text at cont b =
    let line = next_line stream text at cont b in
    if b.closed then b else push_line line (count_line line b)

-- `for i := range n`, from `i` on
unfoldable pub lines_from : List LogLine → ℕ → ℕ → ℕ → ℕ → List LogLine
lines_from ring cap_lines head i zero = []
lines_from ring cap_lines head i (suc n) =
    get_or ring ((head + i) % cap_lines) blank ∷ lines_from ring cap_lines head (i + 1) n

unfoldable pub ring_lines : LogBuffer → List LogLine
unfolding lines_from
ring_lines b = lines_from b.ring b.cap_lines b.head 0 b.size

-- The retained lines, and a subscription that carries every line after them. A buffer that is closed
-- hands out a subscriber that is not in its set.
unfoldable pub snapshot : LogBuffer → (List LogLine × Subscriber) × LogBuffer
unfolding ring_lines
snapshot b =
    let sub : Subscriber = record { key = b.next_key; queue = []; pending = 0 } in
    let b' = record b { next_key = b.next_key + 1 } in
    ((ring_lines b, sub), if b.closed then b' else record b' { subs = b.subs ++ sub ∷ [] })

unfoldable pub take_pending : Subscriber → ℕ × Subscriber
take_pending sub = (sub.pending, record sub { pending = 0 })

-- What a follower does with its channel.
unfoldable pub receive : Subscriber → Option (Delivery × Subscriber)
receive sub = elim sub.queue [ [] ↦ none | d ∷ rest ↦ some (d, record sub { queue = rest }) ]

unfoldable pub without : ℕ → List Subscriber → List Subscriber
without key [] = []
without key (s ∷ subs) = let rest = without key subs in if s.key == key then rest else s ∷ rest

unfoldable pub unsubscribe : ℕ → LogBuffer → LogBuffer
unfolding without
unsubscribe key b = record b { subs = without key b.subs }

unfoldable pub stats : LogBuffer → ℕ × Text × ℕ
stats b = (b.log_bytes, b.last_line, b.next_seq)

unfoldable pub oldest_retained_seq : LogBuffer → ℕ × Bool
oldest_retained_seq b =
    if b.size == 0 then (b.next_seq, false) else ((get_or b.ring b.head blank).seq, true)

restore_line : LogLine → LogBuffer → LogBuffer
unfolding push_line
restore_line line b =
    let pushed = push_line line b in
    record pushed {
      next_seq = if leb pushed.next_seq line.seq then line.seq + 1 else pushed.next_seq;
      last_line = line.text;
    }

restore_lines : List LogLine → LogBuffer → LogBuffer
unfolding restore_line
restore_lines [] b = b
restore_lines (line ∷ lines) b = restore_lines lines (restore_line line b)

-- Recovery of the lines read off disk.
unfoldable pub restore : List LogLine → ℕ → LogBuffer → LogBuffer
unfolding restore_lines
restore lines log_bytes b = record (restore_lines lines b) { log_bytes = log_bytes }

unfoldable pub close : LogBuffer → LogBuffer
close b = if b.closed then b else record b { closed = true; subs = [] }

abbrev pub max_line_bytes : ℕ
max_line_bytes = 16_384

-- The loop of `splitLine`, on fuel.
unfoldable pub split_at : ℕ → ℕ → Text → List Text
split_at limit zero text = text ∷ []
split_at limit (suc fuel) text =
    let rest = take limit text ∷ split_at limit fuel (drop limit text) in
    if leb (length text) limit then text ∷ [] else rest

-- The length of the text is fuel enough, since each round drops a piece.
unfoldable pub split_line : Text → List Text
unfolding split_at
split_line text = split_at max_line_bytes (length text) text
