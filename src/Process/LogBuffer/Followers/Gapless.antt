-- ===== src/Process/LogBuffer/Followers/Gapless.antt =====
-- The followers of internal/agent/process/logbuf.go over any history of a buffer.
use native.Mathlib.Nat.{add-zero}
use f1337_mcp.Prelude.{
  ℕ, ◌+◌, ◌<◌, ◌≡◌, refl, sym, ap, ◌∙◌, inl, inr, false, List, [], ◌∷◌, ◌++◌, map, append_assoc,
  append-nil, arith, ◌==◌, Bool-cases, length, All,
}
use f1337_mcp.Process.LogBuffer.{
  without, new_log_buffer, deliver, LogLine, Delivery, Subscriber, LogBuffer, snapshot, unsubscribe,
}
use f1337_mcp.Process.LogBuffer.Writes.{written}
use mathlib.Core.Path.{subst}
use f1337_mcp.Process.LogBuffer.Followers.{
  received, turns, Carries, Turn, wrote, joined, left, took, take_one, turn, got, writes_of, Keeps,
  Follows,
}
use f1337_mcp.Process.LogBuffer.Followers.Keys.{find_sub-fresh, deliver_key, take_one_key}
use f1337_mcp.Process.LogBuffer.Followers.Kept.{append-Appended, turn-open, turn-Follows}

written-turn :
    (n : ℕ) (t : Turn) (ts : List Turn)
    → written n (writes_of (t ∷ ts))
      ≡ written n (writes_of (t ∷ [])) ++ written (n + length (writes_of (t ∷ []))) (writes_of ts)
unfolding writes_of written
written-turn n (wrote w) ts = refl
written-turn n joined ts = rw (add-zero n) refl
written-turn n (left k) ts = rw (add-zero n) refl
written-turn n (took k) ts = rw (add-zero n) refl

nothing_new : (lines : List LogLine) (n : ℕ) → lines ++ written n (writes_of []) ≡ lines
unfolding written writes_of
nothing_new lines n = append-nil lines

Follows-subst :
    (key : ℕ) (b : LogBuffer) {lines lines' : List LogLine} {seen seen' : List Delivery}
    → lines ≡ lines'
    → seen ≡ seen'
    → Follows key lines seen b
    → Follows key lines' seen' b
Follows-subst key b {lines} {lines'} {seen} {seen'} p q f =
    subst (λ l. Follows key l seen' b) p (subst (λ d. Follows key lines d b) q f)

turns-Follows :
    (key : ℕ) (lines : List LogLine) (seen : List Delivery) (ts : List Turn) (b : LogBuffer)
    → b.closed ≡ false
    → All (Keeps key) ts
    → Follows key lines seen b
    → Follows key
        (lines ++ written b.next_seq (writes_of ts))
        (seen ++ received key ts b)
        (turns ts b)
unfolding turns received
turns-Follows key lines seen [] b e n f =
    Follows-subst key b (sym (nothing_new lines b.next_seq)) (sym (append-nil seen)) f
turns-Follows key lines seen (t ∷ ts) b e n f =
    let (e', number) = turn-open t b e in
    let f' = turn-Follows key lines seen t b e n.0 f in
    let rest =
      turns-Follows key (lines ++ written b.next_seq (writes_of (t ∷ []))) (seen ++ got key t b) ts
        (turn t b) e' n.1 f' in
    let line_up =
      ap (λ k. (lines ++ written b.next_seq (writes_of (t ∷ []))) ++ written k (writes_of ts))
        number
      ∙ append_assoc lines (written b.next_seq (writes_of (t ∷ []))) _
      ∙ ap (λ l. lines ++ l) (sym (written-turn b.next_seq t ts)) in
    let seen_up = append_assoc seen (got key t b) (received key ts (turn t b)) in
    Follows-subst key (turns ts (turn t b)) line_up seen_up rest

-- An open buffer whose keys were all given out.
record Ready (b : LogBuffer) : Type 0 where
  is_open : b.closed ≡ false
  given : All (λ s. s.key < b.next_key) b.subs

All-map_key :
    (n : ℕ) (g : Subscriber → Subscriber) (subs : List Subscriber)
    → ((s : Subscriber) → (g s).key ≡ s.key)
    → All (λ s. s.key < n) subs
    → All (λ s. s.key < n) (map g subs)
All-map_key n g [] k a = tt
All-map_key n g (s ∷ subs) k a = (rw (k s) a.0, All-map_key n g subs k a.1)

All-joined :
    (n : ℕ) (subs : List Subscriber) (s : Subscriber)
    → s.key ≡ n
    → All (λ t. t.key < n) subs
    → All (λ t. t.key < n + 1) (subs ++ s ∷ [])
All-joined n [] s e a = (omega (arith, e), tt)
All-joined n (t ∷ subs) s e a = (omega (arith, a.0), All-joined n subs s e a.1)

All-without :
    (n key : ℕ) (subs : List Subscriber)
    → All (λ t. t.key < n) subs
    → All (λ t. t.key < n) (without key subs)
unfolding without
All-without n key [] a = tt
All-without n key (t ∷ subs) a = elim (Bool-cases (t.key == key)) [
  | inl e ↦ rw e (All-without n key subs a.1)
  | inr e ↦ rw e (a.0, All-without n key subs a.1)
]

turn-Ready : (t : Turn) (b : LogBuffer) → Ready b → Ready (turn t b)
unfolding turn snapshot unsubscribe
turn-Ready (wrote w) b r =
    let a = append-Appended w b r.is_open in
    let (line, one, subs) = a.fanned in
    record {
      is_open = a.open_still;
      given =
          rw subs
            (rw a.keys (All-map_key b.next_key (deliver line) b.subs (deliver_key line) r.given));
    }
turn-Ready joined b r =
    rw r.is_open (record { is_open = refl; given = All-joined b.next_key b.subs _ refl r.given })
turn-Ready (left k) b r = record {
  is_open = r.is_open;
  given = All-without b.next_key k b.subs r.given;
}
turn-Ready (took k) b r = record {
  is_open = r.is_open;
  given = All-map_key b.next_key (take_one k) b.subs (take_one_key k) r.given;
}

turns-Ready : (ts : List Turn) (b : LogBuffer) → Ready b → Ready (turns ts b)
unfolding turns
turns-Ready [] b r = r
turns-Ready (t ∷ ts) b r = turns-Ready ts (turn t b) (turn-Ready t b r)

new-Ready : (asked : ℕ) → Ready (new_log_buffer asked)
unfolding new_log_buffer
new-Ready asked = record { is_open = refl; given = tt }

snapshot-Follows : (b : LogBuffer) → Ready b → Follows (snapshot b).0.1.key [] [] (snapshot b).1
unfolding snapshot Carries
snapshot-Follows b r = rw r.is_open (record {
  sub = _;
  found = find_sub-fresh b.next_key b.subs _ r.given refl;
  carried = refl;
  bounded = omega arith;
})

snapshot_next :
    (b : LogBuffer)
    → b.closed ≡ false
    → ((snapshot b).1.closed ≡ false) × ((snapshot b).1.next_seq ≡ b.next_seq)
unfolding snapshot
snapshot_next b e = rw e (refl, refl)

-- From the snapshot that a follower takes of a buffer with any history, while the buffer is open and
-- until the follower leaves: whatever lines are written, whoever else joins, leaves or reads, and
-- whenever this follower reads, the deliveries that it has read and those on its channel are lines
-- written since the snapshot, in their order and as they were numbered, each with the number of lines
-- that were dropped before it; the lines dropped behind the last are the pending ones; and the channel
-- never holds more than its 256 places.
pub snapshot-turns-Follows :
    (asked : ℕ) (before after : List Turn)
    → All (Keeps (snapshot (turns before (new_log_buffer asked))).0.1.key) after
    → let b = turns before (new_log_buffer asked) in
      let ((_, sub), b') = snapshot b in
      Follows sub.key
        (written b.next_seq (writes_of after))
        (received sub.key after b')
        (turns after b')
snapshot-turns-Follows asked before after n =
    let b = turns before (new_log_buffer asked) in
    let r = turns-Ready before _ (new-Ready asked) in
    let (e, number) = snapshot_next b r.is_open in
    let f =
      turns-Follows (snapshot b).0.1.key [] [] after (snapshot b).1 e n (snapshot-Follows b r) in
    subst
      (λ k.
        Follows (snapshot b).0.1.key (written k (writes_of after))
          (received (snapshot b).0.1.key after (snapshot b).1) (turns after (snapshot b).1))
      number f
