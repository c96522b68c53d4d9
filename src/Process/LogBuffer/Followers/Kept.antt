-- ===== src/Process/LogBuffer/Followers/Kept.antt =====
-- One turn of the buffer of internal/agent/process/logbuf.go, for a follower of it.
use f1337_mcp.Prelude.{
  ==-false, ℕ, ◌+◌, ◌≤◌, ◌≡◌, refl, ap, ◌∙◌, ◌≢◌, inl, inr, true, false, some, List, [], ◌∷◌, ◌++◌,
  map, append_assoc, append-nil, arith, ◌==◌, ==_iff, Bool-cases, length,
}
use f1337_mcp.Process.LogBuffer.{
  count_line, next_line, deliver, push_line, LogLine, Delivery, Subscriber, LogBuffer, append,
  snapshot, receive, unsubscribe,
}
use f1337_mcp.Process.LogBuffer.Writes.{Write, written}
use f1337_mcp.Process.LogBuffer.Followers.{
  Turn, wrote, joined, left, took, find_sub, rest_of, oldest_of, take_one, turn, got, writes_of,
  Keeps, Follows,
}
use f1337_mcp.Process.LogBuffer.Followers.Carried.{deliver-Follows}
use f1337_mcp.Process.LogBuffer.Followers.Keys.{
  find_sub-key, find_sub-map, find_sub-append, find_sub-without, deliver_key, take_one_key,
}

-- What `append` does to an open buffer, apart from its ring.
pub record Appended (w : Write) (b b' : LogBuffer) : Type 0 where
  pub open_still : b'.closed ≡ false
  pub number : b'.next_seq ≡ b.next_seq + 1
  pub keys : b'.next_key ≡ b.next_key
  pub fanned :
      (line : LogLine) × (written b.next_seq (w ∷ []) ≡ line ∷ [])
      × (b'.subs ≡ map (deliver line) b.subs)

pub append-Appended :
    (w : Write) (b : LogBuffer)
    → b.closed ≡ false
    → Appended w b (append w.stream w.text w.at w.cont b)
unfolding append push_line next_line count_line written
append-Appended w b e = elim (Bool-cases (b.size == b.cap_lines)) [
  | inl full ↦
      rw e (
        rw full
          (record { open_still = refl; number = refl; keys = refl; fanned = (_, refl, refl) }))
  | inr room ↦
      rw e (
        rw room
          (record { open_still = refl; number = refl; keys = refl; fanned = (_, refl, refl) }))
]

-- One turn keeps the follower, whose lines are then those written and the new one, if there is one.
wrote-Follows :
    (key : ℕ) (lines : List LogLine) (seen : List Delivery) (w : Write) (b b' : LogBuffer)
    → Appended w b b'
    → Follows key lines seen b
    → Follows key (lines ++ written b.next_seq (w ∷ [])) seen b'
wrote-Follows key lines seen w b b' a f =
    let (line, one, subs) = a.fanned in
    let (c, h) = deliver-Follows key lines seen line f.sub f.carried f.bounded in
    record {
      sub = deliver line f.sub;
      found =
          ap (λ l. find_sub key l) subs
          ∙ find_sub-map key (deliver line) b.subs f.sub (deliver_key line) f.found;
      carried = rw one c;
      bounded = h;
    }

-- What is taken off the channel is what was seen.
taken_parts :
    (key pending : ℕ) (ds : List Delivery)
    → let s : Subscriber = record { key = key; queue = ds; pending = pending } in
      (oldest_of (some s) ++ (rest_of s).queue ≡ ds)
      × ((rest_of s).pending ≡ pending)
      × (length (rest_of s).queue ≤ length ds)
unfolding oldest_of rest_of receive
taken_parts key pending [] = (refl, refl, omega arith)
taken_parts key pending (d ∷ ds) = (refl, refl, omega arith)

took-Follows :
    (key : ℕ) (lines : List LogLine) (seen : List Delivery) (b : LogBuffer)
    → Follows key lines seen b
    → Follows key lines (seen ++ oldest_of (find_sub key b.subs)) (turn (took key) b)
unfolding turn take_one
took-Follows key lines seen b f =
    let s = f.sub in
    let (all_of, dropped, shorter) = taken_parts s.key s.pending s.queue in
    let mine : (s.key == key) ≡ true = (==_iff s.key key).1 (find_sub-key key b.subs s f.found) in
    let taken : take_one key s ≡ rest_of s = rw mine refl in
    record {
      sub = rest_of s;
      found =
          find_sub-map key (take_one key) b.subs s (take_one_key key) f.found
          ∙ ap (λ t. some t) taken;
      carried = rw f.found (rw dropped (rw append_assoc (rw all_of f.carried)));
      bounded = omega (arith, shorter, f.bounded);
    }

other-Follows :
    (key k : ℕ) (lines : List LogLine) (seen : List Delivery) (b : LogBuffer)
    → k ≢ key
    → Follows key lines seen b
    → Follows key lines seen (turn (took k) b)
unfolding turn take_one
other-Follows key k lines seen b n f =
    let s = f.sub in
    let not_mine : (s.key == k) ≡ false = ground (arith, find_sub-key key b.subs s f.found, n) in
    let kept : take_one k s ≡ s = rw not_mine refl in
    record {
      sub = s;
      found =
          find_sub-map key (take_one k) b.subs s (take_one_key k) f.found ∙ ap (λ t. some t) kept;
      carried = f.carried;
      bounded = f.bounded;
    }

joined-Follows :
    (key : ℕ) (lines : List LogLine) (seen : List Delivery) (b : LogBuffer)
    → b.closed ≡ false
    → Follows key lines seen b
    → Follows key lines seen (turn joined b)
unfolding turn snapshot
joined-Follows key lines seen b e f = rw e (record {
  sub = f.sub;
  found = find_sub-append key b.subs _ f.sub f.found;
  carried = f.carried;
  bounded = f.bounded;
})

left-Follows :
    (key k : ℕ) (lines : List LogLine) (seen : List Delivery) (b : LogBuffer)
    → k ≢ key
    → Follows key lines seen b
    → Follows key lines seen (turn (left k) b)
unfolding turn unsubscribe
left-Follows key k lines seen b n f = record {
  sub = f.sub;
  found = find_sub-without key k b.subs f.sub n f.found;
  carried = f.carried;
  bounded = f.bounded;
}

-- One turn of an open buffer keeps it open, and numbers on by the lines that it writes.
pub turn-open :
    (t : Turn) (b : LogBuffer)
    → b.closed ≡ false
    → ((turn t b).closed ≡ false) × ((turn t b).next_seq ≡ b.next_seq + length (writes_of (t ∷ [])))
unfolding turn writes_of snapshot unsubscribe
turn-open (wrote w) b e = let a = append-Appended w b e in (a.open_still, a.number)
turn-open joined b e = rw e (refl, omega arith)
turn-open (left k) b e = (e, omega arith)
turn-open (took k) b e = (e, omega arith)

pub turn-Follows :
    (key : ℕ) (lines : List LogLine) (seen : List Delivery) (t : Turn) (b : LogBuffer)
    → b.closed ≡ false
    → Keeps key t
    → Follows key lines seen b
    → Follows key
        (lines ++ written b.next_seq (writes_of (t ∷ [])))
        (seen ++ got key t b)
        (turn t b)
unfolding writes_of got turn append written snapshot
turn-Follows key lines seen (wrote w) b e n f =
    rw (append-nil seen) (wrote-Follows key lines seen w b _ (append-Appended w b e) f)
turn-Follows key lines seen joined b e n f =
    rw (append-nil seen) (rw (append-nil lines) (joined-Follows key lines seen b e f))
turn-Follows key lines seen (left k) b e n f =
    rw (append-nil seen)
      (rw (append-nil lines) (left-Follows key k lines seen b (λ p. n (ap left p)) f))
turn-Follows key lines seen (took k) b e n f = elim (Bool-cases (k == key)) [
  | inl mine ↦
      let same : k ≡ key = (==_iff k key).0 mine in
      rw mine (rw (append-nil lines) (rw same (took-Follows key lines seen b f)))
  | inr other ↦ rw other (
      rw (append-nil seen)
        (rw (append-nil lines) (other-Follows key k lines seen b (==-false k key other) f)))
]
