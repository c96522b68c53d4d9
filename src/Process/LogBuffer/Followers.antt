-- ===== src/Process/LogBuffer/Followers.antt =====
-- What reaches a follower of the log buffer, over every interleaving of writes, reads and subscriptions.
pub mod Carried
pub mod Keys
pub mod Kept
pub mod Gapless
use f1337_mcp.Prelude.{
  ℕ, ◌+◌, ◌≤◌, ◌≡◌, ◌≢◌, Option, none, some, List, [], ◌∷◌, ◌++◌, map, ◌==◌, if◌then◌else◌, length,
}
use f1337_mcp.Process.LogBuffer.{
  LogLine, Delivery, Subscriber, LogBuffer, subscriber_queue, append, snapshot, receive,
  unsubscribe,
}
use f1337_mcp.Process.LogBuffer.Writes.{Write}

-- What happens to a buffer: a line is written, a follower joins or leaves, or it takes a delivery off
-- its channel.
pub data Turn : Type 0 where
  wrote : Write → Turn
  joined : Turn
  left : ℕ → Turn
  took : ℕ → Turn

unfoldable pub find_sub : ℕ → List Subscriber → Option Subscriber
find_sub key [] = none
find_sub key (s ∷ subs) = let rest = find_sub key subs in if s.key == key then some s else rest

-- A subscriber with its oldest delivery taken; a follower of an empty channel waits.
unfoldable pub rest_of : Subscriber → Subscriber
unfolding receive
rest_of s = elim (receive s) [ none ↦ s | some r ↦ r.1 ]

unfoldable pub oldest_of : Option Subscriber → List Delivery
unfolding receive
oldest_of none = []
oldest_of (some s) = elim (receive s) [ none ↦ [] | some r ↦ r.0 ∷ [] ]

unfoldable pub take_one : ℕ → Subscriber → Subscriber
unfolding rest_of
take_one key s = if s.key == key then rest_of s else s

-- The subscriber is shared: what a follower takes is gone from the buffer's set too.
unfoldable pub turn : Turn → LogBuffer → LogBuffer
turn (wrote w) b = append w.stream w.text w.at w.cont b
turn joined b = (snapshot b).1
turn (left key) b = unsubscribe key b
turn (took key) b = record b { subs = map (take_one key) b.subs }

unfoldable pub turns : List Turn → LogBuffer → LogBuffer
turns [] b = b
turns (t ∷ ts) b = turns ts (turn t b)

-- What the follower with this key gets in one turn, and in all of them.
unfoldable pub got : ℕ → Turn → LogBuffer → List Delivery
got key (took k) b = if k == key then oldest_of (find_sub key b.subs) else []
got key _ b = []

unfoldable pub received : ℕ → List Turn → LogBuffer → List Delivery
received key [] b = []
received key (t ∷ ts) b = got key t b ++ received key ts (turn t b)

unfoldable pub writes_of : List Turn → List Write
writes_of [] = []
writes_of (wrote w ∷ ts) = w ∷ writes_of ts
writes_of (_ ∷ ts) = writes_of ts

-- The follower with this key is not unsubscribed.
abbrev pub Keeps : ℕ → Turn → Type 0
Keeps key t = t ≢ left key

-- The deliveries are lines of the list, in the order of the list, each with the number of lines that were passed
-- over before it, and `pending` lines are passed over behind the last.
unfoldable pub Carries : List LogLine → List Delivery → ℕ → Type 0
Carries lines [] pending = length lines ≡ pending
Carries lines (d ∷ ds) pending =
    (skipped : List LogLine) × (rest : List LogLine) × (lines ≡ skipped ++ d.line ∷ rest)
    × (length skipped ≡ d.dropped)
    × Carries rest ds pending

-- The follower with this key is subscribed, and what it has seen and has on its channel carries the lines.
pub record Follows (key : ℕ) (lines : List LogLine) (seen : List Delivery) (b : LogBuffer)
    : Type 0 where
  pub sub : Subscriber
  pub found : find_sub key b.subs ≡ some sub
  pub carried : Carries lines (seen ++ sub.queue) sub.pending
  pub bounded : length sub.queue ≤ subscriber_queue
