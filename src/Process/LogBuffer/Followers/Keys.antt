-- ===== src/Process/LogBuffer/Followers/Keys.antt =====
-- Finding a follower of internal/agent/process/logbuf.go by its key, after each change of the set.
use mathlib.Core.Option.{some-injective}
use f1337_mcp.Prelude.{
  ℕ, ◌<◌, ◌≡◌, refl, ap, ◌≢◌, inl, inr, true, false, some, List, [], ◌∷◌, ◌++◌, map, arith, ◌==◌,
  Bool-cases, All,
}
use f1337_mcp.Process.LogBuffer.{deliver, without, LogLine, Delivery, Subscriber, receive}
use f1337_mcp.Process.LogBuffer.Followers.{find_sub, rest_of, take_one}

pub find_sub-key :
    (key : ℕ) (subs : List Subscriber) (s : Subscriber) → find_sub key subs ≡ some s → s.key ≡ key
unfolding find_sub
find_sub-key key [] s h = absurd (cc)
find_sub-key key (t ∷ subs) s h = ground (arith, find_sub-key key subs s)

pub find_sub-map :
    (key : ℕ) (g : Subscriber → Subscriber) (subs : List Subscriber) (s : Subscriber)
    → ((t : Subscriber) → (g t).key ≡ t.key)
    → find_sub key subs ≡ some s
    → find_sub key (map g subs) ≡ some (g s)
unfolding find_sub
find_sub-map key g [] s k h = absurd (cc)
find_sub-map key g (t ∷ subs) s k h = elim (Bool-cases (t.key == key)) [
  | inl e ↦
      let e' : ((g t).key == key) ≡ true = rw (k t) e in
      let same : t ≡ s = some-injective t s (rw e at h) in rw e' (ap (λ u. some (g u)) same)
  | inr e ↦
      let e' : ((g t).key == key) ≡ false = rw (k t) e in
      rw e' (find_sub-map key g subs s k (rw e at h))
]

pub find_sub-append :
    (key : ℕ) (subs more : List Subscriber) (s : Subscriber)
    → find_sub key subs ≡ some s
    → find_sub key (subs ++ more) ≡ some s
unfolding find_sub
find_sub-append key [] more s h = absurd (cc)
find_sub-append key (t ∷ subs) more s h = ground (arith, find_sub-append key subs more s)

pub find_sub-without :
    (key gone : ℕ) (subs : List Subscriber) (s : Subscriber)
    → gone ≢ key
    → find_sub key subs ≡ some s
    → find_sub key (without gone subs) ≡ some s
unfolding find_sub without
find_sub-without key gone [] s n h = absurd (cc)
find_sub-without key gone (t ∷ subs) s n h = ground (arith, find_sub-without key gone subs s n)

pub find_sub-fresh :
    (key : ℕ) (subs : List Subscriber) (s : Subscriber)
    → All (λ t. t.key < key) subs
    → s.key ≡ key
    → find_sub key (subs ++ s ∷ []) ≡ some s
unfolding find_sub
find_sub-fresh key [] s a e = ground arith
find_sub-fresh key (t ∷ subs) s a e = ground (arith, find_sub-fresh key subs s)

pub deliver_key : (line : LogLine) (s : Subscriber) → (deliver line s).key ≡ s.key
unfolding deliver
deliver_key line s = ground arith

rest_of_parts :
    (key pending : ℕ) (ds : List Delivery)
    → (rest_of (record { key = key; queue = ds; pending = pending })).key ≡ key
unfolding rest_of receive
rest_of_parts key pending [] = refl
rest_of_parts key pending (d ∷ ds) = refl

rest_of_key : (s : Subscriber) → (rest_of s).key ≡ s.key
rest_of_key s = rest_of_parts s.key s.pending s.queue

pub take_one_key : (key : ℕ) (s : Subscriber) → (take_one key s).key ≡ s.key
unfolding take_one
take_one_key key s = ground (arith, rest_of_key s)
