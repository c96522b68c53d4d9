-- ===== src/Enroll/RateLimit/Window.antt =====
-- No window of the limiter's length holds more allowed attempts than the limits say.
use f1337_mcp.Enroll.RateLimit.Peers.{UniqueKeys}
use f1337_mcp.Prelude.{
  ℕ, ◌≤◌, ◌<◌, ◌≡◌, Bool, true, false, List, [], ◌∷◌, if◌then◌else◌, length, Text, eq_text,
}
use f1337_mcp.Enroll.RateLimit.{RateLimiter, after, hits_at, Attempts}

abbrev pub times : Attempts → List ℕ
times [] = []
times ((addr, t) ∷ log) = t ∷ times log

abbrev pub times_of : Text → Attempts → List ℕ
times_of addr [] = []
times_of addr ((peer, t) ∷ log) =
    let rest = times_of addr log in if eq_text addr peer then t ∷ rest else rest

-- The attempts come in the order of their times, from `last` to `end`.
abbrev pub Ordered : ℕ → Attempts → ℕ → Type 0
Ordered last [] end = last ≤ end
Ordered last ((addr, now) ∷ rest) end = (last ≤ now) × Ordered now rest end

module _ (w per_peer global : ℕ) where
  -- The limiter holds what matters of the log of allowed attempts, from `last` on.
  record Tracks (l : RateLimiter) (log : Attempts) (last : ℕ) : Type 0 where
    window : l.window ≡ w
    peer_limit : l.per_peer ≡ per_peer
    global_limit : l.global ≡ global
    unique : UniqueKeys l.peers
    all_fit : 0 < global → length l.all_hit ≤ global
    each_fit : (k : Text) → 0 < per_peer → length (hits_at k l.peers) ≤ per_peer
    all_log : (now : ℕ) → last ≤ now → after w now l.all_hit ≡ after w now (times log)
    each_log :
        (k : Text) (now : ℕ)
        → last ≤ now
        → after w now (hits_at k l.peers) ≡ after w now (times_of k log)

  abbrev allowed_log : Bool → Text → ℕ → Attempts
  allowed_log true addr now = (addr, now) ∷ []
  allowed_log false addr now = []
