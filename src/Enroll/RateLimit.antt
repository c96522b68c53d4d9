-- ===== src/Enroll/RateLimit.antt =====
-- internal/security/enroll/ratelimit.go: the limiter of enrollment attempts. A time is a number of
-- nanoseconds, the map of peers an association list with each key once, and a limit that is not
-- positive, which switches its dimension off, is 0.
pub mod Peers
pub mod Window
use f1337_mcp.Prelude.{
  ℕ, zero, suc, ◌+◌, ◌-◌, ◌*◌, ◌/◌, ◌%◌, ◌^◌, ◌≤◌, ◌<◌, ◌≡◌, refl, sym, ap, ◌∙◌, ◌≢◌, ◌↔◌, ◌⊎◌, inl,
  inr, Bool, true, false, not, ◌&&◌, ◌||◌, Option, none, some, List, [], ◌∷◌, ◌++◌, map,
  append_assoc, append-nil, arith, ltb, leb, ◌==◌, if◌then◌else◌, ltb→lt, lt→ltb, ==_iff,
  Bool-cases, Option-cases, is_some, length, get_elem?, get_or, set, take, drop, replicate, any,
  all, All, length-append, length-set, length-replicate, length-take, length-drop, take-append-drop,
  get_or-set_self, get_or-set_ne, Text, codes, eq_text, eq_text_iff, eq_text_refl, has_prefix,
  is_space, trim_left, trim_space, contains_byte, lower_byte,
}

pub record RateLimiter : Type 0 where
  pub window : ℕ
  pub per_peer : ℕ
  pub global : ℕ
  pub peers : List (Text × List ℕ)
  pub all_hit : List ℕ

abbrev pub default_rate_window : ℕ
default_rate_window = 60_000_000_000

unfoldable pub new_rate_limiter : ℕ → ℕ → ℕ → RateLimiter
new_rate_limiter window per_peer global = record {
  window = if window == 0 then default_rate_window else window;
  per_peer = per_peer;
  global = global;
  peers = [];
  all_hit = [];
}

-- `t.After(cutoff)` for the cutoff `now - window`, with the subtraction moved across.
abbrev pub is_after : ℕ → ℕ → ℕ → Bool
is_after window now t = ltb now (t + window)

unfoldable pub after : ℕ → ℕ → List ℕ → List ℕ
after window now [] = []
after window now (t ∷ hits) =
    let rest = after window now hits in if is_after window now t then t ∷ rest else rest

abbrev pub keep_peer : Text → List ℕ → List (Text × List ℕ) → List (Text × List ℕ)
keep_peer addr [] rest = rest
keep_peer addr (t ∷ hits) rest = (addr, t ∷ hits) ∷ rest

-- The sweep over every peer: those with no hit left are deleted.
unfoldable pub sweep : ℕ → ℕ → List (Text × List ℕ) → List (Text × List ℕ)
sweep window now [] = []
sweep window now ((addr, hits) ∷ m) = keep_peer addr (after window now hits) (sweep window now m)

unfoldable pub hits_at : Text → List (Text × List ℕ) → List ℕ
hits_at addr [] = []
hits_at addr ((peer, hits) ∷ m) = if eq_text addr peer then hits else hits_at addr m

unfoldable pub put_hits : Text → List ℕ → List (Text × List ℕ) → List (Text × List ℕ)
put_hits addr new [] = (addr, new) ∷ []
put_hits addr new ((peer, hits) ∷ m) =
    if eq_text addr peer then (peer, new) ∷ m else (peer, hits) ∷ put_hits addr new m

unfoldable pub swept : ℕ → RateLimiter → RateLimiter
swept now l = record l {
  peers = sweep l.window now l.peers;
  all_hit = after l.window now l.all_hit;
}

-- The tests of both limits, and the record of the attempt.
unfoldable pub admit : Text → ℕ → RateLimiter → Bool × RateLimiter
admit addr now l =
    let hits = hits_at addr l.peers in
    if ltb 0 l.global && leb l.global (length l.all_hit)
    then (false, l)
    else if ltb 0 l.per_peer && leb l.per_peer (length hits)
    then (false, l)
    else (
      true,
      record l {
        peers = put_hits addr (hits ++ now ∷ []) l.peers;
        all_hit = l.all_hit ++ now ∷ [];
      },
    )

-- true where the attempt is allowed; false is ErrRateLimited. The sweep stays either way.
unfoldable pub allow : Text → ℕ → RateLimiter → Bool × RateLimiter
unfolding admit swept
allow addr now l = admit addr now (swept now l)

-- Attempts in order, each an address and the time of the call, with those that were allowed.
abbrev pub Attempts : Type 0
Attempts = List (Text × ℕ)

unfoldable pub serve_attempts : RateLimiter → Attempts → RateLimiter × Attempts
serve_attempts l [] = (l, [])
serve_attempts l ((addr, now) ∷ rest) =
    let (fine, l') = allow addr now l in
    let (last, allowed) = serve_attempts l' rest in
    (last, if fine then (addr, now) ∷ allowed else allowed)
