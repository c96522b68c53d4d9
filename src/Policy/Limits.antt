-- ===== src/Policy/Limits.antt =====
-- internal/security/policy/policy.go: the caps on time, output and concurrency. A time.Duration is a
-- signed number of nanoseconds and an int64 cap a signed number of bytes, both within their range.
use f1337_mcp.Prelude.{
  ℕ, zero, suc, ◌+◌, ◌-◌, Bool, true, false, not, ◌&&◌, ◌||◌, Option, none, some, List, [], ◌∷◌,
  ◌++◌, ltb, ◌==◌, if◌then◌else◌, get_or, set,
}

pub data ℤ : Type 0 where
  pos : ℕ → ℤ
  -- `negsuc n` is -(n + 1).
  negsuc : ℕ → ℤ

pub record Caps : Type 0 where
  pub default_timeout : ℤ
  pub max_timeout : ℤ
  pub max_output_bytes : ℤ
  pub max_concurrent : ℤ

-- `0 < a`
unfoldable pub is_positive : ℤ → Bool
is_positive (pos n) = ltb 0 n
is_positive (negsuc n) = false

-- `a > b`
unfoldable pub greater : ℤ → ℤ → Bool
greater (pos a) (pos b) = ltb b a
greater (pos a) (negsuc b) = true
greater (negsuc a) (pos b) = false
greater (negsuc a) (negsuc b) = ltb a b

unfoldable pub is_negative : ℤ → Bool
is_negative (pos n) = false
is_negative (negsuc n) = true

unfoldable pub is_zero : ℤ → Bool
is_zero (pos n) = n == 0
is_zero (negsuc n) = false

pub data Limited : Type 0 where
  granted : ℤ → Limited
  negative_timeout timeout_too_long no_timeout : Limited

unfoldable pub timeout : Caps → ℤ → Limited
unfolding is_negative is_zero is_positive greater
timeout caps asked =
    let requested = if is_zero asked then caps.default_timeout else asked in
    if is_negative asked
    then negative_timeout
    else if is_positive caps.max_timeout && greater requested caps.max_timeout
    then timeout_too_long
    else if not (is_positive requested)
    then no_timeout
    else granted requested

unfoldable pub max_bytes : ℤ → ℕ
max_bytes (pos n) = n
max_bytes (negsuc n) = 0

-- A result of 0 is "no cap". A request is an unsigned number.
unfoldable pub output_cap : Caps → ℕ → ℕ
unfolding max_bytes
output_cap caps requested =
    let most = max_bytes caps.max_output_bytes in
    if requested == 0 || (ltb 0 most && ltb most requested) then most else requested

-- The slots: the channel's capacity, `none` for a nil channel, how many values it holds, and for each
-- release function given out whether its `once` has run.
pub record Slots : Type 0 where
  pub capacity : Option ℕ
  pub in_use : ℕ
  pub released : List Bool

unfoldable pub new_slots : ℤ → Slots
new_slots (pos zero) = record { capacity = none; in_use = 0; released = [] }
new_slots (pos (suc n)) = record { capacity = some (suc n); in_use = 0; released = [] }
new_slots (negsuc n) = record { capacity = none; in_use = 0; released = [] }

-- `Acquire` that does not wait any longer: `false` is the error of the context that ended. The handle is
-- the position of the release function.
unfoldable pub take_slot : Option ℕ → Slots → Bool × Slots
take_slot none s = (true, s)
take_slot (some n) s =
    if ltb s.in_use n
    then (true, record s { in_use = s.in_use + 1; released = s.released ++ false ∷ [] })
    else (false, s)

unfoldable pub acquire : Slots → Bool × Slots
unfolding take_slot
acquire s = take_slot s.capacity s

-- The release function of that handle, called once more.
unfoldable pub release : ℕ → Slots → Slots
release handle s =
    if get_or s.released handle true
    then s
    else record s { in_use = s.in_use - 1; released = set s.released handle true }
