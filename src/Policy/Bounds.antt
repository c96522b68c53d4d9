-- ===== src/Policy/Bounds.antt =====
-- What the caps guarantee.
use Prim.Native.Nat.{min}
use mathlib.Core.Bool.{false≢true}
use f1337_mcp.Prelude.{
  ◌==◌, ◌<◌, ◌-◌, ℕ, zero, suc, ◌+◌, ◌≤◌, ◌≡◌, refl, sym, inl, inr, Bool, true, false, not, ◌&&◌,
  Option, none, some, List, [], ◌∷◌, ◌++◌, arith, ltb, if◌then◌else◌, ltb→lt, Bool-cases, get_or,
  set,
}
use f1337_mcp.Policy.Limits.{
  max_bytes, output_cap, no_timeout, timeout_too_long, ℤ, pos, negsuc, Caps, is_positive,
  is_negative, is_zero, greater, Limited, granted, timeout, Slots, new_slots, take_slot, acquire,
  release,
}

-- The deadline that a request asks for: its own, or the default if it names none.
unfoldable pub wanted : Caps → ℤ → ℤ
wanted caps asked = if is_zero asked then caps.default_timeout else asked

unfoldable pub granted_of : Limited → Option ℤ
granted_of (granted t) = some t
granted_of _ = none

granted-if :
    (late good : Bool) (t : ℤ)
    → granted_of (if late then timeout_too_long else if not good then no_timeout else granted t)
      ≡ (if good && not late then some t else none)
unfolding granted_of
granted-if true true t = refl
granted-if true false t = refl
granted-if false true t = refl
granted-if false false t = refl

-- A request gets exactly the deadline that it asks for, or the default if it names none, when that is
-- positive and does not exceed a configured maximum, and nothing otherwise: no command runs without a
-- deadline, or with one that was shortened.
pub timeout_outcome :
    (caps : Caps) (asked : ℤ)
    → granted_of (timeout caps asked) ≡ (
        if is_positive (wanted caps asked)
          && not (is_positive caps.max_timeout && greater (wanted caps asked) caps.max_timeout)
        then some (wanted caps asked)
        else none)
unfolding timeout granted_of wanted is_negative is_zero is_positive greater
timeout_outcome caps (negsuc n) = refl
timeout_outcome caps (pos n) =
    granted-if (is_positive caps.max_timeout && greater (wanted caps (pos n)) caps.max_timeout)
      (is_positive (wanted caps (pos n))) (wanted caps (pos n))

-- The release functions that have not run yet.
unfoldable pub held : List Bool → ℕ
held [] = 0
held (true ∷ bs) = held bs
held (false ∷ bs) = suc (held bs)

-- The slots in use are within the channel's capacity, if there is a channel.
unfoldable pub Within : Option ℕ → ℕ → Type 0
Within none k = Unit
Within (some n) k = k ≤ n

-- The channel holds one value for each release function that has not run, and never more than it can.
unfoldable pub IsHeld : Slots → Type 0
unfolding held Within
IsHeld s = (s.in_use ≡ held s.released) × Within s.capacity s.in_use

-- One call: an `Acquire`, or some release function run, perhaps not for the first time.
pub data SlotCall : Type 0 where
  acquiring : SlotCall
  releasing : ℕ → SlotCall

unfoldable pub slot_calls : List SlotCall → Slots → Slots
unfolding acquire release
slot_calls [] s = s
slot_calls (acquiring ∷ cs) s = slot_calls cs (acquire s).1
slot_calls (releasing handle ∷ cs) s = slot_calls cs (release handle s)

held-snoc : (bs : List Bool) → held (bs ++ false ∷ []) ≡ held bs + 1
unfolding held
held-snoc [] = omega arith
held-snoc (true ∷ bs) = held-snoc bs
held-snoc (false ∷ bs) = omega (arith, held-snoc bs)

held-set : (bs : List Bool) (i : ℕ) → get_or bs i true ≡ false → held (set bs i true) + 1 ≡ held bs
unfolding held
held-set [] i h = absurd (false≢true (sym h))
held-set (true ∷ bs) zero h = absurd (false≢true (sym h))
held-set (false ∷ bs) zero h = omega arith
held-set (true ∷ bs) (suc i) h = held-set bs i h
held-set (false ∷ bs) (suc i) h = omega (arith, held-set bs i h)

Within-more : (n k : ℕ) → k < n → Within (some n) (k + 1)
unfolding Within
Within-more n k h = omega (arith, h)

Within-less : (o : Option ℕ) (k : ℕ) → Within o k → Within o (k - 1)
unfolding Within
Within-less none k h = tt
Within-less (some n) k h = omega (arith, h)

take_slot-IsHeld :
    (s : Slots) → IsHeld s → (c : Option ℕ) → s.capacity ≡ c → IsHeld (take_slot c s).1
unfolding take_slot IsHeld
take_slot-IsHeld s h none e = h
take_slot-IsHeld s h (some n) e = elim (Bool-cases (ltb s.in_use n)) [
  | inl f ↦ rw f (
    omega (arith, h.0, held-snoc s.released),
    rw e (Within-more n s.in_use (ltb→lt s.in_use n f)),
  )
  | inr f ↦ rw f h
]

release-IsHeld : (handle : ℕ) (s : Slots) → IsHeld s → IsHeld (release handle s)
unfolding release IsHeld
release-IsHeld handle s h = elim (Bool-cases (get_or s.released handle true)) [
  | inl e ↦ rw e h
  | inr e ↦
      rw e (omega (arith, h.0, held-set s.released handle e), Within-less s.capacity s.in_use h.1)
]

slot_calls-IsHeld : (cs : List SlotCall) (s : Slots) → IsHeld s → IsHeld (slot_calls cs s)
unfolding slot_calls acquire
slot_calls-IsHeld [] s h = h
slot_calls-IsHeld (acquiring ∷ cs) s h =
    slot_calls-IsHeld cs (acquire s).1 (take_slot-IsHeld s h s.capacity refl)
slot_calls-IsHeld (releasing handle ∷ cs) s h =
    slot_calls-IsHeld cs (release handle s) (release-IsHeld handle s h)

new_slots-IsHeld : (limit : ℤ) → IsHeld (new_slots limit)
unfolding new_slots IsHeld held
new_slots-IsHeld (pos zero) = (refl, tt)
new_slots-IsHeld (pos (suc m)) = (refl, omega arith)
new_slots-IsHeld (negsuc m) = (refl, tt)

-- However acquisitions and releases follow each other, and however often a release function is run again,
-- the slots in use are those whose release function has not run, and they never exceed the limit.
pub slots_bounded : (limit : ℤ) (cs : List SlotCall) → IsHeld (slot_calls cs (new_slots limit))
slots_bounded limit cs = slot_calls-IsHeld cs (new_slots limit) (new_slots-IsHeld limit)

-- The cap on a command's output is the smaller of the request and the configured maximum, where 0 on
-- either side means that it sets no bound.
pub output_cap_closed :
    (caps : Caps) (requested : ℕ)
    → output_cap caps requested ≡ (
        if max_bytes caps.max_output_bytes == 0
        then requested
        else if requested == 0
        then max_bytes caps.max_output_bytes
        else min requested (max_bytes caps.max_output_bytes))
unfolding output_cap
output_cap_closed caps requested = ground arith
