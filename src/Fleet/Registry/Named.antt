-- ===== src/Fleet/Registry/Named.antt =====
-- The registry's invariant: every sandbox has a name, and no two have the same.
use mathlib.Core.Option.{some-injective}
use f1337_mcp.Prelude.{
  eq_text-false, some≢none, ◌≡◌, refl, sym, ◌⊎◌, inl, inr, false, ◌||◌, Option, none, some, List,
  [], ◌∷◌, ◌++◌, Bool-cases, Option-cases, Text, eq_text,
}
use f1337_mcp.Fleet.Registry.{
  Sandbox, Stored, Access, Answer, done, failed, load, save, written, mutate, find_named,
  kept_before, drop_named, change_named,
}

unfoldable pub Named : List Sandbox → Type 0
Named [] = Unit
Named (sb ∷ sbs) = (eq_text sb.name [] ≡ false) × (find_named sb.name sbs ≡ none) × Named sbs

unfoldable pub IsFleet : Option Stored → Type 0
unfolding load
IsFleet file = Named (load file).sandboxes

find_named-append :
    (n : Text) (sbs : List Sandbox) (sb : Sandbox)
    → find_named n sbs ≡ none
    → eq_text sb.name n ≡ false
    → find_named n (sbs ++ sb ∷ []) ≡ none
unfolding find_named
find_named-append n [] sb h e = rw e refl
find_named-append n (x ∷ sbs) sb h e = elim (Bool-cases (eq_text x.name n)) [
  | inl p ↦ absurd (some≢none x (rw p at h))
  | inr p ↦ rw p (find_named-append n sbs sb (rw p at h) e)
]

pub append-Named :
    (sbs : List Sandbox) (sb : Sandbox)
    → eq_text sb.name [] ≡ false
    → find_named sb.name sbs ≡ none
    → Named sbs
    → Named (sbs ++ sb ∷ [])
unfolding Named find_named
append-Named [] sb e h v = (e, refl, tt)
append-Named (x ∷ sbs) sb e h v = elim (Bool-cases (eq_text x.name sb.name)) [
  | inl p ↦ absurd (some≢none x (rw p at h))
  | inr p ↦ (
    v.0,
    find_named-append x.name sbs sb v.1 (eq_text-false x.name sb.name p),
    append-Named sbs sb e (rw p at h) v.2,
  )
]

drop_named-cons :
    (m : Text) (x : Sandbox) (sbs kept : List Sandbox)
    → drop_named m (x ∷ sbs) ≡ some kept
    → (sbs ≡ kept) ⊎ ((r : List Sandbox) × (drop_named m sbs ≡ some r) × (x ∷ r ≡ kept))
unfolding drop_named kept_before
drop_named-cons m x sbs kept h = elim (Bool-cases (eq_text x.name m)) [
  | inl p ↦ inl (some-injective sbs kept (rw p at h))
  | inr p ↦ elim (Option-cases (drop_named m sbs)) [
    | inl e ↦ absurd (some≢none kept (sym (rw (p, e) at h)))
    | inr (r, e) ↦ inr (r, e, some-injective (x ∷ r) kept (rw (p, e) at h))
  ]
]

-- A name that no sandbox has is absent without one of the sandboxes too.
find_named-drop :
    (n m : Text) (sbs kept : List Sandbox)
    → drop_named m sbs ≡ some kept
    → find_named n sbs ≡ none
    → find_named n kept ≡ none
unfolding find_named drop_named
find_named-drop n m [] kept h a = absurd (some≢none kept (sym h))
find_named-drop n m (x ∷ sbs) kept h a = elim (Bool-cases (eq_text x.name n)) [
  | inl p ↦ absurd (some≢none x (rw p at a))
  | inr p ↦ elim (drop_named-cons m x sbs kept h) [
    | inl e ↦ rw (sym e) (rw p at a)
    | inr (r, e, q) ↦ rw (sym q) (rw p (find_named-drop n m sbs r e (rw p at a)))
  ]
]

pub drop_named-Named :
    (m : Text) (sbs kept : List Sandbox) → drop_named m sbs ≡ some kept → Named sbs → Named kept
unfolding Named drop_named
drop_named-Named m [] kept h v = absurd (some≢none kept (sym h))
drop_named-Named m (x ∷ sbs) kept h v = elim (drop_named-cons m x sbs kept h) [
  | inl e ↦ rw (sym e) v.2
  | inr (r, e, q) ↦
      rw (sym q) (v.0, find_named-drop x.name m sbs r e v.1, drop_named-Named m sbs r e v.2)
]

-- A change to a sandbox that keeps its name.
unfoldable pub KeepsName : (Sandbox → Sandbox) → Type 0
KeepsName f = (sb : Sandbox) → (f sb).name ≡ sb.name

change_named-cons :
    (f : Sandbox → Sandbox) (m : Text) (x : Sandbox) (sbs kept : List Sandbox)
    → change_named f m (x ∷ sbs) ≡ some kept
    → (f x ∷ sbs ≡ kept) ⊎ ((r : List Sandbox) × (change_named f m sbs ≡ some r) × (x ∷ r ≡ kept))
unfolding change_named kept_before
change_named-cons f m x sbs kept h = elim (Bool-cases (eq_text x.name m)) [
  | inl p ↦ inl (some-injective (f x ∷ sbs) kept (rw p at h))
  | inr p ↦ elim (Option-cases (change_named f m sbs)) [
    | inl e ↦ absurd (some≢none kept (sym (rw (p, e) at h)))
    | inr (r, e) ↦ inr (r, e, some-injective (x ∷ r) kept (rw (p, e) at h))
  ]
]

find_named-change :
    (f : Sandbox → Sandbox)
    → KeepsName f
    → (n m : Text) (sbs kept : List Sandbox) → change_named f m sbs ≡ some kept
    → find_named n sbs ≡ none
    → find_named n kept ≡ none
unfolding find_named KeepsName change_named
find_named-change f keeps n m [] kept h a = absurd (some≢none kept (sym h))
find_named-change f keeps n m (x ∷ sbs) kept h a = elim (Bool-cases (eq_text x.name n)) [
  | inl p ↦ absurd (some≢none x (rw p at a))
  | inr p ↦ elim (change_named-cons f m x sbs kept h) [
    | inl e ↦ rw (sym e) (rw (keeps x) (rw p (rw p at a)))
    | inr (r, e, q) ↦ rw (sym q) (rw p (find_named-change f keeps n m sbs r e (rw p at a)))
  ]
]

pub change_named-Named :
    (f : Sandbox → Sandbox)
    → KeepsName f
    → (m : Text) (sbs kept : List Sandbox) → change_named f m sbs ≡ some kept
    → Named sbs
    → Named kept
unfolding Named KeepsName change_named
change_named-Named f keeps m [] kept h v = absurd (some≢none kept (sym h))
change_named-Named f keeps m (x ∷ sbs) kept h v = elim (change_named-cons f m x sbs kept h) [
  | inl e ↦ rw (sym e) (rw (keeps x) v.0, rw (keeps x) v.1, v.2)
  | inr (r, e, q) ↦ rw (sym q) (
    v.0,
    find_named-change f keeps x.name m sbs r e v.1,
    change_named-Named f keeps m sbs r e v.2,
  )
]

-- A callback that leaves a fleet named.
unfoldable pub KeepsNamed : {A : Type 0} → (Stored → Answer (A × Stored)) → Type 0
KeepsNamed {A = A} fn =
    (s s' : Stored) (a : A) → Named s.sandboxes → fn s ≡ done (a, s') → Named s'.sandboxes

written-IsFleet :
    {A : Type 0} (d : Access) (file : Option Stored) (x : Answer (A × Stored))
    → ((s : Stored) (a : A) → x ≡ done (a, s) → Named s.sandboxes)
    → IsFleet file
    → IsFleet (written d file x).1
unfolding written IsFleet load save
written-IsFleet d file (failed x) h v = v
written-IsFleet d file (done (a, s)) h v = elim (Bool-cases d.save_fails) [
  | inl e ↦ rw e v
  | inr e ↦ rw e (h s a refl)
]

pub mutate-IsFleet :
    {A : Type 0} (d : Access) (file : Option Stored) (fn : Stored → Answer (A × Stored))
    → KeepsNamed fn
    → IsFleet file
    → IsFleet (mutate d file fn).1
unfolding mutate KeepsNamed IsFleet
mutate-IsFleet d file fn keeps v = elim (Bool-cases (d.lock_fails || d.load_fails)) [
  | inl e ↦ rw e v
  | inr e ↦
      rw e
        (written-IsFleet d file (fn (load file)) (λ s a. keeps (load file) s a (loaded file v)) v)
]
  where
    loaded : (file : Option Stored) → IsFleet file → Named (load file).sandboxes
    loaded file v = v
