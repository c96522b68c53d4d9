-- ===== src/Fleet/Register/Outcome.antt =====
-- What a registration does to the registry, and what the names it accepts resolve to.
use f1337_mcp.Fleet.Selection.{first_of, at_or_lost, look_among, find_ref, at, Resolver, look_up}
use mathlib.Core.Bool.{false≢true}
use f1337_mcp.Prelude.{
  trim_space-solid, some≢none, ℕ, ◌≡◌, refl, inl, inr, Bool, true, false, ◌||◌, Option, none, some,
  List, [], ◌∷◌, ◌++◌, arith, ◌==◌, if◌then◌else◌, Bool-cases, Option-cases, any, All, Text, codes,
  eq_text, eq_text_refl, has_prefix, is_space,
}
use f1337_mcp.Fleet.Registry.{
  list_all, get, exists_already, Sandbox, Stored, Access, Answer, done, failed, add, adding, mutate,
  written, save, load, find_named,
}
use f1337_mcp.Fleet.Register.{
  taken_by, Rejection, Registered, registered, check_name, or_else, check_all, trimmed, concluded,
  register_checked, register, is_odd,
}

-- The entry as it is written: the time of the registration where none is given.
unfoldable pub stamped : ℕ → Sandbox → Sandbox
stamped now sb = record sb { enrolled_at = if sb.enrolled_at == 0 then now else sb.enrolled_at }

-- A registration's effect: with `true` the entry is new and at the end, with `false` nothing changes.
unfoldable pub Wrote : Bool → ℕ → Sandbox → Option Stored → Option Stored → Type 0
Wrote true now sb file file' =
    (find_named sb.name (load file).sandboxes ≡ none)
    × ((load file').sandboxes ≡ (load file).sandboxes ++ stamped now sb ∷ [])
Wrote false now sb file file' = file' ≡ file

unfoldable pub is_done : Answer (Unit {0}) → Bool
is_done (done a) = true
is_done (failed x) = false

pub add-Wrote :
    (d : Access) (now : ℕ) (sb : Sandbox) (file : Option Stored)
    → Wrote (is_done (add d now sb file).0) now sb file (add d now sb file).1
unfolding add mutate written adding save load stamped Wrote is_done
add-Wrote d now sb file = elim (Bool-cases (eq_text sb.name [])) [
  | inl e ↦ rw e refl
  | inr e ↦ elim (Bool-cases (d.lock_fails || d.load_fails)) [
    | inl f ↦ rw (e, f) refl
    | inr f ↦ elim (Option-cases (find_named sb.name (load file).sandboxes)) [
      | inr (x, g) ↦ rw (e, f, g, adding) refl
      | inl g ↦ elim (Bool-cases d.save_fails) [
        | inl k ↦ rw (e, f, g, k, adding) refl
        | inr k ↦ rw (e, f, g, k, adding) (g, refl)
      ]
    ]
  ]
]

unfoldable pub is_registered : Registered → Bool
is_registered (registered sb note) = true
is_registered _ = false

taken_by-refuses : (sb : Sandbox) (a : Answer Sandbox) → is_registered (taken_by sb a) ≡ false
unfolding taken_by is_registered
taken_by-refuses sb (done x) = refl
taken_by-refuses sb (failed x) = refl

concluded-Wrote :
    (d : Access) (now : ℕ) (sb : Sandbox) (file : Option Stored)
    (r : Answer (Unit {0}) × Option Stored)
    → Wrote (is_done r.0) now sb file r.1
    → Wrote (is_registered (concluded d sb r).0) now sb file (concluded d sb r).1
unfolding concluded is_registered is_done taken_by
concluded-Wrote d now sb file (done u, file') h = h
concluded-Wrote d now sb file (failed exists_already, file') h =
    rw (taken_by-refuses sb (get d sb.name file')) h
concluded-Wrote d now sb file (failed _, file') h = h

-- A registration either adds one entry, at the end of the list and under a name that no entry had, or
-- leaves the registry as it was: it never overwrites an entry.
pub register_adds :
    (split_host_port : Text → Option (Text × Text)) (atoi : Text → Option ℕ)
    (printable : Text → Bool) (d d' : Access) (now : ℕ) (given : Sandbox) (file : Option Stored)
    → Wrote
        (is_registered (register split_host_port atoi printable d d' now given file).0)
        now
        (trimmed given)
        file
        (register split_host_port atoi printable d d' now given file).1
unfolding register Wrote is_registered
register_adds s a p d d' now given file = go (trimmed given) (check_all s a p (trimmed given))
  where
    go :
        (sb : Sandbox) (o : Option Rejection)
        → Wrote
            (is_registered (register_checked d d' now sb o file).0)
            now
            sb
            file
            (register_checked d d' now sb o file).1
    go sb (some x) = refl
    go sb none = concluded-Wrote d' now sb file (add d now sb file) (add-Wrote d now sb file)

or_else-none : (x y : Option Rejection) → or_else x y ≡ none → x ≡ none
unfolding or_else
or_else-none (some r) y h = h
or_else-none none y h = refl

-- A name that is accepted has no white space and does not look like a handle.
check_name-none :
    (name : Text)
    → check_name name ≡ none
    → (any is_odd name ≡ false) × (has_prefix name (codes "sbx_") ≡ false)
unfolding check_name
check_name-none name h = ground (arith, h)

solid : (s : Text) → any is_odd s ≡ false → All (λ c. is_space c ≡ false) s
solid [] h = tt
solid (c ∷ s) h = ground (arith, solid s)

find_named-added :
    (n : Text) (sbs : List Sandbox) (sb : Sandbox)
    → find_named n sbs ≡ none
    → eq_text sb.name n ≡ true
    → find_named n (sbs ++ sb ∷ []) ≡ some sb
unfolding find_named
find_named-added n [] sb h e = rw e refl
find_named-added n (x ∷ sbs) sb h e = elim (Bool-cases (eq_text x.name n)) [
  | inl p ↦ absurd (some≢none x (rw p at h))
  | inr p ↦ rw p (find_named-added n sbs sb (rw p at h) e)
]

register_checked-none :
    (d d' : Access) (now : ℕ) (sb : Sandbox) (o : Option Rejection) (file : Option Stored)
    → is_registered (register_checked d d' now sb o file).0 ≡ true
    → o ≡ none
unfolding register_checked is_registered
register_checked-none d d' now sb (some x) file h = absurd (false≢true h)
register_checked-none d d' now sb none file h = refl

-- A plain name with one entry resolves to that entry.
look_up-plain :
    (digest : Text → Text) (d : Access) (name : Text) (r : Resolver) (sb : Sandbox)
    → check_name name ≡ none
    → d.lock_fails || d.load_fails ≡ false
    → find_named name (load r.fleet).sandboxes ≡ some sb
    → look_up digest d name r ≡ at sb
unfolding look_up look_among find_ref first_of at_or_lost list_all
look_up-plain digest d name r sb ok e h =
    let (plain, apart) = check_name-none name ok in
    rw (trim_space-solid name (solid name plain)) (rw e (rw apart (rw h refl)))

found_after :
    (now : ℕ) (sb : Sandbox) (file file' : Option Stored)
    → Wrote true now sb file file'
    → find_named sb.name (load file').sandboxes ≡ some (stamped now sb)
unfolding Wrote stamped
found_after now sb file file' (away, new) =
    rw new
      (find_named-added sb.name (load file).sandboxes (stamped now sb) away (eq_text_refl sb.name))

-- After a successful registration, once the registry can be read, the name that was registered resolves
-- to exactly the entry that was written, and never to another sandbox by its handle.
pub register_resolves :
    (split_host_port : Text → Option (Text × Text)) (atoi : Text → Option ℕ)
    (printable : Text → Bool) (digest : Text → Text) (d d' d'' : Access) (now : ℕ) (given : Sandbox)
    (r : Resolver)
    → is_registered (register split_host_port atoi printable d d' now given r.fleet).0 ≡ true
    → d''.lock_fails || d''.load_fails ≡ false
    → look_up digest d''
        (trimmed given).name
        (record r { fleet = (register split_host_port atoi printable d d' now given r.fleet).1 })
      ≡ at (stamped now (trimmed given))
unfolding register check_all
register_resolves s a p digest d d' d'' now given r ok e =
    let wrote : Wrote true now (trimmed given) r.fleet (register s a p d d' now given r.fleet).1 =
      rw ok at (register_adds s a p d d' now given r.fleet) in
    look_up-plain digest d'' (trimmed given).name
      (record r { fleet = (register s a p d d' now given r.fleet).1 }) (stamped now (trimmed given))
      (accepted ok) e
      (found_after now (trimmed given) r.fleet (register s a p d d' now given r.fleet).1 wrote)
  where
    accepted :
        is_registered (register s a p d d' now given r.fleet).0 ≡ true
        → check_name (trimmed given).name ≡ none
    accepted ok = or_else-none (check_name (trimmed given).name) _ (
        register_checked-none d d' now (trimmed given) (check_all s a p (trimmed given)) r.fleet ok)
