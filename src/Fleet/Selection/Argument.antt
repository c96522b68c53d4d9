-- ===== src/Fleet/Selection/Argument.antt =====
-- What a reference resolves to, and what a selection makes of it.
use f1337_mcp.Fleet.Selection.Sticky.{done-injective}
use mathlib.Core.Bool.{false≢true}
use f1337_mcp.Fleet.Registry.History.{refused}
use mathlib.Core.Option.{some-injective}
use f1337_mcp.Prelude.{
  trim_space-solid, some≢none, ◌≡◌, refl, sym, ap, ◌∙◌, ◌⊎◌, inl, inr, Bool, true, false, ◌||◌,
  Option, none, some, List, [], ◌∷◌, ◌++◌, if◌then◌else◌, Bool-cases, All, Text, codes, eq_text,
  eq_text_iff, eq_text_refl, has_prefix, is_space, trim_space,
}
use f1337_mcp.Fleet.Registry.{
  access_failed, Sandbox, Stored, Access, Answer, done, failed, load, find_named, list_all,
}
use f1337_mcp.Fleet.Registry.Named.{Named, IsFleet}
use f1337_mcp.Fleet.Selection.{
  by_argument, first_of, at_or_lost, look_among, Resolver, Looked, at, lost, handle_for,
  find_handle, find_ref, look_up, resolve_for, handle_prefix,
}

-- The sandboxes that a resolver's registry file holds.
unfoldable pub sandboxes : Resolver → List Sandbox
unfolding load
sandboxes r = (load r.fleet).sandboxes

-- A sandbox that a search gave is the one its own name gives, and its name is not empty.
unfoldable pub IsOwn : List Sandbox → Sandbox → Type 0
IsOwn sbs sb = (find_named sb.name sbs ≡ some sb) × (eq_text sb.name [] ≡ false)

IsOwn-cons :
    (x : Sandbox) (sbs : List Sandbox) (sb : Sandbox)
    → find_named x.name sbs ≡ none
    → IsOwn sbs sb
    → IsOwn (x ∷ sbs) sb
unfolding IsOwn find_named
IsOwn-cons x sbs sb away h = elim (Bool-cases (eq_text x.name sb.name)) [
  | inl e ↦ absurd (
      some≢none sb
        (sym h.0 ∙ ap (λ n. find_named n sbs) (sym ((eq_text_iff x.name sb.name).0 e)) ∙ away))
  | inr e ↦ (rw e h.0, h.1)
]

IsOwn-head : (x : Sandbox) (sbs : List Sandbox) → eq_text x.name [] ≡ false → IsOwn (x ∷ sbs) x
unfolding IsOwn find_named
IsOwn-head x sbs h = (rw (eq_text_refl x.name) refl, h)

find_named-IsOwn :
    (n : Text) (sbs : List Sandbox) (sb : Sandbox)
    → Named sbs
    → find_named n sbs ≡ some sb
    → IsOwn sbs sb
unfolding Named find_named
find_named-IsOwn n [] sb v h = absurd (some≢none sb (sym h))
find_named-IsOwn n (x ∷ sbs) sb v h = elim (Bool-cases (eq_text x.name n)) [
  | inl e ↦ rw (sym (some-injective x sb (rw e at h))) (IsOwn-head x sbs v.0)
  | inr e ↦ IsOwn-cons x sbs sb v.1 (find_named-IsOwn n sbs sb v.2 (rw e at h))
]

find_handle-IsOwn :
    (digest : Text → Text) (ref : Text) (sbs : List Sandbox) (sb : Sandbox)
    → Named sbs
    → find_handle digest ref sbs ≡ some sb
    → IsOwn sbs sb
unfolding Named find_handle
find_handle-IsOwn digest ref [] sb v h = absurd (some≢none sb (sym h))
find_handle-IsOwn digest ref (x ∷ sbs) sb v h =
    elim (Bool-cases (eq_text (handle_for digest x.name) ref)) [
      | inl e ↦ rw (sym (some-injective x sb (rw e at h))) (IsOwn-head x sbs v.0)
      | inr e ↦ IsOwn-cons x sbs sb v.1 (find_handle-IsOwn digest ref sbs sb v.2 (rw e at h))
    ]

first_of-cases :
    (o p : Option Sandbox) (sb : Sandbox) → first_of o p ≡ some sb → (o ≡ some sb) ⊎ (p ≡ some sb)
unfolding first_of
first_of-cases (some x) p sb h = inl h
first_of-cases none p sb h = inr h

find_ref-IsOwn :
    (digest : Text → Text) (ref : Text) (sbs : List Sandbox) (sb : Sandbox)
    → Named sbs
    → find_ref digest ref sbs ≡ some sb
    → IsOwn sbs sb
unfolding find_ref
find_ref-IsOwn digest ref sbs sb v h =
    elim (first_of-cases (if has_prefix ref handle_prefix then find_handle digest ref sbs else none)
      (find_named ref sbs) sb h) [
        | inl e ↦ elim (Bool-cases (has_prefix ref handle_prefix)) [
          | inl p ↦ find_handle-IsOwn digest ref sbs sb v (rw p at e)
          | inr p ↦ absurd (some≢none sb (sym (rw p at e)))
        ]
        | inr e ↦ find_named-IsOwn ref sbs sb v e
      ]

at_sandbox : Sandbox → Looked → Sandbox
at_sandbox sb0 (at sb) = sb
at_sandbox sb0 (lost x) = sb0

is_at : Looked → Bool
is_at (at sb) = true
is_at (lost x) = false

at_or_lost-at :
    (ref : Text) (sbs : List Sandbox) (o : Option Sandbox) (sb : Sandbox)
    → at_or_lost ref sbs o ≡ at sb
    → o ≡ some sb
unfolding at_or_lost at_sandbox is_at
at_or_lost-at ref sbs (some x) sb h = ap (λ l. some (at_sandbox x l)) h
at_or_lost-at ref sbs none sb h = absurd (false≢true (ap is_at h))

look_among-at :
    (digest : Text → Text) (ref : Text) (a : Answer (List Sandbox)) (sb : Sandbox)
    → look_among digest ref a ≡ at sb
    → (sbs : List Sandbox) × (a ≡ done sbs) × (find_ref digest ref sbs ≡ some sb)
unfolding look_among is_at
look_among-at digest ref (failed x) sb h = absurd (false≢true (ap is_at h))
look_among-at digest ref (done sbs) sb h =
    (sbs, refl, at_or_lost-at ref sbs (find_ref digest ref sbs) sb h)

list_all-done :
    (d : Access) (file : Option Stored) (sbs : List Sandbox)
    → list_all d file ≡ done sbs
    → (load file).sandboxes ≡ sbs
unfolding list_all
list_all-done d file sbs h = elim (Bool-cases (d.lock_fails || d.load_fails)) [
  | inl e ↦ absurd (refused (rw (e, list_all) at h))
  | inr e ↦ done-injective (load file).sandboxes sbs (rw (e, list_all) at h)
]

-- The outcome of a reference that resolves.
pub look_up-IsOwn :
    (digest : Text → Text) (d : Access) (ref : Text) (r : Resolver) (sb : Sandbox)
    → IsFleet r.fleet
    → look_up digest d ref r ≡ at sb
    → IsOwn (sandboxes r) sb
unfolding look_up sandboxes IsFleet
look_up-IsOwn digest d ref r sb v h =
    let (sbs, e, f) = look_among-at digest (trim_space ref) (list_all d r.fleet) sb h in
    find_ref-IsOwn digest (trim_space ref) (sandboxes r) sb v (rw (list_all-done d r.fleet sbs e) f)

find_handle-own :
    (digest : Text → Text) (name : Text) (sbs : List Sandbox) (sb : Sandbox)
    → find_named name sbs ≡ some sb
    → (other : Sandbox) × (find_handle digest (handle_for digest name) sbs ≡ some other)
      × (handle_for digest other.name ≡ handle_for digest name)
unfolding find_handle find_named
find_handle-own digest name [] sb h = absurd (some≢none sb (sym h))
find_handle-own digest name (x ∷ sbs) sb h =
    elim (Bool-cases (eq_text (handle_for digest x.name) (handle_for digest name))) [
      | inl e ↦
          (x, rw e refl, (eq_text_iff (handle_for digest x.name) (handle_for digest name)).0 e)
      | inr e ↦ elim (Bool-cases (eq_text x.name name)) [
        | inl f ↦ absurd (
            false≢true (
              sym e
              ∙ (eq_text_iff (handle_for digest x.name) (handle_for digest name)).1
                  (ap (λ n. handle_for digest n) ((eq_text_iff x.name name).0 f))))
        | inr f ↦
            let (other, p, q) = find_handle-own digest name sbs sb (rw f at h) in (other, rw e p, q)
      ]
    ]

handle_for-prefix :
    (digest : Text → Text) (name : Text) → has_prefix (handle_for digest name) handle_prefix ≡ true
unfolding handle_for has_prefix
handle_for-prefix digest name = refl

-- A handle has no white space to trim, if the digest's hexadecimal digits have none.
unfoldable pub IsHex : (Text → Text) → Type 0
IsHex digest = (s : Text) → All (λ c. is_space c ≡ false) (digest s)

trim-handle :
    (digest : Text → Text) (name : Text)
    → IsHex digest
    → trim_space (handle_for digest name) ≡ handle_for digest name
unfolding handle_for IsHex
trim-handle digest name hex =
    trim_space-solid (handle_for digest name)
      (refl, (refl, (refl, (refl, hex (codes "fleet/handle/v1" ++ 0 ∷ name)))))

-- With a digest of hexadecimal digits, and a registry that can be read, the handle of a registered
-- sandbox resolves, and to a sandbox with that handle: one that is only named like the handle is never
-- chosen.
pub look_up-handle :
    (digest : Text → Text) (d : Access) (name : Text) (r : Resolver) (sb : Sandbox)
    → IsHex digest
    → d.lock_fails || d.load_fails ≡ false
    → find_named name (sandboxes r) ≡ some sb
    → (other : Sandbox) × (look_up digest d (handle_for digest name) r ≡ at other)
      × (handle_for digest other.name ≡ handle_for digest name)
unfolding look_up look_among find_ref first_of at_or_lost list_all sandboxes
look_up-handle digest d name r sb hex e h =
    let (other, p, q) = find_handle-own digest name (sandboxes r) sb h in
    (
      other,
      rw (trim-handle digest name hex) (rw e (rw (handle_for-prefix digest name) (rw p refl))),
      q,
    )

list_all-sandboxes :
    (d : Access) (r : Resolver)
    → list_all d r.fleet
      ≡ (if d.lock_fails || d.load_fails then failed access_failed else done (sandboxes r))
unfolding list_all sandboxes
list_all-sandboxes d r = refl

look_up-same :
    (digest : Text → Text) (d : Access) (ref : Text) (r r' : Resolver)
    → sandboxes r ≡ sandboxes r'
    → look_up digest d ref r ≡ look_up digest d ref r'
unfolding look_up
look_up-same digest d ref r r' same =
    ap (λ a. look_among digest (trim_space ref) a)
      (list_all-sandboxes d r
        ∙ ap (λ sbs. if d.lock_fails || d.load_fails then failed access_failed else done sbs) same
        ∙ sym (list_all-sandboxes d r'))

-- A call that names its sandbox acts on that one whoever makes it: neither the caller's identity nor any
-- selection, in memory or in the registry, has a part in the answer.
pub resolve_for-explicit :
    (digest : Text → Text) (d : Access) (id id' explicit : Text) (r r' : Resolver)
    → eq_text (trim_space explicit) [] ≡ false
    → sandboxes r ≡ sandboxes r'
    → resolve_for digest d id explicit r ≡ resolve_for digest d id' explicit r'
unfolding resolve_for
resolve_for-explicit digest d id id' explicit r r' given same =
    rw given
      (ap (λ l. by_argument digest l) (look_up-same digest d (trim_space explicit) r r' same))
