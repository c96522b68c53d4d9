-- ===== src/Fleet/Selection/Chosen.antt =====
-- What a client selects is what its later calls act on.
use f1337_mcp.Fleet.Registry.History.{refused}
use mathlib.Core.Bool.{false≢true}
use f1337_mcp.Prelude.{
  trim_space, ◌≡◌, refl, ap, ◌∙◌, inl, inr, Bool, true, false, ◌||◌, Option, some, [], Bool-cases,
  Option-cases, Text, eq_text,
}
use f1337_mcp.Fleet.Registry.{
  Sandbox, Stored, Access, Answer, done, failed, load, get, getting, set_selection, lookup, setting,
  mutate, written, save, check_client,
}
use f1337_mcp.Fleet.Registry.Named.{IsFleet}
use f1337_mcp.Fleet.Registry.Maps.{lookup-put}
use f1337_mcp.Fleet.Selection.{
  Resolver, Target, source_argument, source_sticky, Resolved, found, unresolved, Looked, at, lost,
  look_up, resolve_for, select, select_for, target_for, selecting, recorded, selected, by_selection,
  by_name,
}
use f1337_mcp.Fleet.Selection.Argument.{sandboxes, IsOwn, look_up-IsOwn}
use f1337_mcp.Fleet.Selection.Sticky.{selected_held, selected-stored, stored}

is_found : Resolved → Bool
is_found (found t) = true
is_found (unresolved x) = false

target_or : Target → Resolved → Target
target_or t0 (found t) = t
target_or t0 (unresolved x) = t0

recorded-found :
    (digest : Text → Text) (sb : Sandbox) (p : Answer (Unit {0}) × Resolver) (t : Target)
    → (recorded digest sb p).0 ≡ found t
    → (p.0 ≡ done tt)
      × (target_for digest sb source_argument ≡ t)
      × ((recorded digest sb p).1 ≡ p.1)
unfolding recorded is_found target_or
recorded-found digest sb (done u, r) t h = (refl, ap (target_or t) h, refl)
recorded-found digest sb (failed x, r) t h = absurd (false≢true (ap is_found h))

mutated-done :
    (d : Access) (id name : Text) (file : Option Stored)
    → (mutate d file (setting id name)).0 ≡ done tt
    → (lookup id (stored (mutate d file (setting id name)).1) ≡ some name)
      × ((load (mutate d file (setting id name)).1).sandboxes ≡ (load file).sandboxes)
unfolding mutate written setting stored save load
mutated-done d id name file h = elim (Bool-cases (d.lock_fails || d.load_fails)) [
  | inl e ↦ absurd (refused (rw e at h))
  | inr e ↦ elim (Bool-cases d.save_fails) [
    | inl f ↦ absurd (refused (rw (e, f) at h))
    | inr f ↦ rw (e, f) (lookup-put id name (load file).selections, refl)
  ]
]

set_selection-done :
    (d : Access) (id name : Text) (file : Option Stored)
    → (set_selection d id name file).0 ≡ done tt
    → (lookup id (stored (set_selection d id name file).1) ≡ some name)
      × ((load (set_selection d id name file).1).sandboxes ≡ (load file).sandboxes)
unfolding stored set_selection lookup
set_selection-done d id name file h = elim (Option-cases (check_client id)) [
  | inr (x, e) ↦ absurd (refused (rw (e, set_selection) at h))
  | inl e ↦ rw (e, set_selection) (mutated-done d id name file (rw (e, set_selection) at h))
]

select_for-done :
    (d d' : Access) (id name : Text) (r : Resolver)
    → eq_text name [] ≡ false
    → d'.lock_fails || d'.load_fails ≡ false
    → (select_for d id name r).0 ≡ done tt
    → (selected d' id (select_for d id name r).1 ≡ done (some name))
      × (sandboxes (select_for d id name r).1 ≡ sandboxes r)
unfolding select_for sandboxes
select_for-done d d' id name r named e h = elim (Bool-cases (eq_text id r.fallback)) [
  | inl f ↦ rw f (selected_held d' id (record r { ephemeral = name }) f ∙ rw named refl, refl)
  | inr f ↦
      let (p, q) = set_selection-done d id name r.fleet (rw f at h) in
      rw f (
        selected-stored d' id (record r { fleet = (set_selection d id name r.fleet).1 }) f
            ∙ rw (e, p) refl,
        q,
      )
]

resolve_for-selected :
    (digest : Text → Text) (d : Access) (id : Text) (r : Resolver) (sb : Sandbox)
    → d.lock_fails || d.load_fails ≡ false
    → IsOwn (sandboxes r) sb
    → selected d id r ≡ done (some sb.name)
    → resolve_for digest d id [] r ≡ found (target_for digest sb source_sticky)
unfolding resolve_for by_selection by_name IsOwn get getting sandboxes eq_text trim_space
resolve_for-selected digest d id r sb e (own, named) h =
    rw h (rw named (rw e (rw (own, getting) refl)))

-- The source of a target that comes from a selection.
unfoldable pub as_sticky : Target → Target
as_sticky t = record t { source = source_sticky }

selecting-resolves :
    (digest : Text → Text) (d d' : Access) (id : Text) (l : Looked) (r : Resolver) (t : Target)
    → ((sb : Sandbox) → l ≡ at sb → IsOwn (sandboxes r) sb)
    → d'.lock_fails || d'.load_fails ≡ false
    → (selecting digest d id l r).0 ≡ found t
    → resolve_for digest d' id [] (selecting digest d id l r).1 ≡ found (as_sticky t)
unfolding selecting is_found as_sticky target_for IsOwn
selecting-resolves digest d d' id (lost x) r t own e h = absurd (false≢true (ap is_found h))
selecting-resolves digest d d' id (at sb) r t own e h =
    let (ok, same, left) = recorded-found digest sb (select_for d id sb.name r) t h in
    let (chosen, kept) = select_for-done d d' id sb.name r (own sb refl).1 e ok in
    rw left (
      resolve_for-selected digest d' id (select_for d id sb.name r).1 sb e (rw kept (own sb refl))
        chosen
      ∙ ap (λ x. found (as_sticky x)) same)

-- A selection that succeeds is what the client's later calls without an argument act on: the same
-- sandbox under the same handle, for a registry whose sandboxes have distinct names, once it can be read.
pub resolve_for-select :
    (digest : Text → Text) (d d' : Access) (id name : Text) (r : Resolver) (t : Target)
    → IsFleet r.fleet
    → d'.lock_fails || d'.load_fails ≡ false
    → (select digest d id name r).0 ≡ found t
    → resolve_for digest d' id [] (select digest d id name r).1 ≡ found (as_sticky t)
unfolding as_sticky select
resolve_for-select digest d d' id name r t v e h =
    selecting-resolves digest d d' id (look_up digest d name r) r t
      (λ sb. look_up-IsOwn digest d name r sb v) e h
