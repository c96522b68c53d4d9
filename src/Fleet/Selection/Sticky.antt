-- ===== src/Fleet/Selection/Sticky.antt =====
-- The sticky default: what one client selects, and who sees it.
use mathlib.Core.Option.{some-injective}
use mathlib.Core.Bool.{false≢true}
use f1337_mcp.Fleet.Registry.History.{refused, answered}
use f1337_mcp.Prelude.{
  some≢none, eq_text-false, ℕ, ◌≡◌, refl, sym, ap, ◌∙◌, ◌≢◌, inl, inr, Bool, true, false, not, ◌&&◌,
  ◌||◌, Option, none, some, List, [], if◌then◌else◌, Bool-cases, Option-cases, Text, eq_text,
  eq_text_iff,
}
use f1337_mcp.Fleet.Registry.{
  clear_pointing, access_failed, Stored, Access, Answer, done, failed, load, get_selection,
  set_selection, clear_selections_for, lookup, setting, clearing_for, mutate, written, save,
  check_client,
}
use f1337_mcp.Fleet.Registry.Maps.{lookup-put_ne, lookup-clear_pointing}
use f1337_mcp.Fleet.Selection.{more_cleared, Resolver, selected, select_for, clear_for}

-- The selections in the file.
unfoldable pub stored : Option Stored → List (Text × Text)
unfolding load
stored file = (load file).selections

unfoldable pub reads : Access → Bool
reads d = not (d.lock_fails || d.load_fails)

-- What a read of a selection gives.
pub selected-stored :
    (d : Access) (id : Text) (r : Resolver)
    → eq_text id r.fallback ≡ false
    → selected d id r ≡ (
        if d.lock_fails || d.load_fails
        then failed access_failed
        else done (lookup id (stored r.fleet)))
unfolding selected get_selection stored
selected-stored d id r e = rw e refl

pub selected_held :
    (d : Access) (id : Text) (r : Resolver)
    → eq_text id r.fallback ≡ true
    → selected d id r ≡ done (if eq_text r.ephemeral [] then none else some r.ephemeral)
unfolding selected
selected_held d id r e = rw e refl

-- A write of the selections leaves those of another client, however it ends.
KeepsOther : {A : Type 0} → Text → (Stored → Answer (A × Stored)) → Type 0
KeepsOther {A = A} id fn =
    (s s' : Stored) (a : A) → fn s ≡ done (a, s') → lookup id s'.selections ≡ lookup id s.selections

written-KeepsOther :
    {A : Type 0} (d : Access) (id : Text) (file : Option Stored) (x : Answer (A × Stored))
    → ((s : Stored) (a : A) → x ≡ done (a, s) → lookup id s.selections ≡ lookup id (stored file))
    → lookup id (stored (written d file x).1) ≡ lookup id (stored file)
unfolding written save stored load
written-KeepsOther d id file (failed x) h = refl
written-KeepsOther d id file (done (a, s)) h = elim (Bool-cases d.save_fails) [
  | inl e ↦ rw e refl
  | inr e ↦ rw e (h s a refl)
]

mutate-KeepsOther :
    {A : Type 0} (d : Access) (id : Text) (file : Option Stored) (fn : Stored → Answer (A × Stored))
    → KeepsOther id fn
    → lookup id (stored (mutate d file fn).1) ≡ lookup id (stored file)
unfolding mutate stored KeepsOther
mutate-KeepsOther d id file fn keeps = elim (Bool-cases (d.lock_fails || d.load_fails)) [
  | inl e ↦ rw e refl
  | inr e ↦ rw e (written-KeepsOther d id file (fn (load file)) (λ s a. keeps (load file) s a))
]

setting-KeepsOther :
    (id id' name : Text) → eq_text id id' ≡ false → KeepsOther id' (setting id name)
unfolding setting KeepsOther
setting-KeepsOther id id' name ne s s' a h =
    rw (sym (answered h)) (lookup-put_ne id name id' s.selections ne)

set_selection-other :
    (d : Access) (id id' name : Text) (file : Option Stored)
    → eq_text id id' ≡ false
    → lookup id' (stored (set_selection d id name file).1) ≡ lookup id' (stored file)
unfolding set_selection
set_selection-other d id id' name file ne = elim (Option-cases (check_client id)) [
  | inl e ↦
      rw (e, set_selection)
        (mutate-KeepsOther d id' file (setting id name) (setting-KeepsOther id id' name ne))
  | inr (x, e) ↦ rw (e, set_selection) refl
]

-- What one client selects is never what another client has selected: a selection under one identity
-- leaves the answer under every other as it was, whether or not it could be recorded.
pub select_for-isolated :
    (d d' : Access) (id id' name : Text) (r : Resolver)
    → eq_text id id' ≡ false
    → selected d' id' (select_for d id name r).1 ≡ selected d' id' r
unfolding select_for
select_for-isolated d d' id id' name r ne = elim (Bool-cases (eq_text id r.fallback)) [
  | inl e ↦
      let other : eq_text id' r.fallback ≡ false =
        rw ((eq_text_iff id r.fallback).0 e) at (eq_text-false id id' ne) in
      rw e (
        selected-stored d' id' (record r { ephemeral = name }) other
        ∙ sym (selected-stored d' id' r other))
  | inr e ↦ elim (Bool-cases (eq_text id' r.fallback)) [
    | inl f ↦ rw e (
        selected_held d' id' (record r { fleet = (set_selection d id name r.fleet).1 }) f
        ∙ sym (selected_held d' id' r f))
    | inr f ↦ rw e (
        selected-stored d' id' (record r { fleet = (set_selection d id name r.fleet).1 }) f
        ∙ ap (λ v. if d'.lock_fails || d'.load_fails then failed access_failed else done v)
            (set_selection-other d id id' name r.fleet ne)
        ∙ sym (selected-stored d' id' r f))
  ]
]

-- What is held in memory after a clearing.
unfoldable pub left_held : Text → Text → Text
left_held name held = if not (eq_text held []) && eq_text held name then [] else held

left_held_ne :
    (name held : Text)
    → (if eq_text (left_held name held) [] then none else some (left_held name held)) ≢ some name
unfolding left_held eq_text
left_held_ne name held h = elim (Bool-cases (eq_text held [])) [
  | inl e ↦ some≢none name (sym (rw (e, e) at h))
  | inr e ↦ elim (Bool-cases (eq_text held name)) [
    | inl f ↦ some≢none name (sym (rw (e, f) at h))
    | inr f ↦
        false≢true
          (sym f ∙ (eq_text_iff held name).1 (some-injective held name (rw (e, f, e) at h)))
  ]
]

clear_selections_for-stored :
    (d : Access) (name : Text) (file : Option Stored) (n : ℕ)
    → (clear_selections_for d name file).0 ≡ done n
    → stored (clear_selections_for d name file).1 ≡ (clear_pointing name (stored file)).1
unfolding clear_selections_for stored load mutate written clearing_for save
clear_selections_for-stored d name file n h = elim (Bool-cases (d.lock_fails || d.load_fails)) [
  | inl e ↦ absurd (refused (rw e at h))
  | inr e ↦ elim (Bool-cases d.save_fails) [
    | inl f ↦ absurd (refused (rw (e, f) at h))
    | inr f ↦ rw (e, f) refl
  ]
]

answered_or : {A : Type 0} → A → Answer A → A
answered_or a0 (done a) = a
answered_or a0 (failed x) = a0

pub done-injective : {A : Type 0} (a b : A) → Path (Answer A) (done a) (done b) → a ≡ b
unfolding answered_or
done-injective a b e = ap (answered_or a) e

-- A read that gives a selection found it in the file.
selected_found :
    (d : Access) (id name : Text) (r : Resolver)
    → eq_text id r.fallback ≡ false
    → selected d id r ≡ done (some name)
    → lookup id (stored r.fleet) ≡ some name
selected_found d id name r f e = elim (Bool-cases (d.lock_fails || d.load_fails)) [
  | inl p ↦ absurd (refused (rw p at (sym (selected-stored d id r f) ∙ e)))
  | inr p ↦
      done-injective (lookup id (stored r.fleet)) (some name)
        (rw p at (sym (selected-stored d id r f) ∙ e))
]

more_cleared-done : (k n : ℕ) (x : Answer ℕ) → more_cleared k x ≡ done n → (m : ℕ) × (x ≡ done m)
unfolding more_cleared
more_cleared-done k n (done m) h = (m, refl)
more_cleared-done k n (failed x) h = absurd (refused h)

-- After a clearing of a sandbox's selections that succeeds, no client, identified or not, has that sandbox
-- selected.
pub clear_for_complete :
    (d d' : Access) (id name : Text) (r : Resolver) (n : ℕ)
    → (clear_for d name r).0 ≡ done n
    → selected d' id (clear_for d name r).1 ≢ done (some name)
unfolding clear_for left_held
clear_for_complete d d' id name r n h e = elim (Bool-cases (eq_text id r.fallback)) [
  | inl f ↦ left_held_ne name r.ephemeral (
      done-injective
        (if eq_text (left_held name r.ephemeral) []
          then none
          else some (left_held name r.ephemeral))
        (some name) (sym (selected_held d' id (clear_for d name r).1 f) ∙ e))
  | inr f ↦
      let (m, p) =
        more_cleared-done
          (if not (eq_text r.ephemeral []) && eq_text r.ephemeral name then 1 else 0) n
          (clear_selections_for d name r.fleet).0 h in
      lookup-clear_pointing id name (stored r.fleet) (
        ap (λ l. lookup id l) (sym (clear_selections_for-stored d name r.fleet m p))
        ∙ selected_found d' id name (clear_for d name r).1 f e)
]
