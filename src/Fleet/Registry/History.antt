-- ===== src/Fleet/Registry/History.antt =====
-- Whatever operations the registry goes through, in whatever order and with whatever failures of the
-- file system, its sandboxes keep distinct names.
use mathlib.Core.Bool.{false≢true}
use f1337_mcp.Prelude.{
  ℕ, ◌≡◌, refl, sym, ap, inl, inr, Bool, true, false, Option, List, [], ◌∷◌, ◌==◌, if◌then◌else◌,
  Bool-cases, Option-cases, Text, eq_text,
}
use f1337_mcp.Fleet.Registry.{
  change_named, drop_named, RegistryError, Platform, Sandbox, Stored, Access, Answer, done, failed,
  add, adding, remove, removing, changing, update_last_seen, update_host_info, set_selection,
  clear_selection, clear_selections_for, seen, hosted, setting, clearing, clearing_for, find_named,
  check_client,
}
use f1337_mcp.Fleet.Registry.Named.{
  IsFleet, KeepsNamed, KeepsName, mutate-IsFleet, append-Named, drop_named-Named,
  change_named-Named,
}

-- A call that writes, with its clock.
pub data Call : Type 0 where
  call_add : ℕ → Sandbox → Call
  call_remove : Text → Call
  call_seen : Text → ℕ → Call
  call_host : Text → Platform → Text → Call
  call_set : Text → Text → Call
  call_clear : Text → Call
  call_clear_for : Text → Call

unfoldable pub apply_call : Access → Call → Option Stored → Option Stored
unfolding add remove update_last_seen update_host_info set_selection clear_selection
    clear_selections_for
apply_call d (call_add now sb) file = (add d now sb file).1
apply_call d (call_remove name) file = (remove d name file).1
apply_call d (call_seen name at) file = (update_last_seen d name at file).1
apply_call d (call_host name platform agent_version) file =
    (update_host_info d name platform agent_version file).1
apply_call d (call_set id name) file = (set_selection d id name file).1
apply_call d (call_clear id) file = (clear_selection d id file).1
apply_call d (call_clear_for name) file = (clear_selections_for d name file).1

unfoldable pub apply_calls : List (Access × Call) → Option Stored → Option Stored
apply_calls [] file = file
apply_calls ((d, c) ∷ cs) file = apply_calls cs (apply_call d c file)

answer_state : {A : Type 0} → Stored → Answer (A × Stored) → Stored
answer_state s0 (done (a, s)) = s
answer_state s0 (failed x) = s0

is_done : {A : Type 0} → Answer A → Bool
is_done (done a) = true
is_done (failed x) = false

pub answered :
    {A : Type 0} {a a' : A} {s s' : Stored}
    → Path (Answer (A × Stored)) (done (a, s)) (done (a', s'))
    → s ≡ s'
unfolding answer_state
answered {s = s} e = ap (answer_state s) e

pub refused : {A : Type 0} {x : RegistryError} {a : A} → ¬ Path (Answer A) (failed x) (done a)
unfolding is_done
refused e = false≢true (ap is_done e)

seen-KeepsName : (at : ℕ) → KeepsName (seen at)
unfolding seen KeepsName
seen-KeepsName at sb = refl

hosted-KeepsName : (platform : Platform) (version : Text) → KeepsName (hosted platform version)
unfolding hosted KeepsName
hosted-KeepsName platform version sb = refl

adding-KeepsNamed :
    (sb : Sandbox) (now : ℕ) → eq_text sb.name [] ≡ false → KeepsNamed (adding sb now)
unfolding adding KeepsNamed
adding-KeepsNamed sb now named s s' a v h = elim (Option-cases (find_named sb.name s.sandboxes)) [
  | inl e ↦ rw (sym (answered (rw (e, adding) at h))) (
      append-Named s.sandboxes
        (record sb { enrolled_at = if sb.enrolled_at == 0 then now else sb.enrolled_at }) named e v)
  | inr (x, e) ↦ absurd (refused (rw (e, adding) at h))
]

removing-KeepsNamed : (name : Text) → KeepsNamed (removing name)
unfolding removing KeepsNamed
removing-KeepsNamed name s s' a v h = elim (Option-cases (drop_named name s.sandboxes)) [
  | inl e ↦ absurd (refused (rw (e, removing) at h))
  | inr (kept, e) ↦
      rw (sym (answered (rw (e, removing) at h))) (drop_named-Named name s.sandboxes kept e v)
]

changing-KeepsNamed :
    (f : Sandbox → Sandbox) → KeepsName f → (name : Text) → KeepsNamed (changing f name)
unfolding changing KeepsNamed
changing-KeepsNamed f keeps name s s' a v h =
    elim (Option-cases (change_named f name s.sandboxes)) [
      | inl e ↦ absurd (refused (rw (e, changing) at h))
      | inr (kept, e) ↦
          rw (sym (answered (rw (e, changing) at h)))
            (change_named-Named f keeps name s.sandboxes kept e v)
    ]

setting-KeepsNamed : (id name : Text) → KeepsNamed (setting id name)
unfolding setting KeepsNamed
setting-KeepsNamed id name s s' a v h = rw (sym (answered h)) v

clearing-KeepsNamed : (id : Text) → KeepsNamed (clearing id)
unfolding clearing KeepsNamed
clearing-KeepsNamed id s s' a v h = rw (sym (answered h)) v

clearing_for-KeepsNamed : (name : Text) → KeepsNamed (clearing_for name)
unfolding clearing_for KeepsNamed
clearing_for-KeepsNamed name s s' a v h = rw (sym (answered h)) v

add-IsFleet :
    (d : Access) (now : ℕ) (sb : Sandbox) (file : Option Stored)
    → IsFleet file
    → IsFleet (add d now sb file).1
unfolding add
add-IsFleet d now sb file v = elim (Bool-cases (eq_text sb.name [])) [
  | inl e ↦ rw e v
  | inr e ↦ rw e (mutate-IsFleet d file (adding sb now) (adding-KeepsNamed sb now e) v)
]

set_selection-IsFleet :
    (d : Access) (id name : Text) (file : Option Stored)
    → IsFleet file
    → IsFleet (set_selection d id name file).1
unfolding set_selection
set_selection-IsFleet d id name file v = elim (Option-cases (check_client id)) [
  | inl e ↦
      rw (e, set_selection) (mutate-IsFleet d file (setting id name) (setting-KeepsNamed id name) v)
  | inr (x, e) ↦ rw (e, set_selection) v
]

apply_call-IsFleet :
    (d : Access) (c : Call) (file : Option Stored) → IsFleet file → IsFleet (apply_call d c file)
unfolding apply_call add remove update_last_seen update_host_info set_selection clear_selection
    clear_selections_for
apply_call-IsFleet d (call_add now sb) file v = add-IsFleet d now sb file v
apply_call-IsFleet d (call_remove name) file v =
    mutate-IsFleet d file (removing name) (removing-KeepsNamed name) v
apply_call-IsFleet d (call_seen name at) file v =
    mutate-IsFleet d file (changing (seen at) name)
      (changing-KeepsNamed (seen at) (seen-KeepsName at) name) v
apply_call-IsFleet d (call_host name platform version) file v =
    mutate-IsFleet d file (changing (hosted platform version) name)
      (changing-KeepsNamed (hosted platform version) (hosted-KeepsName platform version) name) v
apply_call-IsFleet d (call_set id name) file v = set_selection-IsFleet d id name file v
apply_call-IsFleet d (call_clear id) file v =
    mutate-IsFleet d file (clearing id) (clearing-KeepsNamed id) v
apply_call-IsFleet d (call_clear_for name) file v =
    mutate-IsFleet d file (clearing_for name) (clearing_for-KeepsNamed name) v

-- A registry in which every sandbox has a name, and no two the same one, stays so through any calls that
-- write to it, whatever failures of the lock, the read or the write each of them meets.
pub apply_calls-IsFleet :
    (cs : List (Access × Call)) (file : Option Stored)
    → IsFleet file
    → IsFleet (apply_calls cs file)
unfolding apply_calls
apply_calls-IsFleet [] file v = v
apply_calls-IsFleet ((d, c) ∷ cs) file v =
    apply_calls-IsFleet cs (apply_call d c file) (apply_call-IsFleet d c file v)
