-- ===== src/Process/Record.antt =====
-- internal/agent/process/record.go: the moves of one record and its share of the agent-wide limit.
-- The limiter is `in_use`, the slots that are taken, of which `slot` says that this record has one;
-- a release that the limiter handed out gives back one slot.

use f1337_mcp.Prelude.{
  ℕ, ◌+◌, ◌-◌, Bool, true, false, not, ◌&&◌, Option, none, some, ltb, leb, if◌then◌else◌,
}
use f1337_mcp.Process.State.{ProcessState, unspecified, can_transition, is_live, same_state}

pub data RestartPolicy : Type 0 where
  policy_unspecified never on_failure always : RestartPolicy

pub record Proc : Type 0 where
  pub state : ProcessState
  pub slot : Bool
  pub in_use : ℕ
  pub restart_policy : RestartPolicy
  pub restarts_disabled : Bool
  pub restart_count : ℕ
  pub max_restarts : ℕ
  pub restart_backoff : ℕ
  pub exit_failed : Bool

unfoldable pub new_record : RestartPolicy → ℕ → ℕ → ℕ → Proc
new_record policy max_restarts backoff in_use = record {
  state = unspecified;
  slot = false;
  in_use = in_use;
  restart_policy = policy;
  restarts_disabled = false;
  restart_count = 0;
  max_restarts = max_restarts;
  restart_backoff = backoff;
  exit_failed = false;
}

-- A slot that `acquire` took and no record holds yet is given to the record, or back if it has one.
unfoldable pub hold_slot : Proc → Proc
hold_slot r = if r.slot then record r { in_use = r.in_use - 1 } else record r { slot = true }

unfoldable pub drop_slot : Proc → Proc
drop_slot r = if r.slot then record r { slot = false; in_use = r.in_use - 1 } else r

-- The slot comes back when a live state is left for one that is not.
abbrev pub settle : ProcessState → ProcessState → Proc → Proc
settle from to r = if is_live from && not (is_live to) then drop_slot r else r

-- `mutate` runs after the move is accepted and before the slot is given back. The Boolean is false
-- for an illegal move, which changes nothing.
unfoldable pub set_state : ProcessState → (Proc → Proc) → Proc → Bool × Proc
unfolding drop_slot
set_state to mutate r =
    let moved = settle r.state to (mutate (record r { state = to })) in
    if same_state r.state to
    then (true, mutate r)
    else if can_transition r.state to
    then (true, moved)
    else (false, r)

-- The other writer of the state, for adoption.
unfoldable pub restore_state : ProcessState → Proc → Proc
unfolding drop_slot
restore_state to r = settle r.state to (record r { state = to })

-- Takes a slot of the limit `cap`, where 0 is no limit; `none` is a full agent.
unfoldable pub acquire_slot : ℕ → Proc → Option Proc
acquire_slot cap r =
    if leb cap r.in_use && ltb 0 cap then none else some (record r { in_use = r.in_use + 1 })
