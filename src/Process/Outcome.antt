-- ===== src/Process/Outcome.antt =====
-- Whether the end of a run in internal/agent/process/supervisor.go is followed by a restart, and the state
-- it leaves behind.
use f1337_mcp.Prelude.{
  ℕ, ◌-◌, ◌<◌, ◌≡◌, refl, sym, ap, ◌∙◌, ◌↔◌, ◌⊎◌, inl, Bool, true, false, arith, if◌then◌else◌,
}
use f1337_mcp.Process.State.{
  ProcessState, exited, crashed, restarting, can_transition, is_live, same_state,
}
use f1337_mcp.Process.Record.{
  RestartPolicy, always, on_failure, never, policy_unspecified, Proc, hold_slot, drop_slot,
  set_state, acquire_slot,
}
use f1337_mcp.Process.Restart.{
  policy_allows, record_exit, settle_count, give_up, with_slot, decide_restart, maybe_restart,
  monitor,
}
use f1337_mcp.Process.Slots.{has_process}

abbrev pub ended : Bool → ProcessState
ended failed = if failed then crashed else exited

-- The state that the run's end leads to, with or without a restart.
abbrev Outcome : Bool → Bool × Proc → Type 0
Outcome failed (waiting, r) = r.state ≡ (if waiting then restarting else ended failed)

record_exit_state :
    (failed : Bool) (r : Proc)
    → has_process r.state ≡ true
    → (record_exit failed r).state ≡ ended failed
unfolding record_exit has_process is_live can_transition same_state
record_exit_state failed r h = ground arith

with_slot_end :
    (limit : ℕ) (failed : Bool) (r : Proc)
    → r.state ≡ ended failed
    → Outcome failed (with_slot (acquire_slot limit r) r)
unfolding acquire_slot set_state hold_slot drop_slot is_live can_transition same_state
with_slot_end limit true r h = ground arith
with_slot_end limit false r h = ground arith

give_up_state :
    (failed : Bool) (r : Proc) → r.state ≡ ended failed → (give_up r).state ≡ ended failed
unfolding give_up is_live can_transition same_state
give_up_state failed r h = ground arith

decide_restart_end :
    (limit : ℕ) (failed : Bool) (r : Proc)
    → r.state ≡ ended failed
    → Outcome failed (decide_restart limit failed r)
unfolding decide_restart
decide_restart_end limit failed r h =
    ground (arith, with_slot_end limit failed r, give_up_state failed r)

settle_count_state : (lasted : Bool) (r : Proc) → (settle_count lasted r).state ≡ r.state
unfolding settle_count
settle_count_state lasted r = ground arith

-- The supervisor starts the run again: restarts are not disabled, the policy asks for one after such an
-- end, the counter (0 after a run that lasted) is below the maximum, and a slot is free once the run
-- has given back its own.
pub record Restarts (limit : ℕ) (failed lasted : Bool) (r : Proc) : Type 0 where
  pub wanted : (r.restart_policy ≡ always) ⊎ ((r.restart_policy ≡ on_failure) × (failed ≡ true))
  pub enabled : r.restarts_disabled ≡ false
  pub budget : (if lasted then 0 else r.restart_count) < r.max_restarts
  pub room : (limit ≡ 0) ⊎ (r.in_use - (if r.slot then 1 else 0) < limit)

policy_allows_iff :
    (policy : RestartPolicy) (failed : Bool)
    → (policy_allows policy failed ≡ true)
      ↔ ((policy ≡ always) ⊎ ((policy ≡ on_failure) × (failed ≡ true)))
unfolding policy_allows
policy_allows_iff always failed = (λ h. inl refl, λ k. refl)
policy_allows_iff on_failure failed = ground arith
policy_allows_iff never failed = ground arith
policy_allows_iff policy_unspecified failed = ground arith

with_slot_waits :
    (limit : ℕ) (failed : Bool) (r : Proc)
    → r.state ≡ ended failed
    → ((with_slot (acquire_slot limit r) r).0 ≡ true) ↔ ((limit ≡ 0) ⊎ (r.in_use < limit))
unfolding acquire_slot set_state hold_slot drop_slot is_live can_transition same_state
with_slot_waits limit true r h = ground arith
with_slot_waits limit false r h = ground arith

decide_restart_waits :
    (limit : ℕ) (failed : Bool) (r : Proc)
    → r.state ≡ ended failed
    → ((decide_restart limit failed r).0 ≡ true) ↔ (
        (policy_allows r.restart_policy failed ≡ true)
        × (r.restarts_disabled ≡ false)
        × (r.restart_count < r.max_restarts)
        × ((limit ≡ 0) ⊎ (r.in_use < limit)))
unfolding decide_restart
decide_restart_waits limit failed r h = ground (arith, with_slot_waits limit failed r h)

-- What the end of a run changes of the record.
record Recorded (failed : Bool) (r s : Proc) : Type 0 where
  ends : s.state ≡ ended failed
  policy : s.restart_policy ≡ r.restart_policy
  disabled : s.restarts_disabled ≡ r.restarts_disabled
  count : s.restart_count ≡ r.restart_count
  most : s.max_restarts ≡ r.max_restarts
  left : s.in_use ≡ r.in_use - (if r.slot then 1 else 0)

record_exit-Recorded :
    (failed : Bool) (r : Proc)
    → has_process r.state ≡ true
    → Recorded failed r (record_exit failed r)
unfolding record_exit has_process is_live can_transition same_state drop_slot set_state
record_exit-Recorded failed r h = ground arith

settled_count :
    (lasted : Bool) (s : Proc)
    → (settle_count lasted s).restart_count ≡ (if lasted then 0 else s.restart_count)
unfolding settle_count
settled_count true s = refl
settled_count false s = refl

settle_count-Recorded :
    (failed lasted : Bool) (r s : Proc)
    → Recorded failed r s
    → Recorded failed
        (record r { restart_count = (settle_count lasted s).restart_count })
        (settle_count lasted s)
unfolding settle_count
settle_count-Recorded failed lasted r s c = ground (arith, c)

decide_restart-Restarts :
    (limit : ℕ) (failed lasted : Bool) (r s : Proc) (count : ℕ)
    → count ≡ (if lasted then 0 else r.restart_count)
    → Recorded failed (record r { restart_count = count }) s
    → ((decide_restart limit failed s).0 ≡ true) ↔ Restarts limit failed lasted r
decide_restart-Restarts limit failed lasted r s count e c =
    let waits = decide_restart_waits limit failed s c.ends in
    (
      λ h.
          let (allowed, enabled, budget, room) = waits.0 h in
          record {
            wanted = (policy_allows_iff r.restart_policy failed).0 (rw c.policy at allowed);
            enabled = sym c.disabled ∙ enabled;
            budget = rw (← e) (omega (arith, budget, c.count, c.most));
            room = rw c.left at room;
          },
      λ k. waits.1 (
        rw c.policy ((policy_allows_iff r.restart_policy failed).1 k.wanted),
        c.disabled ∙ k.enabled,
        rw c.count (rw c.most (rw e k.budget)),
        rw c.left k.room,
      ),
    )

-- After a run has ended, a restart waits just if restarts are not disabled, the policy asks for one
-- after such an end, the counter is below the maximum (and 0 after a run that lasted), and a slot is
-- free. The record is then RESTARTING, and otherwise CRASHED after a failure and EXITED after a clean
-- exit. So a process whose budget is spent at a clean exit under "always" ends EXITED: the comment in
-- supervisor.go and process.proto say that it ends CRASHED, but the table of transitions has no move
-- from EXITED to CRASHED, and the error of the refused move is discarded.
pub monitor_outcome :
    (limit : ℕ) (failed lasted : Bool) (r : Proc)
    → has_process r.state ≡ true
    → let (waiting, r') = monitor limit failed lasted r in
      ((waiting ≡ true) ↔ Restarts limit failed lasted r)
      × (r'.state ≡ (if waiting then restarting else if failed then crashed else exited))
unfolding monitor maybe_restart
monitor_outcome limit failed lasted r h =
    let exit = record_exit failed r in
    let c = record_exit-Recorded failed r h in
    (
      decide_restart-Restarts limit failed lasted r (settle_count lasted exit) _
          (settled_count lasted exit ∙ ap (λ n. if lasted then 0 else n) c.count)
          (settle_count-Recorded failed lasted r exit c),
      decide_restart_end limit failed (settle_count lasted exit)
          (settle_count_state lasted exit ∙ c.ends),
    )
