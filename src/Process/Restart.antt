-- ===== src/Process/Restart.antt =====
-- internal/agent/process/supervisor.go: how a run ends and what the restart policy does then.
use f1337_mcp.Prelude.{
  ℕ, zero, suc, ◌+◌, ◌*◌, Bool, true, false, not, Option, none, some, ltb, leb, ◌==◌, if◌then◌else◌,
}
use f1337_mcp.Process.State.{starting, exited, crashed, restarting, same_state}
use f1337_mcp.Process.Record.{
  RestartPolicy, policy_unspecified, never, on_failure, always, Proc, hold_slot, drop_slot,
  set_state, acquire_slot,
}

abbrev pub second : ℕ
second = 1_000_000_000

-- The doubling loop. A duration that is not positive is 0, and `delay` stays below the cap, so that
-- int64 does not overflow for a cap below 2^62 nanoseconds.
unfoldable pub doubled : ℕ → ℕ → ℕ → ℕ
doubled zero delay capped = if ltb capped delay then capped else delay
doubled (suc count) delay capped =
    let rest = doubled count (delay * 2) capped in if leb capped (delay * 2) then capped else rest

unfoldable pub backoff_for : ℕ → ℕ → ℕ → ℕ
unfolding doubled
backoff_for base count capped = doubled count (if base == 0 then second else base) capped

-- Whether the policy restarts a run that ended this way.
unfoldable pub policy_allows : RestartPolicy → Bool → Bool
policy_allows always failed = true
policy_allows on_failure failed = failed
policy_allows never failed = false
policy_allows policy_unspecified failed = false

-- The end of a run in `monitor`: `failed` is a non-zero exit code or a signal. The error of an
-- illegal move is only logged.
unfoldable pub record_exit : Bool → Proc → Proc
unfolding set_state
record_exit failed r =
    (set_state (if failed then crashed else exited) (λ p. record p { exit_failed = failed }) r).1

-- The counter is reset after a run that lasted the stability window.
unfoldable pub settle_count : Bool → Proc → Proc
settle_count lasted r = if lasted then record r { restart_count = 0 } else r

-- The budget is spent. The error of an illegal move is discarded.
unfoldable pub give_up : Proc → Proc
unfolding set_state
give_up r = if same_state r.state crashed then r else (set_state crashed (λ p. p) r).1

abbrev pub held_restarting : Bool × Proc → Bool × Proc
held_restarting (true, r) = (true, r)
held_restarting (false, r) = (false, drop_slot r)

abbrev pub with_slot : Option Proc → Proc → Bool × Proc
with_slot none r = (false, r)
with_slot (some taken) r = held_restarting (set_state restarting (λ p. p) (hold_slot taken))

-- The policy, the budget and the slot, for a counter that has been settled.
unfoldable pub decide_restart : ℕ → Bool → Proc → Bool × Proc
decide_restart cap failed r =
    let restarted = with_slot (acquire_slot cap r) r in
    if r.restarts_disabled
    then (false, r)
    else if not (policy_allows r.restart_policy failed)
    then (false, r)
    else if leb r.max_restarts r.restart_count
    then (false, give_up r)
    else restarted

-- The Boolean says that a restart is waiting out its backoff.
unfoldable pub maybe_restart : ℕ → Bool → Bool → Proc → Bool × Proc
unfolding decide_restart set_state hold_slot drop_slot acquire_slot give_up policy_allows
    settle_count
maybe_restart cap failed lasted r = decide_restart cap failed (settle_count lasted r)

-- `monitor`: the exit is recorded, then the policy applied.
unfoldable pub monitor : ℕ → Bool → Bool → Proc → Bool × Proc
unfolding record_exit maybe_restart
monitor cap failed lasted r = maybe_restart cap failed lasted (record_exit failed r)

abbrev respawn : Bool → Bool × Proc → Proc
respawn spawned (false, r) = r
respawn true (true, r) = r
respawn false (true, r) = (set_state crashed (λ p. record p { exit_failed = true }) r).1

-- The goroutine after the backoff. `spawned` is what `spawn` answers.
unfoldable pub finish_backoff : Bool → Proc → Proc
unfolding set_state
finish_backoff spawned r =
    if r.restarts_disabled
    then (set_state crashed (λ p. p) r).1
    else respawn spawned
        (set_state starting (λ p. p) (record r { restart_count = r.restart_count + 1 }))

abbrev restarted_by_hand : Bool → Bool × Proc → Bool × Proc
restarted_by_hand spawned (false, r) = (false, drop_slot r)
restarted_by_hand spawned (true, r) = (spawned, respawn spawned (set_state starting (λ p. p) r))

abbrev restart_with : Bool → Option Proc → Proc → Bool × Proc
restart_with spawned none r = (false, r)
restart_with spawned (some taken) r =
    restarted_by_hand spawned (set_state restarting (λ p. p) (hold_slot taken))

-- `restart` of signal.go, from the moment at which the process is stopped. The Boolean is false
-- where an error is returned.
unfoldable pub restart_stopped : ℕ → Bool → Proc → Bool × Proc
unfolding set_state hold_slot drop_slot acquire_slot
restart_stopped cap spawned r =
    let r' = record r { restarts_disabled = false } in restart_with spawned (acquire_slot cap r') r'
