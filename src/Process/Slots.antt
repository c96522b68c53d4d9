-- ===== src/Process/Slots.antt =====
-- The slots of the agent-wide limit and the counter of restarts, whatever happens to a process. The
-- adoption of a process by a new agent is a new record, and not a step of the old one.
use f1337_mcp.Prelude.{
  ℕ, ◌+◌, ◌≤◌, ◌<◌, ◌≡◌, refl, ◌≢◌, ◌⊎◌, Bool, true, false, not, arith, ltb, leb, if◌then◌else◌,
}
use f1337_mcp.Process.State.{
  ProcessState, unspecified, starting, ready, running, exited, crashed, restarting, can_transition,
  is_terminal, is_live, same_state,
}
use f1337_mcp.Process.Record.{
  RestartPolicy, new_record, Proc, hold_slot, drop_slot, set_state, restore_state, acquire_slot,
}
use f1337_mcp.Process.Restart.{
  policy_allows, maybe_restart, decide_restart, with_slot, record_exit, settle_count, give_up,
  monitor, finish_backoff, restart_stopped,
}

abbrev pub slots_of : Proc → ℕ
slots_of r = if r.slot then 1 else 0

-- `others` is what every other holder has of the limiter.
pub record Accounts (others : ℕ) (r : Proc) : Type 0 where
  pub balance : r.in_use ≡ others + slots_of r
  pub live_only : (if r.slot then is_live r.state else true) ≡ true
  pub counted : r.restart_count ≤ r.max_restarts
  pub pending :
      (if same_state r.state restarting then ltb r.restart_count r.max_restarts else true) ≡ true

unfoldable pub has_process : ProcessState → Bool
has_process starting = true
has_process ready = true
has_process running = true
has_process _ = false

-- What can happen to one record: its start, which may fail, its probe, the end of a run, the end of a
-- backoff, a stop that disables restarts, a restart by hand of a stopped process, and a new agent that
-- does not adopt it and leaves it in a terminal state.
pub data Step : Proc → Proc → Type 0 where
  started : (r : Proc) → r.state ≡ unspecified → Step r (set_state starting (λ p. p) r).1
  spawn_failed :
      (r : Proc)
      → r.state ≡ starting
      → Step r (set_state crashed (λ p. record p { exit_failed = true }) r).1
  settled : (r : Proc) → r.state ≡ starting → Step r (set_state running (λ p. p) r).1
  probe_passed : (r : Proc) → has_process r.state ≡ true → Step r (set_state ready (λ p. p) r).1
  run_ended :
      (limit : ℕ) (failed lasted : Bool) (r : Proc)
      → has_process r.state ≡ true
      → Step r (monitor limit failed lasted r).1
  backoff_over :
      (spawned : Bool) (r : Proc) → r.state ≡ restarting → Step r (finish_backoff spawned r)
  restarts_off : (r : Proc) → Step r (record r { restarts_disabled = true })
  restarted :
      (limit : ℕ) (spawned : Bool) (r : Proc)
      → (r.state ≡ exited) ⊎ (r.state ≡ crashed)
      → Step r (restart_stopped limit spawned r).1
  not_adopted : (to : ProcessState) (r : Proc) → is_terminal to ≡ true → Step r (restore_state to r)

pub data Reach (r : Proc) : Proc → Type 0 where
  here : Reach r r
  next : {s t : Proc} → Reach r s → Step s t → Reach r t

-- A record whose run has ended holds no slot.
record Idle (others : ℕ) (r : Proc) : Type 0 where
  stopped : (r.state ≡ exited) ⊎ (r.state ≡ crashed)
  free : r.slot ≡ false
  balance : r.in_use ≡ others
  counted : r.restart_count ≤ r.max_restarts

record_exit-Idle :
    (others : ℕ) (failed : Bool) (r : Proc)
    → has_process r.state ≡ true
    → Accounts others r
    → Idle others (record_exit failed r)
unfolding record_exit has_process is_live can_transition same_state
record_exit-Idle others failed r h a = ground arith

settle_count-Idle :
    (others : ℕ) (lasted : Bool) (r : Proc) → Idle others r → Idle others (settle_count lasted r)
unfolding settle_count
settle_count-Idle others true r i = record {
  stopped = i.stopped;
  free = i.free;
  balance = i.balance;
  counted = omega arith;
}
settle_count-Idle others false r i = i

Accounts-Idle : (others : ℕ) (r : Proc) → Idle others r → Accounts others r
unfolding is_live same_state
Accounts-Idle others r i = ground arith

give_up-Idle : (others : ℕ) (r : Proc) → Idle others r → Idle others (give_up r)
unfolding give_up is_live can_transition same_state
give_up-Idle others r i = ground arith

with_slot-Accounts :
    (others limit : ℕ) (r : Proc)
    → Idle others r
    → r.restart_count < r.max_restarts
    → Accounts others (with_slot (acquire_slot limit r) r).1
unfolding acquire_slot set_state hold_slot drop_slot is_live can_transition same_state
with_slot-Accounts others limit r i room = ground (arith, Accounts-Idle others r i)

if-Accounts :
    (others : ℕ) (test : Bool) (x y : Bool × Proc)
    → (test ≡ true → Accounts others x.1)
    → (test ≡ false → Accounts others y.1)
    → Accounts others (if test then x else y).1
if-Accounts others true x y hx hy = hx refl
if-Accounts others false x y hx hy = hy refl

decide_restart-Accounts :
    (others limit : ℕ) (failed : Bool) (r : Proc)
    → Idle others r
    → Accounts others (decide_restart limit failed r).1
unfolding decide_restart
decide_restart-Accounts others limit failed r i =
    if-Accounts others r.restarts_disabled (false, r) allowed (λ e. kept)
      (λ e.
        if-Accounts others (not (policy_allows r.restart_policy failed)) (false, r) within
          (λ e. kept)
          (λ e.
            if-Accounts others (leb r.max_restarts r.restart_count) (false, give_up r) again
              (λ e. Accounts-Idle others (give_up r) (give_up-Idle others r i))
              (λ e. with_slot-Accounts others limit r i (ground (arith, e)))))
  where
    kept : Accounts others r
    kept = Accounts-Idle others r i

    again : Bool × Proc
    again = with_slot (acquire_slot limit r) r

    within : Bool × Proc
    within = if leb r.max_restarts r.restart_count then (false, give_up r) else again

    allowed : Bool × Proc
    allowed = if not (policy_allows r.restart_policy failed) then (false, r) else within

finish_backoff-Accounts :
    (others : ℕ) (spawned : Bool) (r : Proc)
    → r.state ≡ restarting
    → Accounts others r
    → Accounts others (finish_backoff spawned r)
unfolding finish_backoff is_live can_transition same_state
finish_backoff-Accounts others spawned r h a = ground arith

restart_stopped-Accounts :
    (others limit : ℕ) (spawned : Bool) (r : Proc)
    → (r.state ≡ exited) ⊎ (r.state ≡ crashed)
    → Accounts others r
    → Accounts others (restart_stopped limit spawned r).1
unfolding restart_stopped is_live can_transition same_state
restart_stopped-Accounts others limit spawned r h a = ground arith

spawn_failed-Accounts :
    (others : ℕ) (r : Proc)
    → r.state ≡ starting
    → Accounts others r
    → Accounts others (set_state crashed (λ p. record p { exit_failed = true }) r).1
unfolding set_state is_live can_transition same_state
spawn_failed-Accounts others r h a = ground arith

move-Accounts :
    (others : ℕ) (to : ProcessState) (r : Proc)
    → to ≢ restarting
    → Accounts others r
    → Accounts others (set_state to (λ p. p) r).1
unfolding set_state is_live can_transition same_state
move-Accounts others to r n a = ground arith

restore_state-Accounts :
    (others : ℕ) (to : ProcessState) (r : Proc)
    → is_terminal to ≡ true
    → Accounts others r
    → Accounts others (restore_state to r)
unfolding restore_state is_live is_terminal same_state drop_slot
restore_state-Accounts others to r h a = ground arith

monitor-Accounts :
    (others limit : ℕ) (failed lasted : Bool) (r : Proc)
    → has_process r.state ≡ true
    → Accounts others r
    → Accounts others (monitor limit failed lasted r).1
unfolding monitor maybe_restart
monitor-Accounts others limit failed lasted r h a =
    decide_restart-Accounts others limit failed (settle_count lasted (record_exit failed r))
      (settle_count-Idle others lasted _ (record_exit-Idle others failed r h a))

Step-Accounts : (others : ℕ) {r s : Proc} → Step r s → Accounts others r → Accounts others s
Step-Accounts others (started r h) a = move-Accounts others starting r (λ p. cc) a
Step-Accounts others (spawn_failed r h) a = spawn_failed-Accounts others r h a
Step-Accounts others (settled r h) a = move-Accounts others running r (λ p. cc) a
Step-Accounts others (probe_passed r h) a = move-Accounts others ready r (λ p. cc) a
Step-Accounts others (run_ended limit failed lasted r h) a =
    monitor-Accounts others limit failed lasted r h a
Step-Accounts others (backoff_over spawned r h) a = finish_backoff-Accounts others spawned r h a
Step-Accounts others (restarts_off r) a = record {
  balance = a.balance;
  live_only = a.live_only;
  counted = a.counted;
  pending = a.pending;
}
Step-Accounts others (restarted limit spawned r h) a =
    restart_stopped-Accounts others limit spawned r h a
Step-Accounts others (not_adopted to r h) a = restore_state-Accounts others to r h a

-- From a record that accounts for its slot, in every state that it can reach: the limiter's count is
-- what the others hold and this record's slot, only a live record holds one, and the counter of
-- restarts stays within the budget.
pub Reach-Accounts : (others : ℕ) {r s : Proc} → Accounts others r → Reach r s → Accounts others s
Reach-Accounts others a here = a
Reach-Accounts others a (next path step) = Step-Accounts others step (Reach-Accounts others a path)

-- A new record that has been given a slot accounts for it once it starts.
pub new_record-Accounts :
    (others : ℕ) (policy : RestartPolicy) (max_restarts backoff : ℕ)
    → Accounts others
        (set_state starting
          (λ p. p)
          (hold_slot (new_record policy max_restarts backoff (others + 1)))).1
unfolding new_record hold_slot set_state same_state can_transition is_live
new_record-Accounts others policy max_restarts backoff = ground arith
