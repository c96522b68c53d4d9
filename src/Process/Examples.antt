-- ===== src/Process/Examples.antt =====
-- Runs of the supervisor and of the log buffer on concrete data.
use f1337_mcp.Prelude.{
  ℕ, ◌≡◌, refl, ◌↔◌, true, false, List, [], ◌∷◌, map, if◌then◌else◌, All, Text, codes,
}
use f1337_mcp.Process.State.{
  is_live, can_transition, same_state, starting, running, exited, restarting,
}
use f1337_mcp.Process.Record.{always, Proc, new_record, hold_slot, set_state}
use f1337_mcp.Process.Restart.{monitor}
use f1337_mcp.Process.Slots.{
  has_process, Accounts, Reach, here, next, run_ended, Reach-Accounts, new_record-Accounts, settled,
}
use f1337_mcp.Process.Outcome.{Restarts, monitor_outcome}
use f1337_mcp.Process.LogBuffer.{unsubscribe, new_log_buffer, snapshot, append}
use f1337_mcp.Process.LogBuffer.Writes.{Write, write_all, written, last_lines, snapshot-write_all}
use f1337_mcp.Process.LogBuffer.Followers.{
  Turn, wrote, joined, left, took, turn, turns, got, received, find_sub, oldest_of, take_one,
  rest_of, writes_of, Keeps, Follows,
}
use f1337_mcp.Process.LogBuffer.Followers.Gapless.{snapshot-turns-Follows}

-- A record that holds one of three slots and has started.
abbrev young : Proc
young = (set_state starting (λ p. p) (hold_slot (new_record always 2 0 3))).1

abbrev up : Proc
up = (set_state running (λ p. p) young).1

abbrev waiting : Proc
waiting = (monitor 5 true false up).1

-- The process runs and fails, and a restart waits.
abbrev failing_run : Reach young waiting
unfolding set_state same_state hold_slot new_record can_transition is_live has_process
failing_run = next (next here (settled young refl)) (run_ended 5 true false up refl)

Reach-Accounts_example : Accounts 2 waiting
Reach-Accounts_example = Reach-Accounts 2 (new_record-Accounts 2 always 2 0) failing_run

-- A budget that is spent: the clean exit leaves EXITED.
monitor_outcome_example :
    let (waiting, r') = monitor 5 false false (record up { max_restarts = 0 }) in
    ((waiting ≡ true) ↔ Restarts 5 false false (record up { max_restarts = 0 }))
    × (r'.state ≡ (if waiting then restarting else exited))
unfolding has_process set_state same_state hold_slot new_record can_transition is_live
monitor_outcome_example = monitor_outcome 5 false false (record up { max_restarts = 0 }) refl

abbrev say : Text → Write
say text = record { stream = 1; text = text; at = 7; cont = false }

abbrev three_writes : List Write
three_writes = say (codes "a") ∷ say (codes "b") ∷ say (codes "c") ∷ []

snapshot-write_all_example :
    (snapshot (write_all three_writes (new_log_buffer 2))).0.0
    ≡ last_lines 2 (written 0 three_writes)
unfolding new_log_buffer
snapshot-write_all_example = snapshot-write_all 2 three_writes

-- Another follower joins and a line is written before the snapshot, and of the two lines after it one is
-- read.
abbrev history : List Turn
history = joined ∷ wrote (say (codes "a")) ∷ []

abbrev some_turns : List Turn
some_turns =
    wrote (say (codes "b")) ∷ wrote (say (codes "c")) ∷ took 1 ∷ left 0 ∷ took 1 ∷ took 0 ∷ []

some_turns-Keeps : All (Keeps (snapshot (turns history (new_log_buffer 2))).0.1.key) some_turns
unfolding new_log_buffer snapshot turns turn append
some_turns-Keeps = (λ e. cc, (λ e. cc, (λ e. cc, (λ e. cc, (λ e. cc, (λ e. cc, tt))))))

snapshot-turns-Follows_example :
    let b = turns history (new_log_buffer 2) in
    let ((_, sub), b') = snapshot b in
    Follows sub.key
      (written b.next_seq (writes_of some_turns))
      (received sub.key some_turns b')
      (turns some_turns b')
snapshot-turns-Follows_example = snapshot-turns-Follows 2 history some_turns some_turns-Keeps

-- The second follower reads both lines, the first of them with the number 1.
reads :
    map {B = ℕ × ℕ}
      (λ d. (d.line.seq, d.dropped))
      (received 1 some_turns (snapshot (turns history (new_log_buffer 2))).1)
    ≡ (1, 0) ∷ (2, 0) ∷ []
unfolding new_log_buffer snapshot turns turn append received got find_sub oldest_of take_one rest_of
    unsubscribe
reads = refl
