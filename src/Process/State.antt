-- ===== src/Process/State.antt =====
-- internal/agent/process/state.go: the states of a supervised process and the table of legal moves.
use f1337_mcp.Prelude.{Bool, true, false}

pub data ProcessState : Type 0 where
  unspecified starting ready running exited crashed restarting orphaned : ProcessState

-- The map `transitions`, read as `transitions[from][to]`: a move that is not there is false.
unfoldable pub can_transition : ProcessState → ProcessState → Bool
can_transition unspecified starting = true
can_transition starting ready = true
can_transition starting running = true
can_transition starting exited = true
can_transition starting crashed = true
can_transition running ready = true
can_transition running exited = true
can_transition running crashed = true
can_transition running restarting = true
can_transition ready exited = true
can_transition ready crashed = true
can_transition ready restarting = true
can_transition exited restarting = true
can_transition crashed restarting = true
can_transition restarting starting = true
can_transition restarting crashed = true
can_transition _ _ = false

unfoldable pub is_terminal : ProcessState → Bool
is_terminal exited = true
is_terminal crashed = true
is_terminal orphaned = true
is_terminal _ = false

unfoldable pub is_live : ProcessState → Bool
is_live starting = true
is_live ready = true
is_live running = true
is_live restarting = true
is_live _ = false

-- `from == to`
unfoldable pub same_state : ProcessState → ProcessState → Bool
same_state unspecified unspecified = true
same_state starting starting = true
same_state ready ready = true
same_state running running = true
same_state exited exited = true
same_state crashed crashed = true
same_state restarting restarting = true
same_state orphaned orphaned = true
same_state _ _ = false
