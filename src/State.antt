-- ===== src/State.antt =====
-- The globals of src/state.c: the mode of the process and the counter of running tasks, which
-- src/utils.c keeps behind a lock. An `int` is its pattern of 32 bits.
use termtunnel.Base.{ℕ, Bool, ◌+◌, ◌^◌, List, ◌<◌, ◌%◌, ◌-◌, ◌∷◌, true, false, [], ◌≡◌, arith}
use termtunnel.Income.{StateMode, mode_client, mode_agent, mode_server}

pub record State : Type 0 where
  pub state_mode : StateMode
  pub task_counter : ℕ

abbrev pub get_state_mode : State → StateMode
get_state_mode s = s.state_mode

unfoldable pub set_server_process : State → State
set_server_process s = record s { state_mode = mode_server }

unfoldable pub set_client_process : State → State
set_client_process s = record s { state_mode = mode_client }

unfoldable pub set_agent_process : State → State
set_agent_process s = record s { state_mode = mode_agent }

abbrev pub utils_counter_init : ℕ
utils_counter_init = 0

abbrev pub utils_counter_increment_by : ℕ → ℕ → ℕ
utils_counter_increment_by c by = (c + by) % 2 ^ 32

-- `true` for 1 and `false` for -1, the two values that are passed.
abbrev pub change_of : Bool → ℕ
change_of true = 1
change_of false = 2 ^ 32 - 1

unfoldable pub set_running_task_changed : Bool → State → State
set_running_task_changed up s = record s {
  task_counter = utils_counter_increment_by s.task_counter (change_of up);
}

abbrev pub get_running_task_count : State → ℕ
get_running_task_count s = s.task_counter

unfoldable pub termtunnel_state_init : State → State
termtunnel_state_init s = record s { task_counter = utils_counter_init }

-- Changes, one after the other.
unfoldable pub changed : List Bool → State → State
unfolding set_running_task_changed
changed [] s = s
changed (up ∷ more) s = changed more (set_running_task_changed up s)

-- A task that starts and ends leaves the count as it was.
pub changed_back :
    (s : State)
    → s.task_counter < 2 ^ 32
    → get_running_task_count (changed (true ∷ false ∷ []) s) ≡ get_running_task_count s
unfolding changed set_running_task_changed
changed_back s h = omega arith
