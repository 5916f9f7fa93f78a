-- ===== src/Agent/Start.antt =====
-- The start of the agent: `agent` of src/agent.c.
use termtunnel.Base.{ℕ, List, Bool, Bytes, ◌∷◌, if◌then◌else◌, false, [], true, codes, ◌++◌, ltb}
use termtunnel.Utils.{green_encode}
use termtunnel.Agent.{max_suggested_size, ltb}
use termtunnel.Income.{Income, push_data}
use termtunnel.Setup.{until_failure}

-- The calls of `agent` behind its greeting, in order.
pub data AgentStep : Type 0 where
  timer_init timer_start stdin_init stdout_init stdin_read_start add_vnet_notify start_vnet
        run_loop :
      AgentStep

-- `g_oneshot_argv`, what the terminal shows, the calls made, and the status of `exit`.
pub record AgentStart : Type 0 where
  pub oneshot_argv : List Bytes
  pub greeting : Bytes
  pub calls : List AgentStep
  pub status : ℕ

abbrev pub has_arguments : List Bytes → Bool
has_arguments [] = false
has_arguments (a ∷ r) = true

-- `agent` with these arguments; `succeeds` tells which calls return 0. The last three are not tested.
unfoldable pub agent : (AgentStep → Bool) → List Bytes → AgentStart
unfolding until_failure
agent succeeds argv =
    let r =
      until_failure succeeds
        (timer_init ∷ timer_start ∷ stdin_init ∷ stdout_init ∷ stdin_read_start ∷ []) in
    record {
      oneshot_argv = argv;
      greeting = green_encode (if has_arguments argv then codes "ONESHOT!" else codes "MAGIC!");
      calls = r.0 ++ (if r.1 then add_vnet_notify ∷ start_vnet ∷ run_loop ∷ [] else []);
      status = if r.1 then 0 else 1;
    }

-- The room that libuv gets for a read of the terminal.
unfoldable pub alloc_buffer : ℕ → ℕ
alloc_buffer suggested_size =
    if ltb max_suggested_size suggested_size then max_suggested_size else suggested_size

-- The reminder of the agent's queue.
unfoldable pub agent_timer_callback : Income → Income
unfolding push_data
agent_timer_callback s = elim s.queue [ [] ↦ s | f ∷ fs ↦ push_data s ]
