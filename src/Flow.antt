-- ===== src/Flow.antt =====
-- Flow control towards a pipe or a terminal: `pending_send` of src/pipe.c and of src/agent.c, with
-- the reading of the terminal that it stops and starts.
pub mod Resumes
use termtunnel.Base.{ℕ, Bool, ◌+◌, ◌-◌, if◌then◌else◌, true, ltb, ◌==◌, false}

pub record FlowState : Type 0 where
  pub pending_send : ℕ
  pub reading : Bool

-- How a write begins: there is no memory for the request, `uv_write` refuses it (and calls nothing
-- back), or `uv_write` takes it and calls back later.
pub data Outcome : Type 0 where
  no_memory refused taken : Outcome

abbrev pub watermark : ℕ
watermark = 100

-- `comm_write_data_to_cli` of the server.
unfoldable pub comm_write_data_to_cli : FlowState → Outcome → FlowState
comm_write_data_to_cli s o =
    let n = s.pending_send + 1 in
    let on = if ltb watermark n then false else s.reading in
    elim o [
      | no_memory ↦ record { pending_send = n - 1; reading = on }
      | refused ↦ record { pending_send = n; reading = on }
      | taken ↦ record { pending_send = n; reading = on }
    ]

-- `agent_write_data_to_server` of the agent.
unfoldable pub agent_write_data_to_server : FlowState → Outcome → FlowState
agent_write_data_to_server s o =
    let n = s.pending_send + 1 in
    elim o [
      | no_memory ↦ record s { pending_send = n - 1 }
      | refused ↦ record s { pending_send = n - 1 }
      | taken ↦ record s { pending_send = n }
    ]

-- `write_cb_with_free` and `write_cb_without_free`, alike in both processes. A callback answers a
-- write that was taken, so the count is not 0.
unfoldable pub write_cb : FlowState → FlowState
write_cb s =
    let n = s.pending_send - 1 in
    record { pending_send = n; reading = if n == 0 then true else s.reading }

-- What a read of the terminal brings to `agent_read_stdin`: nothing, its end or an error, or bytes,
-- for which the buffer can grow or not.
pub data Input : Type 0 where
  input_empty input_ended input_taken input_no_room : Input

-- What `agent_read_stdin` does with the reading.
unfoldable pub agent_read_flow : FlowState → Input → FlowState
agent_read_flow s input_empty = s
agent_read_flow s input_ended = record s { reading = false }
agent_read_flow s input_taken = record s {
  reading = if ltb watermark s.pending_send then false else s.reading;
}
agent_read_flow s input_no_room = record s { reading = false }

unfoldable pub flow_init : FlowState
flow_init = record { pending_send = 0; reading = true }
