-- ===== src/Flow/Resumes.antt =====
-- When the reading of the terminal goes on again: over all interleavings of writes and callbacks.
use termtunnel.Base.{Bool, not, ℕ, ◌≡◌, suc, true, arith, ◌<◌, ◌+◌, zero, refl, false}
use termtunnel.Flow.{
  FlowState, flow_init, Outcome, agent_write_data_to_server, write_cb, agent_read_flow,
  comm_write_data_to_cli, Input, input_empty, input_ended, input_taken, input_no_room, taken,
  no_memory, refused,
}

-- The writes in flight after one more has begun.
abbrev pub opened : Outcome → ℕ → ℕ
opened taken n = suc n
opened _ n = n

-- Steps of the server's process; `open` counts the writes that `uv_write` took and has not called
-- back for.
pub data ServerFlow : ℕ → FlowState → Type 0 where
  start : ServerFlow 0 flow_init
  write :
      {n : ℕ} {s : FlowState} (o : Outcome)
      → ServerFlow n s
      → ServerFlow (opened o n) (comm_write_data_to_cli s o)
  done : {n : ℕ} {s : FlowState} → ServerFlow (suc n) s → ServerFlow n (write_cb s)

-- Steps of the agent's process, with those of its reads.
pub data AgentFlow : ℕ → FlowState → Type 0 where
  start : AgentFlow 0 flow_init
  write :
      {n : ℕ} {s : FlowState} (o : Outcome)
      → AgentFlow n s
      → AgentFlow (opened o n) (agent_write_data_to_server s o)
  done : {n : ℕ} {s : FlowState} → AgentFlow (suc n) s → AgentFlow n (write_cb s)
  read : {n : ℕ} {s : FlowState} (i : Input) → AgentFlow n s → AgentFlow n (agent_read_flow s i)

-- The terminal has ended or failed, or there was no room for what it sent, and since then the writes
-- in flight have not all been called back for.
abbrev pub has_stopped : {n : ℕ} {s : FlowState} → AgentFlow n s → Bool
has_stopped start = false
has_stopped (write o r) = has_stopped r
has_stopped (done {n = zero} r) = false
has_stopped (done {n = suc n} r) = has_stopped r
has_stopped (read input_empty r) = has_stopped r
has_stopped (read input_ended r) = true
has_stopped (read input_taken r) = has_stopped r
has_stopped (read input_no_room r) = true

record AgentInv (n : ℕ) (s : FlowState) (stopped : Bool) : Type 0 where
  counted : s.pending_send ≡ n
  resumes : s.pending_send ≡ 0 → s.reading ≡ not stopped

AgentFlow-Inv : {n : ℕ} {s : FlowState} (r : AgentFlow n s) → AgentInv n s (has_stopped r)
unfolding flow_init agent_write_data_to_server write_cb agent_read_flow
AgentFlow-Inv start = record { counted = refl; resumes = λ e. refl }
AgentFlow-Inv (write no_memory r) = let i = AgentFlow-Inv r in ground (arith, i.counted, i.resumes)
AgentFlow-Inv (write refused r) = let i = AgentFlow-Inv r in ground (arith, i.counted, i.resumes)
AgentFlow-Inv (write taken r) = let i = AgentFlow-Inv r in ground (arith, i.counted, i.resumes)
AgentFlow-Inv (done {n = zero} r) = let i = AgentFlow-Inv r in ground (arith, i.counted, i.resumes)
AgentFlow-Inv (done {n = suc n} r) = let i = AgentFlow-Inv r in ground (arith, i.counted, i.resumes)
AgentFlow-Inv (read input_empty r) = let i = AgentFlow-Inv r in ground (arith, i.counted, i.resumes)
AgentFlow-Inv (read input_ended r) = let i = AgentFlow-Inv r in ground (arith, i.counted, i.resumes)
AgentFlow-Inv (read input_taken r) = let i = AgentFlow-Inv r in ground (arith, i.counted, i.resumes)
AgentFlow-Inv (read input_no_room r) =
    let i = AgentFlow-Inv r in ground (arith, i.counted, i.resumes)

-- In the agent, after any steps that leave no write in flight, writes that were refused among them,
-- the count is 0, and the terminal is read unless it has ended or failed, or what it sent found no
-- room, since the last callback that left no write in flight: that callback starts the reading
-- again even at the end of the terminal.
pub agent_resumes :
    {s : FlowState} (r : AgentFlow 0 s) → (s.pending_send ≡ 0) × (s.reading ≡ not (has_stopped r))
agent_resumes r = let i = AgentFlow-Inv r in (i.counted, i.resumes i.counted)

-- The refused writes of a run of the server.
abbrev pub refusals : {n : ℕ} {s : FlowState} → ServerFlow n s → ℕ
refusals start = 0
refusals (write refused r) = suc (refusals r)
refusals (write no_memory r) = refusals r
refusals (write taken r) = refusals r
refusals (done r) = refusals r

record ServerInv (n k : ℕ) (s : FlowState) : Type 0 where
  counted : s.pending_send ≡ n + k
  resumes : s.pending_send ≡ 0 → s.reading ≡ true

ServerFlow-Inv : {n : ℕ} {s : FlowState} (r : ServerFlow n s) → ServerInv n (refusals r) s
unfolding flow_init comm_write_data_to_cli write_cb
ServerFlow-Inv start = record { counted = omega arith; resumes = λ e. refl }
ServerFlow-Inv (write no_memory r) =
    let i = ServerFlow-Inv r in ground (arith, i.counted, i.resumes)
ServerFlow-Inv (write refused r) = let i = ServerFlow-Inv r in ground (arith, i.counted, i.resumes)
ServerFlow-Inv (write taken r) = let i = ServerFlow-Inv r in ground (arith, i.counted, i.resumes)
ServerFlow-Inv (done r) = let i = ServerFlow-Inv r in ground (arith, i.counted, i.resumes)

-- In the server, after any steps, the count is that of the writes in flight and of all writes
-- refused so far: a refused write is counted for ever.
pub server_counts : {n : ℕ} {s : FlowState} (r : ServerFlow n s) → s.pending_send ≡ n + refusals r
server_counts r = (ServerFlow-Inv r).counted

-- `n` callbacks.
abbrev pub callbacks : ℕ → FlowState → FlowState
callbacks zero s = s
callbacks (suc n) s = callbacks n (write_cb s)

-- A terminal that is not read stays so through any number of callbacks that is less than the count
-- of the server.
pub server_stays_stopped :
    (n : ℕ) (s : FlowState)
    → n < s.pending_send
    → s.reading ≡ false
    → (callbacks n s).reading ≡ false
unfolding write_cb
server_stays_stopped zero s h e = e
server_stays_stopped (suc n) s h e =
    server_stays_stopped n (write_cb s) (omega arith) (ground arith)
