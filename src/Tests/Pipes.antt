-- ===== src/Tests/Pipes.antt =====
-- The packets of the pipes, the flow control and the queue of the network stack.
use termtunnel.Base.{
  [], codes, Bytes, List, ◌≡◌, false, ◌∷◌, take, ok, true, ◌+◌, arith, drop, refl, ◌++◌, not,
}
use termtunnel.Packet.{Packet, Reply, parser, parser_init, read_all, send_binary}
use termtunnel.Packet.Reads.{read_all-encode_all}
use termtunnel.Flow.{
  write_cb, comm_write_data_to_cli, agent_write_data_to_server, flow_init, taken, refused,
}
use termtunnel.Flow.Resumes.{
  ServerFlow, AgentFlow, agent_resumes, server_counts, refusals, start, write, done, has_stopped,
}
use termtunnel.Income.{mode_agent, uvloop_process_income, notify_all}
use termtunnel.Income.Order.{process_income_sends}
use termtunnel.Words.{le_bytes}

abbrev ping : Packet
ping = record { type = 5; payload = [] }

abbrev keys : Packet
keys = record { type = 1; payload = codes "ls" }

abbrev wire : Bytes
wire = 0 ∷ 0 ∷ 0 ∷ 0 ∷ 0 ∷ 0 ∷ 0 ∷ 0 ∷ 5 ∷ 0 ∷ 0 ∷ 0 ∷ 0 ∷ 0 ∷ 0 ∷ 0 ∷ []

abbrev wire_keys : Bytes
wire_keys = 2 ∷ 0 ∷ 0 ∷ 0 ∷ 0 ∷ 0 ∷ 0 ∷ 0 ∷ 1 ∷ 0 ∷ 0 ∷ 0 ∷ 0 ∷ 0 ∷ 0 ∷ 0 ∷ codes "ls"

abbrev cuts : List Bytes
cuts = take 3 wire ∷ (drop 3 wire ++ take 9 wire_keys) ∷ drop 9 wire_keys ∷ []

read_all-encode_all_example :
    (r : Reply) × (read_all parser_init cuts ≡ ok r)
    × (r.packets ≡ ping ∷ keys ∷ [])
    × (r.failed ≡ false)
    × (r.parser.queue ≡ [])
    × (r.parser.expect_content ≡ false)
unfolding send_binary le_bytes
read_all-encode_all_example =
    read_all-encode_all (ping ∷ keys ∷ []) cuts
      (
        record { type_fits = omega arith; size_fits = omega arith },
        (record { type_fits = omega arith; size_fits = omega arith }, tt),
      )
      refl

-- A write that is refused and one that is taken and answered.
abbrev agent_run :
    AgentFlow 0
      (write_cb (agent_write_data_to_server (agent_write_data_to_server flow_init refused) taken))
agent_run = done (write taken (write refused start))

agent_resumes_example :
    ((write_cb (
        agent_write_data_to_server
          (agent_write_data_to_server flow_init refused)
          taken)).pending_send
      ≡ 0)
    × ((write_cb
          (agent_write_data_to_server (agent_write_data_to_server flow_init refused) taken)).reading
        ≡ not (has_stopped agent_run))
agent_resumes_example = agent_resumes agent_run

abbrev server_run :
    ServerFlow 0
      (write_cb (comm_write_data_to_cli (comm_write_data_to_cli flow_init refused) taken))
server_run = done (write taken (write refused start))

server_counts_example :
    (write_cb
      (comm_write_data_to_cli (comm_write_data_to_cli flow_init refused) taken)).pending_send
    ≡ 0 + refusals server_run
server_counts_example = server_counts server_run

process_income_sends_example :
    uvloop_process_income mode_agent false (
      notify_all
        (record { queue = []; dry = false; notified = false })
        (codes "a" ∷ codes "b" ∷ []))
    ≡ (codes "a" ∷ codes "b" ∷ [], record { queue = []; dry = false; notified = true })
process_income_sends_example =
    process_income_sends mode_agent false (record { queue = []; dry = false; notified = false })
      (codes "a") (codes "b" ∷ []) tt
