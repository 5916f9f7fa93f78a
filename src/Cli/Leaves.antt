-- ===== src/Cli/Leaves.antt =====
-- The way back to the terminal: `exit` in `repl_run` of src/repl.c, the server of src/pipe.c, and the
-- agent of src/agent.c.
use termtunnel.Base.{
  ℕ, Bytes, List, ◌≢◌, [], ◌≡◌, ◌∷◌, ◌<◌, ok, flatten, ◌^◌, codes, refl, fault, map, ◌++◌, All,
  bytes_eq, arith, suc, false, ◌==◌, length, ◌*◌, ap, ◌≤◌, ◌∙◌, append-nil, append_assoc, ne→==,
  zero,
}
use termtunnel.Base64.{Base64}
use termtunnel.Repl.Runs.{repl_run, repl_loop, read_running_task}
use termtunnel.Repl.Recv.{recv_data_gets, IsRead, stream, received}
use termtunnel.Server.{server_handle_client_packet, Server, send_data_to_agent, to_tty}
use termtunnel.Server.Quiet.{cli_part}
use termtunnel.Command
use termtunnel.Packet.{Packet}
use termtunnel.Words.{le_bytes, length-le_bytes, from_le-le_bytes}
use termtunnel.Repl.Commands.{repl_execve, find_action, exit_func}
use termtunnel.Packet.Stream.{encode_all, encode}
use termtunnel.Repl.{
  ClientAction, split, ReadEvent, send, say, running_tasks, World, Code, leave, recv_data, proceed,
}
use termtunnel.Agent.Frames.{frames_of}
use termtunnel.Agent.{agent_process_frame, AgentRead, agent_reads, agent_init, exit}
use termtunnel.Agent.Stdin.{IsReadable, agent_reads_frames}
use termtunnel.Tunnel.Down.{process_frames}

-- What the server answers to `COMMAND_GET_RUNNING_TASK_COUNT` when it counts `n` tasks.
abbrev pub count_reply : Server → ℕ → List Packet
count_reply s n =
    elim (server_handle_client_packet (record s { task_count = n }) Command.get_running_task_count
      []) [ ok r ↦ cli_part r.1 | fault x ↦ [] ]

abbrev pub count_replies : Server → List ℕ → Bytes
count_replies s ns = encode_all (flatten (map (count_reply s) ns))

abbrev pub count_packet : ℕ → Packet
count_packet n = record { type = Command.return; payload = le_bytes 4 n }

count_reply-packet : (s : Server) (n : ℕ) → count_reply s n ≡ count_packet n ∷ []
unfolding server_handle_client_packet
count_reply-packet s n = refl

pub count_replies-cons :
    (s : Server) (n : ℕ) (ns : List ℕ)
    → count_replies s (n ∷ ns) ≡ encode (count_packet n) ++ count_replies s ns
count_replies-cons s n ns = rw (count_reply-packet s n) refl

-- A refused `exit` for each count of tasks, and then one that is not refused.
abbrev pub refused_exits : List ℕ → List ClientAction
refused_exits [] = send Command.get_running_task_count [] ∷ send Command.exit_repl [] ∷ []
refused_exits (n ∷ ns) =
    send Command.get_running_task_count [] ∷ say (running_tasks n) ∷ refused_exits ns

-- A count of tasks that still run.
abbrev pub IsBusy : ℕ → Type 0
IsBusy n = n ≢ 0 × (n < 2 ^ 32)

abbrev pub IsExit : Bytes → Type 0
IsExit line = split line 20 ≡ codes "exit" ∷ []

count_received :
    (n : ℕ) (evs more : List ReadEvent)
    → n < 2 ^ 32
    → recv_data evs ≡ ok (received (count_packet n), more)
    → read_running_task evs ≡ ok (n, more)
unfolding read_running_task le_bytes
count_received n evs more h e =
    rw e (ap (λ k. ok (k, more)) (from_le-le_bytes 4 n (omega (arith, h))))

pub read_running_task_gets :
    (n : ℕ) (evs : List ReadEvent) (rest : Bytes)
    → n < 2 ^ 32
    → All IsRead evs
    → stream evs ≡ encode (count_packet n) ++ rest
    → (more : List ReadEvent) × (read_running_task evs ≡ ok (n, more))
      × (stream more ≡ rest)
      × All IsRead more
read_running_task_gets n evs rest h g e =
    let (more, ran, left, good) =
      recv_data_gets (count_packet n) rest evs (omega arith) (omega (arith, length-le_bytes 4 n)) g
        e in
    (more, count_received n evs more h ran, left, good)

abbrev pub ask : ClientAction
ask = send Command.get_running_task_count []

-- The last `exit`: no task runs.
exits_last :
    (fuel : ℕ) (w : World) (code : Code) (line : Bytes) (lines : List Bytes)
    (evs more : List ReadEvent)
    → IsExit line
    → read_running_task evs ≡ ok (0, more)
    → repl_loop (suc (suc fuel)) w code false (line ∷ lines) evs
      ≡ ok (ask ∷ send Command.exit_repl [] ∷ [], more)
unfolding repl_loop repl_execve find_action exit_func bytes_eq
exits_last fuel w code line lines evs more x e = rw (x, e) refl

-- An `exit` that is refused.
exits_not :
    (fuel : ℕ) (w : World) (code : Code) (line : Bytes) (lines : List Bytes)
    (evs more : List ReadEvent) (n : ℕ) (r : List ClientAction × List ReadEvent)
    → IsExit line
    → read_running_task evs ≡ ok (n, more)
    → (n == 0) ≡ false
    → repl_loop fuel w leave false lines more ≡ ok r
    → repl_loop (suc (suc fuel)) w code false (line ∷ lines) evs
      ≡ ok (ask ∷ say (running_tasks n) ∷ r.0, r.1)
unfolding repl_loop repl_execve find_action exit_func bytes_eq
exits_not fuel w code line lines evs more n r x e busy f = rw (x, e, busy, f) refl

exits :
    (ns : List ℕ) (fuel : ℕ) (w : World) (s : Server) (code : Code) (lines : List Bytes)
    (evs : List ReadEvent) (rest : Bytes)
    → length lines ≡ suc (length ns)
    → 2 * suc (length ns) ≤ fuel
    → All IsExit lines
    → All IsBusy ns
    → All IsRead evs
    → stream evs ≡ count_replies s (ns ++ 0 ∷ []) ++ rest
    → (more : List ReadEvent) × (repl_loop fuel w code false lines evs
        ≡ ok (refused_exits ns, more))
      × (stream more ≡ rest)
exits ns zero w s code lines evs rest l f x b g e = absurd (omega (arith, f))
exits ns (suc zero) w s code lines evs rest l f x b g e = absurd (omega (arith, f))
exits ns (suc (suc fuel)) w s code [] evs rest l f x b g e = absurd (omega (arith, l))
exits [] (suc (suc fuel)) w s code (line ∷ lines) evs rest l f x b g e =
    let (more, ran, left, good) = read_running_task_gets 0 evs rest (omega arith) g (
      e ∙ ap (λ l. l ++ rest) (count_replies-cons s 0 [] ∙ append-nil (encode (count_packet 0)))) in
    (more, exits_last fuel w code line lines evs more x.0 ran, left)
exits (n ∷ ns) (suc (suc fuel)) w s code (line ∷ lines) evs rest l f x b g e =
    let (more, ran, left, good) =
      read_running_task_gets n evs (count_replies s (ns ++ 0 ∷ []) ++ rest) b.0.1 g (
        e
        ∙ ap (λ l. l ++ rest) (count_replies-cons s n (ns ++ 0 ∷ []))
        ∙ append_assoc (encode (count_packet n)) _ rest) in
    let (end, went, behind) =
      exits ns fuel w s leave lines more rest (omega (arith, l)) (omega (arith, f)) x.1 b.1 good
        left in
    (
      end,
      exits_not fuel w code line lines evs more n (refused_exits ns, end) x.0 ran (ne→== n 0 b.0.0)
          went,
      behind,
    )

frames_of_exit : (frames_of [] (codes "EXIT!\n")).0 ≡ codes "EXIT" ∷ []
unfolding frames_of
frames_of_exit = refl

-- The user types `exit` in `repl_run`, once more than there are counts, of 32 bits and not 0, of
-- tasks that still run; the pipe holds the server's answers with these counts, and at last with
-- none, and then what follows. With two rounds of fuel for each line, `repl_run` returns: it has
-- asked once for each line, told the user of the tasks at each refusal, and sent
-- `COMMAND_EXIT_REPL` once, at the end. The server then takes the agent for gone, so that it
-- copies the terminal to the client again, and types what ends the agent: however the agent's
-- terminal cuts these bytes into reads, of the sizes that it allows, an agent that has just
-- started does nothing but exit.
pub repl_run-leaves :
    (ns : List ℕ) (fuel : ℕ) (w : World) (s : Server) (lines xs : List Bytes) (evs : List ReadEvent)
    (rest : Bytes) (codec : Base64)
    → length lines ≡ suc (length ns)
    → 2 * suc (length ns) ≤ fuel
    → All IsExit lines
    → All IsBusy ns
    → All IsRead evs
    → stream evs ≡ count_replies s (ns ++ 0 ∷ []) ++ rest
    → IsReadable xs
    → flatten xs ≡ codes "EXIT!\n"
    → (more : List ReadEvent) × (repl_run fuel w lines evs ≡ ok (refused_exits ns, more))
      × (stream more ≡ rest)
      × (server_handle_client_packet s Command.exit_repl []
          ≡ ok (record s { sees_agent = false }, to_tty (flatten xs) ∷ []))
      × (r : AgentRead) × (agent_reads 2 agent_init xs ≡ ok r)
      × (process_frames codec r.frames ≡ exit ∷ [])
unfolding repl_run server_handle_client_packet send_data_to_agent agent_process_frame bytes_eq
repl_run-leaves ns fuel w s lines xs evs rest codec l f x b g e readable typed_out =
    let (more, ran, left) = exits ns fuel w s proceed lines evs rest l f x b g e in
    let (r, read, found, kept) = agent_reads_frames xs readable in
    (more, ran, left, rw typed_out refl, r, read, rw (found, typed_out, frames_of_exit) refl)
