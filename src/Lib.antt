-- ===== src/Lib.antt =====
-- termtunnel
--
-- termtunnel carries network traffic through an interactive terminal session. Three processes take
-- part. The client (src/entry.c, src/repl.c) owns the user's terminal. The server (src/pipe.c) runs the
-- user's shell behind a pseudo-terminal and reads all that is shown on it. The agent (src/agent.c) runs
-- at the far end of that session, often behind ssh, and reads what the server types. Client and server
-- exchange packets over two pipes. The server types frames of coded text, each ended by `!`; the agent
-- prints its frames in green on green, and src/fsm.c finds them in the terminal's output. Both ends
-- hand the decoded frames to an lwIP network stack (src/vnet.c).
--
-- Files and what they model (paths from the repository's root):
--   Fsm.antt          src/fsm.c, src/fsm.h: the state machine, its buffers and their capacities. Stream
--                     is its specification, a scanner of single bytes; Refine, Run and Feed prove that
--                     the machine implements it; Valid holds the bounds, Sizes those of its ints,
--                     and Checked has the machine with a test of them at each step; Green, Output,
--                     Pop and Overflow are about what it keeps.
--   Utils.antt        `green_encode` and `writen` of src/utils.c.
--   Words.antt        integers as bytes in memory, with the low byte first.
--   Packet.antt       `send_binary` of src/repl.c, `parser`, `find_a_packet` and
--                     `common_read_data_from_cli` of src/pipe.c; Writes has what the server writes.
--   Base64.antt       the interface of the base64 library, a parameter.
--   Agent.antt        src/agent.c: the frames that it writes, `process_stdin`, `agent_read_stdin` and
--                     `agent_process_frame`; Start has `agent`.
--   Intent.antt       the structs of src/intent.h, filled in by src/repl.c and read by src/pipe.c.
--   Command.antt      the command numbers of src/intent.h.
--   Server.antt       src/pipe.c: `server_handle_client_packet`, `server_handle_green_packet`,
--                     `common_read_tty` and what they send; `vnet_init` of src/vnet.c. Start has
--                     `server`, `background_loop` and `call_bootstrap_get_args`, Exit the messages at
--                     the end of the program.
--   Flow.antt         `pending_send` in src/pipe.c and src/agent.c, as steps of writes and callbacks.
--   Income.antt       the queue from the network stack to the event loop in src/pipe.c.
--   Repl.antt         src/repl.c: `recv_data` and `split`; Commands has the commands and their table,
--                     Runs has `repl_run` and `oneshot_run`.
--   Interact.antt     `interact_run` of src/repl.c, over turns of `select`. Keyboard goes from the keys to
--                     the terminal of the program, Ends from the exit of the program to that of the
--                     client.
--   Cli.antt          src/entry.c: `cli_loop` and `on_resize`; Start has `main`. Enters goes from the
--                     start of an agent to the client's commands, Oneshot from its arguments to the
--                     command they name, Leaves from `exit` to the end of the agent; Visit joins the
--                     first and the last.
--   Pty.antt          src/pty.c: `do_waitpid`; Exec has `do_exec`, Run the rest of `pty_run`.
--   Terminal.antt     the modes of the terminal that src/utils.c and src/agent.c set and restore.
--   Setup.antt        chains of calls that end at the first failure.
--   Args.antt         `get_args_done_callback` of src/pipe.c, read by `oneshot_run` of src/repl.c.
--   Vnet.antt         reads, writes and connections of the network stack in src/vnet.c: `vnet_readn`,
--                     `vnet_readstring`, `lwip_writen`, `vnet_tcp_connect_with_retry`; Endpoints has
--                     `vnet_listen_at` and `vnet_tcp_connect`.
--   Agentcall.antt    src/agentcall.c: the calls of the agent, for its arguments and to listen on a
--                     port, with the text of the latter that src/pipe.c prints.
--   Fileexchange.antt src/fileexchange.c: both sides of a file that is sent or fetched.
--   Portforward.antt  src/portforward.c: the accept loop, both ends of a forwarded connection, and the
--                     two loops of the relay.
--   Socks.antt        src/socksproxy.c: SOCKS 4, 4A and 5. Http.antt: its HTTP proxy. Proxy.antt: the
--                     thread that tells the three apart.
--   State.antt        src/state.c: the mode, and the counter of running tasks.
--   Netif.antt        the frames that src/vnet.c takes from lwIP and gives to it.
--   Decimal.antt      decimal numbers as `%hu` prints them.
--   Tunnel.antt       both ways through the terminal, from one network stack to the other.
--   Base.antt         names and lemmas that all share; Tests.antt runs the definitions.
--
-- A C function is a definition of the same name. What it writes, sends or calls is a list of actions in
-- order; a failed `CHECK`, an access outside an array and a signed overflow are values of `Fault`. A
-- buffer is the list of its valid bytes beside its capacity. A stream that arrives in pieces is a list
-- of reads.
--
-- Bounds and fuel. `fsm_loop` has fuel for its input and its states, `parser_loop` and the loop that
-- takes frames off the machine for the length of their buffer, and `grow_cap` for one doubling, which is
-- enough for a read of the largest size; the theorems that state a result include that the fuel is
-- enough. `repl_loop` and `wait_loop` take their fuel from the caller, since how long they run depends on
-- the answers of the server; the loops over a socket end with the list of its reads. Allocation
-- succeeds and writes to pipes are complete.
--
-- Fields of type `int` are natural numbers: those of `fsm_context` and `csi_info` (src/fsm.h), the sizes
-- of the buffer of `parser` and `pending_send`. The model stands for the source as long as they, and the
-- `(input_size + n) * 2`, `output_cap * 2` and `new_size` made from them, stay below 2^31; past that the
-- source overflows, and the model goes on. A result that has no bound on its bytes holds of the source
-- within this range. The ints of `agent_read_stdin` have a test for it in the model.
--
-- Threads of the network stack are each modelled on their own, with what the calls of lwIP and of
-- the system return as a list of events or a parameter. The two loops of a relay share their
-- descriptors: what the one does to them (`close`, `lwip_shutdown`) is in the model of the other some
-- results of its calls, of any kind.
--
-- Not modelled: what the calls of libuv, of lwIP, of terminals and of processes do, beyond which of them
-- are made and in which order; the log, the progress bar and the history of command lines; the lock of
-- the counter in src/utils.c; the interleaving of a relay's two threads; signals that arrive while a
-- packet is being written. In Server.antt a remote forward is kept as its four fields, whose text is in
-- Agentcall.antt. The tests of a wait status and `atoi` are parameters, and descriptors of the child in
-- Pty/Exec.antt are a table.
pub mod Base
pub mod Fsm
pub mod Utils
pub mod Words
pub mod Decimal
pub mod Packet
pub mod Base64
pub mod Agent
pub mod Intent
pub mod Command
pub mod Server
pub mod Tunnel
pub mod Repl
pub mod Interact
pub mod Setup
pub mod Terminal
pub mod Pty
pub mod Cli
pub mod Args
pub mod Vnet
pub mod Socks
pub mod Http
pub mod State
pub mod Proxy
pub mod Netif
pub mod Fileexchange
pub mod Portforward
pub mod Agentcall
mod Tests
pub mod Flow
pub mod Income
