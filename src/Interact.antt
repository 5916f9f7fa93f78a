-- ===== src/Interact.antt =====
-- The client while the terminal is passed through: `interact_run` of src/repl.c. `malloc` and the
-- writes to the pipe succeed, and `writen` of src/utils.c writes all it is given.
pub mod Turns
pub mod Goes
pub mod Keyboard
pub mod Ends
use termtunnel.Base.{
  ℕ, Bytes, Bool, List, Result, ok, if◌then◌else◌, ◌++◌, none, [], fault, ◌==◌, ◌>>=◌, aborted,
  out_of_bounds, take, false, ◌∷◌, some, true, guard, ◌>>◌, ltb, ◌+◌, ◌^◌, int_overflow,
}
use termtunnel.Repl.{Received, recv_data, ReadEvent}
use termtunnel.Command
use termtunnel.Packet.{Packet}
use termtunnel.Words.{from_le}

-- What `read` of the terminal returns in a turn that has it ready.
pub data Keys : Type 0 where
  none_ready : Keys
  typed : Bytes → Keys
  read_failed : Keys

-- A turn of `select`: -1 with EINTR, -1 with another error, or the two descriptors it has found
-- ready: the terminal, and whether the pipe of the server is.
pub data Turn : Type 0 where
  select_interrupted select_failed : Turn
  ready : Keys → Bool → Turn

-- What the client writes: packets to the server, and bytes to its terminal.
pub data Written : Type 0 where
  to_server : ℕ → Bytes → Written
  to_stdout : Bytes → Written

-- `g_oneshot_mode` and `ping_count` of src/repl.c, which is an `int64_t`.
pub record Client : Type 0 where
  pub oneshot_mode : Bool
  pub ping_count : ℕ

-- The loop goes on, the process exits with these four bytes as an `int`, or `interact_run` returns.
pub data Ending : Type 0 where
  running : Ending
  exited : ℕ → Ending
  entered : Ending

-- The reads of the pipe and the turns still to come.
pub record Interaction : Type 0 where
  pub ending : Ending
  pub client : Client
  pub actions : List Written
  pub events : List ReadEvent
  pub turns : List Turn

-- Any result of `read` below 1 fails the `CHECK`.
unfoldable pub interact_keys : Keys → Result (List Written)
interact_keys none_ready = ok []
interact_keys read_failed = fault aborted
interact_keys (typed []) = fault aborted
interact_keys (typed (a ∷ r)) = ok (to_server Command.tty_plain_data (a ∷ r) ∷ [])

-- The memory at `buf`, which is NULL only for a size out of range.
abbrev memory_of : Received → Result Bytes
memory_of r = elim r.buf [ none ↦ fault out_of_bounds | some b ↦ ok b ]

-- The `switch` on the type of the server's packet.
unfoldable pub interact_packet : Client → Received → Result (Ending × Client × List Written)
interact_packet c r =
    if r.type == Command.tty_plain_data
    then (memory_of r >>= λ b. ok (running, c, to_stdout (take r.size b) ∷ []))
    else if r.type == Command.cmd_exit
    then (guard (r.size == 4) aborted >> memory_of r >>= λ b.
        ok (exited (from_le (take 4 b)), c, []))
    else if r.type == Command.enter_repl
    then ok (entered, record c { oneshot_mode = r.size == 8 }, [])
    else if r.type == Command.tty_ping
    then (guard (ltb (c.ping_count + 1) (2 ^ 63)) int_overflow
        >> ok (running, record c { ping_count = c.ping_count + 1 }, []))
    else fault aborted

-- The part of a turn behind the test of the pipe.
unfoldable pub interact_income :
    Client → Bool → List ReadEvent → Result (Ending × Client × List Written × List ReadEvent)
unfolding recv_data interact_packet
interact_income c false evs = ok (running, c, [], evs)
interact_income c true evs = do
  r ← recv_data evs
  p ← interact_packet c r.0
  ok (p.0, p.1, p.2, r.1)

-- A turn ends the loop, or the turns behind it run.
abbrev pub interact_then :
    List Written
    → Ending × Client × List Written × List ReadEvent
    → List Turn
    → Result Interaction
    → Result Interaction
interact_then keys (running, c, out, evs) ts rest =
    rest >>= λ r. ok (record r { actions = keys ++ (out ++ r.actions) })
interact_then keys (ending, c, out, evs) ts rest =
    ok (record { ending = ending; client = c; actions = keys ++ out; events = evs; turns = ts })

-- `interact_run` in these turns.
unfoldable pub interact_run : Client → List Turn → List ReadEvent → Result Interaction
unfolding interact_keys interact_income
interact_run c [] evs =
    ok (record { ending = running; client = c; actions = []; events = evs; turns = [] })
interact_run c (select_interrupted ∷ ts) evs = interact_run c ts evs
interact_run c (select_failed ∷ ts) evs = fault aborted
interact_run c (ready keys pipe ∷ ts) evs = do
  k ← interact_keys keys
  p ← interact_income c pipe evs
  interact_then k p ts (interact_run p.1 ts p.3)

-- The packets for the server among what the client writes.
abbrev pub server_part : List Written → List Packet
server_part [] = []
server_part (to_server n b ∷ more) = record { type = n; payload = b } ∷ server_part more
server_part (to_stdout b ∷ more) = server_part more

-- The bytes for the terminal among them.
abbrev pub stdout_part : List Written → Bytes
stdout_part [] = []
stdout_part (to_server n b ∷ more) = stdout_part more
stdout_part (to_stdout b ∷ more) = b ++ stdout_part more
