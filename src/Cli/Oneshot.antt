-- ===== src/Cli/Oneshot.antt =====
-- A oneshot run: from the arguments of the agent, src/agent.c and src/agentcall.c, through
-- `get_args_done_callback` of src/pipe.c to `oneshot_run` of src/repl.c.
use termtunnel.Base.{
  ℕ, List, Bytes, codes, length, ◌∷◌, ◌≡◌, bytes_eq, suc, [], ◌+◌, ◌≤◌, arith, All, length-append,
  ok, replicate, ◌++◌, ◌∙◌, ap, append-nil, append_assoc, ne→==, zero, refl, some, Bool, ◌≢◌,
  flatten, false, map, ◌==◌,
}
use termtunnel.Repl.Runs.{oneshot_run, wait_loop, read_args}
use termtunnel.Repl.Recv.{recv_data_gets, IsRead, received, stream}
use termtunnel.Repl.Upload.{upload_starts}
use termtunnel.Args.RoundTrip.{
  get_args_done_callback-reply_of, read_args-reply_of, reply_of, packed, NoNul,
}
use termtunnel.Agentcall.Arguments.{bootstrap_get_args-args_answer, IsArgument}
use termtunnel.Cli.Leaves.{
  count_replies, IsBusy, ask, read_running_task_gets, count_replies-cons, count_packet,
}
use termtunnel.Interact.Ends.{IsPipe}
use termtunnel.Agent.Start.{agent, AgentStep}
use termtunnel.Server
use termtunnel.Command
use termtunnel.Repl.Commands.{get_command_flags, find_action, repl_execve, basename}
use termtunnel.Server.{Server, server_handle_client_packet}
use termtunnel.Packet.{Packet, send_binary}
use termtunnel.Repl.{
  ClientAction, ReadEvent, send, World, say, recv_data, uploads, the_end, proceed,
}
use termtunnel.Words.{le_bytes, length-le_bytes}
use termtunnel.Packet.Stream.{encode}
use termtunnel.Intent.{path_max}
use termtunnel.Intent.RoundTrip.{IsPath}
use termtunnel.Vnet.Reads.{NotEmpty, arrivals}
use termtunnel.Agentcall.{args_answer, bootstrap_get_args}
use termtunnel.Args.{get_args_done_callback}

-- `oneshot_run` asks again until no task runs.
wait_loop_asks :
    (ns : List ℕ) (fuel : ℕ) (s : Server) (evs : List ReadEvent) (rest : Bytes)
    → suc (length ns) ≤ fuel
    → All IsBusy ns
    → All IsRead evs
    → stream evs ≡ count_replies s (ns ++ 0 ∷ []) ++ rest
    → (more : List ReadEvent) × (wait_loop fuel evs ≡ ok (replicate (suc (length ns)) ask, more))
      × (stream more ≡ rest)
unfolding wait_loop
wait_loop_asks ns zero s evs rest f b g e = absurd (omega (arith, f))
wait_loop_asks [] (suc fuel) s evs rest f b g e =
    let (more, ran, left, good) = read_running_task_gets 0 evs rest (omega arith) g (
      e ∙ ap (λ l. l ++ rest) (count_replies-cons s 0 [] ∙ append-nil (encode (count_packet 0)))) in
    (more, rw ran refl, left)
wait_loop_asks (n ∷ ns) (suc fuel) s evs rest f b g e =
    let (more, ran, left, good) =
      read_running_task_gets n evs (count_replies s (ns ++ 0 ∷ []) ++ rest) b.0.1 g (
        e
        ∙ ap (λ l. l ++ rest) (count_replies-cons s n (ns ++ 0 ∷ []))
        ∙ append_assoc (encode (count_packet n)) _ rest) in
    let (end, went, behind) = wait_loop_asks ns fuel s more rest (omega (arith, f)) b.1 good left in
    (end, rw (ran, ne→== n 0 b.0.0, went) refl, behind)

abbrev pub upload_of : Bytes → List Bytes
upload_of url = codes "upload" ∷ url ∷ []

abbrev reply_packet : List Bytes → Packet
reply_packet argv = record { type = Command.get_args_reply; payload = reply_of argv }

length-reply_of : (url : Bytes) → length (reply_of (upload_of url)) ≡ length url + 12
unfolding packed
length-reply_of url = omega (
  arith,
  length-append (le_bytes 4 2) (codes "upload" ++ 0 ∷ (url ++ 0 ∷ [])),
  length-le_bytes 4 2,
  length-append url (0 ∷ []),
)

-- Behind the reply: the command, the wait, and the end.
abbrev pub upload_actions : Bytes → Bytes → ℕ → List ClientAction
upload_actions url buf asked =
    send Command.get_args []
    ∷ say (uploads url)
    ∷ send Command.file_exchange buf
    ∷ (replicate asked ask ++ say the_end ∷ send Command.exit_repl [] ∷ [])

oneshot_runs :
    (fuel asked n : ℕ) (w : World) (url buf reply : Bytes) (evs ev1 ev2 : List ReadEvent)
    → recv_data evs ≡ ok (record { type = Command.get_args_reply; buf = some reply; size = n }, ev1)
    → read_args reply ≡ ok (upload_of url)
    → repl_execve w (upload_of url) ev1
      ≡ ok (record {
        code = proceed;
        actions = say (uploads url) ∷ send Command.file_exchange buf ∷ [];
        events = ev1;
      })
    → wait_loop fuel ev1 ≡ ok (replicate asked ask, ev2)
    → oneshot_run fuel w evs ≡ ok (upload_actions url buf asked, ev2)
unfolding oneshot_run get_command_flags find_action bytes_eq
oneshot_runs fuel asked n w url buf reply evs ev1 ev2 e a x t = rw (oneshot_run, e, a, x, t) refl

received_reply :
    (url : Bytes)
    → received (reply_packet (upload_of url)) ≡ record {
      type = Command.get_args_reply;
      buf = some (reply_of (upload_of url));
      size = length (reply_of (upload_of url));
    }
received_reply url =
    let some_there : (length (reply_of (upload_of url)) == 0) ≡ false =
      ne→== _ 0 (λ e. absurd (omega (arith, e, length-reply_of url))) in
    rw some_there refl

words_NoNul : (url : Bytes) → NoNul url → All NoNul (upload_of url)
words_NoNul url h = (
  (
    ground arith,
    (ground arith, (ground arith, (ground arith, (ground arith, (ground arith, tt))))),
  ),
  (h, tt),
)

-- An agent is started with `upload PATH`, where the path is a C string that is not empty and fits its
-- field. However its answer to the server is cut into reads, none of which fails, with an errno that
-- is not EINTR or EAGAIN from an earlier call, and however the reply to the client is cut, the
-- server gets these arguments, and `oneshot_run` always returns: it runs the
-- command once, so that the server starts to send the file at the path under its last name, asks
-- for the number of tasks until none runs, with a unit of fuel for each time, and then leaves.
pub oneshot_run-upload :
    (succeeds : AgentStep → Bool) (w : World) (url : Bytes) (s : Server) (xs : List Bytes)
    (ns : List ℕ) (fuel : ℕ) (pipe : Bytes → List ReadEvent) (rest : Bytes)
    → path_max + path_max + 4 ≤ length w.memory
    → url ≢ []
    → IsPath url
    → All NotEmpty xs
    → flatten xs ≡ args_answer (agent succeeds (upload_of url)).oneshot_argv
    → All IsBusy ns
    → suc (length ns) ≤ fuel
    → IsPipe pipe
    → (reply buf : Bytes) × (bootstrap_get_args (record { stale = false; reads = arrivals xs })
        ≡ ok (some (upload_of url)))
      × (get_args_done_callback 2 (some (map some (upload_of url))) ≡ ok reply)
      × (more : List ReadEvent) × (oneshot_run fuel w (
            pipe (
              send_binary Command.get_args_reply reply ++ (count_replies s (ns ++ 0 ∷ []) ++ rest)))
          ≡ ok (upload_actions url buf (suc (length ns)), more))
      × (stream more ≡ rest)
      × (server_handle_client_packet s Command.file_exchange buf
          ≡ ok (s, Server.file_send_start url (basename url) ∷ []))
unfolding agent
oneshot_run-upload succeeds w url s xs ns fuel pipe rest m n p x e b f ip =
    let words = words_NoNul url p.no_nul in
    let arguments : All IsArgument (upload_of url) = (
      record { no_nul = words.0; fits = omega arith },
      (record { no_nul = p.no_nul; fits = omega (arith, p.fits) }, tt),
    ) in
    let reply = reply_of (upload_of url) in
    let bytes =
      send_binary Command.get_args_reply reply ++ (count_replies s (ns ++ 0 ∷ []) ++ rest) in
    let (ev1, got, left, good) =
      recv_data_gets (reply_packet (upload_of url)) (count_replies s (ns ++ 0 ∷ []) ++ rest)
        (pipe bytes) (omega arith) (omega (arith, length-reply_of url, p.fits)) (ip bytes).0
        (ip bytes).1 in
    let (buf, typed, served, few) = upload_starts w url ev1 s m n p in
    let (ev2, waited, behind) = wait_loop_asks ns fuel s ev1 rest f b good left in
    (
      reply,
      buf,
      bootstrap_get_args-args_answer (upload_of url) xs arguments (omega arith) x e,
      get_args_done_callback-reply_of (upload_of url) words (omega arith),
      ev2,
      oneshot_runs fuel (suc (length ns)) (length reply) w url buf reply (pipe bytes) ev1 ev2
          (got ∙ ap (λ r. ok (r, ev1)) (received_reply url))
          (read_args-reply_of (upload_of url) words (omega arith)) typed waited,
      behind,
      served,
    )
