-- ===== src/Portforward/Listen.antt =====
-- Ports that src/portforward.c listens on: who owns the sockets, what the client is told, and what
-- every connection becomes.
use termtunnel.Base.{
  ℕ, Bytes, List, ◌≡◌, length, suc, ◌<◌, if◌then◌else◌, refl, replicate, codes, ◌==◌, [], ◌+◌, leb,
  ◌++◌, ap, false, ◌∷◌, arith, true, Bool-cases, inl, inr,
}
use termtunnel.Portforward.{
  bind_at, listen_at, portforward_static_start, StartAction, command_return, close_listener,
  service, Listening, socket_failed, bind_failed, listen_failed, malloc_failed, listening,
  portforward_service_handler, accept_loop, Accept, accept_failed, no_memory, no_thread, started,
  ListenAction, set_running_task_changed, close_new, worker, portforward_static_server_pipe,
  portforward_transparent_server_pipe, PipeAction, not_agent, message,
}
use termtunnel.Income.{StateMode, mode_agent, mode_server, mode_client}
use termtunnel.Intent.{host_max}

-- How often the listening socket is closed, or handed to a thread.
abbrev pub released : List StartAction → ℕ
released [] = 0
released (close_listener ∷ more) = suc (released more)
released (service host port ∷ more) = suc (released more)
released (_ ∷ more) = released more

-- How many listening sockets there are.
abbrev pub sockets_of : Listening → ℕ
sockets_of socket_failed = 0
sockets_of _ = 1

-- `portforward_static_start`, in every mode, for every target and whatever fails: the listening
-- socket, if there is one, is closed or handed to the thread that serves it, exactly one of the two
-- and exactly once.
pub portforward_static_start_releases :
    (mode : StateMode) (src_host : Bytes) (src_port : ℕ) (host : Bytes) (port : ℕ) (o : Listening)
    → released (portforward_static_start mode src_host src_port host port o) ≡ sockets_of o
unfolding portforward_static_start
portforward_static_start_releases mode src_host src_port host port socket_failed = refl
portforward_static_start_releases mode_agent src_host src_port host port bind_failed = refl
portforward_static_start_releases mode_server src_host src_port host port bind_failed = refl
portforward_static_start_releases mode_client src_host src_port host port bind_failed = refl
portforward_static_start_releases mode_agent src_host src_port host port listen_failed = refl
portforward_static_start_releases mode_server src_host src_port host port listen_failed = refl
portforward_static_start_releases mode_client src_host src_port host port listen_failed = refl
portforward_static_start_releases mode src_host src_port host port malloc_failed = refl
portforward_static_start_releases mode src_host src_port host port listening =
    elim (Bool-cases (leb host_max (length host))) [
      | inl long ↦ rw long refl
      | inr short ↦ rw short (told mode)
    ]
  where
    told :
        (mode : StateMode)
        → released (
            (if not_agent mode then message (codes "bind local port done") ∷ [] else [])
            ++ service host port ∷ [])
          ≡ 1
    told mode_agent = refl
    told mode_server = refl
    told mode_client = refl

-- The sockets of connections that `accept` gives.
abbrev pub accepted : List Accept → ℕ
accepted [] = 0
accepted (accept_failed ∷ more) = accepted more
accepted (_ ∷ more) = suc (accepted more)

abbrev pub threads : List Accept → ℕ
threads [] = 0
threads (started ∷ more) = suc (threads more)
threads (_ ∷ more) = threads more

abbrev pub closed_new : List ListenAction → ℕ
closed_new [] = 0
closed_new (close_new ∷ more) = suc (closed_new more)
closed_new (_ ∷ more) = closed_new more

abbrev pub workers : List ListenAction → List (List PipeAction)
workers [] = []
workers (worker w ∷ more) = w ∷ workers more
workers (_ ∷ more) = workers more

abbrev pub expected_worker : Bytes → ℕ → List PipeAction
expected_worker host port =
    if port == 0
    then portforward_transparent_server_pipe
    else portforward_static_server_pipe host port

accept_loop-workers :
    (host : Bytes) (port : ℕ) (accepts : List Accept)
    → length host < host_max
    → (workers (accept_loop host port accepts)
        ≡ replicate (threads accepts) (expected_worker host port))
      × (closed_new (accept_loop host port accepts) + threads accepts ≡ accepted accepts)
unfolding accept_loop
accept_loop-workers host port [] h = (refl, refl)
accept_loop-workers host port (accept_failed ∷ more) h = accept_loop-workers host port more h
accept_loop-workers host port (no_memory ∷ more) h =
    let ih = accept_loop-workers host port more h in (ih.0, omega (arith, ih.1))
accept_loop-workers host port (no_thread ∷ more) h =
    let ih = accept_loop-workers host port more h in (ih.0, omega (arith, ih.1))
accept_loop-workers host port (started ∷ more) h =
    let ih = accept_loop-workers host port more h in
    let short : leb host_max (length host) ≡ false = ground arith in
    (rw short (ap (◌∷◌ (expected_worker host port)) ih.0), rw short (omega (arith, ih.1)))

-- A server that listens for a target host of at most 63 characters: it binds its socket to exactly
-- the source host and port, the client is told so, once, and the thread gets exactly this host and
-- port. Over any sequence of accepts, some of which fail, that thread raises the counter of running
-- tasks, every connection whose thread can be started gets one worker, which goes to this host and
-- port (to the proxy for the port 0), and each other connection is closed.
pub portforward_static_start-portforward_service_handler :
    (src_host : Bytes) (src_port : ℕ) (host : Bytes) (port : ℕ) (accepts : List Accept)
    → length host < host_max
    → (portforward_static_start mode_server src_host src_port host port listening
        ≡ bind_at src_host src_port
          ∷ listen_at 20
          ∷ command_return (codes "bind local port done" ++ 10 ∷ 0 ∷ [])
          ∷ service host port
          ∷ [])
      × (more : List ListenAction) × (portforward_service_handler host port accepts
          ≡ set_running_task_changed true ∷ more)
      × (workers more ≡ replicate (threads accepts) (expected_worker host port))
      × (closed_new more + threads accepts ≡ accepted accepts)
unfolding portforward_static_start portforward_service_handler
portforward_static_start-portforward_service_handler src_host src_port host port accepts h =
    let short : leb host_max (length host) ≡ false = ground arith in
    let w = accept_loop-workers host port accepts h in
    (rw short refl, accept_loop host port accepts, refl, w.0, w.1)
