-- ===== src/Fileexchange/Download.antt =====
-- What src/fileexchange.c makes of a file that one side asks for, and how `file_recv_request` ends.
use termtunnel.Base.{
  Bytes, List, Bool, map, true, ◌≡◌, All, ◌∷◌, ◌++◌, [], false, some, ok, flatten, Bool-cases, refl,
  drop, ap, inl, length, ◌∙◌, inr, append-nil, sym, ◌<◌, ◌^◌,
}
use termtunnel.Fileexchange.{
  System, FileAction, set_running_task_changed, vnet_tcp_connect, vnet_send, open_path, write_file,
  close_file, vnet_close, file_sender_request, file_recv_start, file_recv_request, path_exchange,
}
use termtunnel.Fileexchange.Actions.{
  connections, sent, replay, opened, task_changes, TakesAll, sent-map, replay-map, passes_over,
}
use termtunnel.Fileexchange.Chunks.{copy_loop_ends, chunked_whole, copy_loop_passes}
use termtunnel.Fileexchange.Transfer.{short_path}
use termtunnel.Vnet.{SocketRead, closed, read_chunk_size, vnet_readstring}
use termtunnel.Vnet.Reads.{arrivals, NotEmpty, readstring_loop_gets, duplicate_text}
use termtunnel.State.{State, changed, changed_back, get_running_task_count}
use termtunnel.Intent.RoundTrip.{IsPath}

abbrev asking_actions : System → Bytes → Bytes → List Bytes → List FileAction
asking_actions sys src dst ys =
    set_running_task_changed true
    ∷ vnet_tcp_connect 701
    ∷ vnet_send (sys.sends (src ++ 0 ∷ []))
    ∷ open_path dst
    ∷ (map (λ b. write_file (sys.writes b)) ys
        ++ vnet_close ∷ close_file ∷ set_running_task_changed false ∷ [])

abbrev serving_actions : System → Bytes → List Bytes → List FileAction
serving_actions sys src ys =
    open_path src ∷ (map (λ b. vnet_send (sys.sends b)) ys ++ close_file ∷ vnet_close ∷ [])

asks_file :
    (sys : System) (src dst old : Bytes) (xs : List Bytes)
    → IsPath src
    → IsPath dst
    → sys.writable dst ≡ true
    → TakesAll sys.sends
    → TakesAll sys.writes
    → All NotEmpty xs
    → (a : List FileAction) × (file_recv_start sys src dst
          (record { stale = false; reads = arrivals xs ++ closed ∷ [] })
        ≡ some (ok a))
      × (task_changes a ≡ true ∷ false ∷ [])
      × (sent a ≡ src ++ 0 ∷ [])
      × (opened a ≡ dst ∷ [])
      × (replay [] old a ≡ flatten xs ++ drop (length (flatten xs)) old)
unfolding file_recv_start path_exchange file_recv_request
asks_file sys src dst old xs p q w s t h =
    let (ys, ran, whole, good) = chunked_whole xs h in
    (
      asking_actions sys src dst ys,
      rw
          (
            file_recv_start,
            path_exchange,
            short_path src p,
            short_path dst q,
            file_recv_request,
            w,
            ran,
            copy_loop_passes (λ b. write_file (sys.writes b)) ys good,
          )
          refl,
      ap (◌∷◌ true) (passes_over task_changes (λ b. write_file (sys.writes b)) (λ b m. refl) ys _),
      rw (s (src ++ 0 ∷ []), passes_over sent (λ b. write_file (sys.writes b)) (λ b m. refl) ys _)
          (append-nil _),
      ap (◌∷◌ dst) (passes_over opened (λ b. write_file (sys.writes b)) (λ b m. refl) ys _),
      rw (replay-map sys.writes ys [] old _ t, whole) refl,
    )

serves_file :
    (sys : System) (src : Bytes) (rs ps : List Bytes) (after : List SocketRead)
    → IsPath src
    → sys.readable src ≡ some (arrivals rs ++ closed ∷ [])
    → All NotEmpty rs
    → TakesAll sys.sends
    → All NotEmpty ps
    → flatten ps ≡ src ++ 0 ∷ []
    → (b : List FileAction) × (file_sender_request sys
          (record { stale = false; reads = arrivals ps ++ after })
        ≡ ok b)
      × (opened b ≡ src ∷ [])
      × (sent b ≡ flatten rs)
unfolding file_sender_request vnet_readstring
serves_file sys src rs ps after q r g s h e =
    let (more, got, left, fine) =
      readstring_loop_gets src [] [] [] ps after read_chunk_size q.no_nul q.fits h e in
    let (ys, ran, whole, good) = chunked_whole rs g in
    (
      serving_actions sys src ys,
      rw
          (
            got,
            duplicate_text src q.no_nul,
            r,
            ran,
            copy_loop_passes (λ b. vnet_send (sys.sends b)) ys good,
          )
          refl,
      ap (◌∷◌ src) (passes_over opened (λ b. vnet_send (sys.sends b)) (λ b m. refl) ys _),
      sent-map sys.sends ys _ s ∙ rw (append-nil, whole) refl,
    )

-- A file is fetched with `file_recv_start` on one side, while the other runs `file_sender_request`
-- on the connection, where the reads of the file bring it and end. Both paths are C strings shorter
-- than `PATH_MAX`, every call of `lwip_send`, `lwip_write` and `write` takes all of its bytes, and
-- the bytes of both directions arrive in pieces of any size, with an errno that is not EINTR or
-- EAGAIN from an earlier call. Both threads return. The other side
-- opens exactly the source path, and sends exactly the content. This side has sent exactly that
-- path, has raised the counter of running tasks once and lowered it once, and opens exactly the
-- destination, which then starts with the content; behind it stands what an older, longer file had
-- there.
pub file_recv_start-file_sender_request :
    (here there : System) (src dst old : Bytes) (rs ps xs : List Bytes) (after : List SocketRead)
    → IsPath src
    → IsPath dst
    → there.readable src ≡ some (arrivals rs ++ closed ∷ [])
    → here.writable dst ≡ true
    → All NotEmpty rs
    → TakesAll here.sends
    → TakesAll here.writes
    → TakesAll there.sends
    → All NotEmpty ps
    → flatten ps ≡ src ++ 0 ∷ []
    → All NotEmpty xs
    → flatten xs ≡ flatten rs
    → (a b : List FileAction) × (file_recv_start here src dst
          (record { stale = false; reads = arrivals xs ++ closed ∷ [] })
        ≡ some (ok a))
      × (task_changes a ≡ true ∷ false ∷ [])
      × (sent a ≡ flatten ps)
      × (file_sender_request there (record { stale = false; reads = arrivals ps ++ after }) ≡ ok b)
      × (opened b ≡ src ∷ [])
      × (sent b ≡ flatten xs)
      × (opened a ≡ dst ∷ [])
      × (replay [] old a ≡ flatten rs ++ drop (length (flatten rs)) old)
file_recv_start-file_sender_request here there src dst old rs ps xs after p q r w g s t u h e i f =
    let (a, ran, tasks, asked, path, stored) = asks_file here src dst old xs p q w s t i in
    let (b, got, source, content) = serves_file there src rs ps after p r g u h e in
    (
      a,
      b,
      ran,
      tasks,
      asked ∙ sym e,
      got,
      source,
      content ∙ sym f,
      path,
      stored ∙ ap (λ c. c ++ drop (length c) old) f,
    )

recv_settles :
    (sys : System) (src dst : Bytes) (stale : Bool) (rs : List SocketRead)
    → (a : List FileAction) × (file_recv_request sys src dst
          (record { stale = stale; reads = rs ++ closed ∷ [] })
        ≡ ok a)
      × (task_changes a ≡ true ∷ false ∷ [])
      × (connections a ≡ true ∷ false ∷ [])
unfolding file_recv_request
recv_settles sys src dst stale rs =
    let (zs, ran) = copy_loop_ends (λ b. write_file (sys.writes b)) rs in
    elim (Bool-cases (sys.writable dst)) [
      | inl opens ↦ (
        asking_actions sys src dst zs,
        rw (opens, ran) refl,
        ap (◌∷◌ true)
            (passes_over task_changes (λ b. write_file (sys.writes b)) (λ b m. refl) zs _),
        ap (◌∷◌ true) (passes_over connections (λ b. write_file (sys.writes b)) (λ b m. refl) zs _),
      )
      | inr fails ↦ (
        set_running_task_changed true
            ∷ vnet_tcp_connect 701
            ∷ vnet_send (sys.sends (src ++ 0 ∷ []))
            ∷ open_path dst
            ∷ vnet_close
            ∷ set_running_task_changed false
            ∷ [],
        rw fails refl,
        refl,
        refl,
      )
    ]

-- However the paths are, whether the destination opens, whatever calls take of their bytes, and
-- however the reads of the connection go, errors included, until it is closed: `file_recv_request`
-- returns, has raised the counter of running tasks exactly once and then lowered it once, which
-- leaves the count that it found, and has made one connection and closed it once.
pub file_recv_request_settles :
    (sys : System) (src dst : Bytes) (stale : Bool) (rs : List SocketRead) (s : State)
    → s.task_counter < 2 ^ 32
    → (a : List FileAction) × (file_recv_request sys src dst
          (record { stale = stale; reads = rs ++ closed ∷ [] })
        ≡ ok a)
      × (task_changes a ≡ true ∷ false ∷ [])
      × (get_running_task_count (changed (task_changes a) s) ≡ get_running_task_count s)
      × (connections a ≡ true ∷ false ∷ [])
file_recv_request_settles sys src dst stale rs s h =
    let (a, ran, tasks, conns) = recv_settles sys src dst stale rs in
    (a, ran, tasks, ap (λ t. get_running_task_count (changed t s)) tasks ∙ changed_back s h, conns)
