-- ===== src/Fileexchange/Transfer.antt =====
-- What src/fileexchange.c makes of a file that is sent from one side to the other.
use termtunnel.Base.{
  Bytes, List, ◌≡◌, length, flatten, All, map, ◌++◌, drop, ◌∷◌, arith, ap, [], sym, append-nil, ◌∙◌,
  ok, append_assoc, refl, some, true, false, leb,
}
use termtunnel.Fileexchange.{
  System, FileAction, set_running_task_changed, vnet_tcp_connect, vnet_send, open_path, write_file,
  close_file, vnet_close, file_receiver_request, file_send_start, file_send_request, path_exchange,
  path_max,
}
use termtunnel.Fileexchange.Actions.{
  sent, replay, opened, task_changes, TakesAll, sent-map, replay-map, passes_over,
}
use termtunnel.Fileexchange.Chunks.{send_loop_passes, chunked_whole, copy_loop_passes}
use termtunnel.Vnet.{closed, read_chunk_size, vnet_readstring}
use termtunnel.Vnet.Reads.{arrivals, NotEmpty, readstring_loop_gets, duplicate_text}
use termtunnel.Intent.RoundTrip.{IsPath}
use termtunnel.Intent.{path_max}

pub short_path : (p : Bytes) → IsPath p → leb path_max (length p) ≡ false
short_path p h = ground (arith, h.fits)

abbrev sender_actions : System → Bytes → Bytes → List Bytes → List FileAction
sender_actions sys src dst ys =
    set_running_task_changed true
    ∷ vnet_tcp_connect 700
    ∷ vnet_send (sys.sends (dst ++ 0 ∷ []))
    ∷ open_path src
    ∷ (map (λ b. vnet_send (sys.sends b)) ys
        ++ vnet_close ∷ close_file ∷ set_running_task_changed false ∷ [])

abbrev receiver_actions : System → Bytes → List Bytes → List FileAction
receiver_actions sys dst zs =
    open_path dst ∷ (map (λ b. write_file (sys.writes b)) zs ++ close_file ∷ vnet_close ∷ [])

sends_file :
    (sys : System) (src dst : Bytes) (rs : List Bytes)
    → IsPath src
    → IsPath dst
    → sys.readable src ≡ some (arrivals rs ++ closed ∷ [])
    → All NotEmpty rs
    → TakesAll sys.sends
    → (a : List FileAction) × (file_send_start sys src dst ≡ some (ok a))
      × (task_changes a ≡ true ∷ false ∷ [])
      × (sent a ≡ dst ++ 0 ∷ flatten rs)
unfolding file_send_start path_exchange file_send_request
sends_file sys src dst rs p q r g s =
    let (ys, ran, whole, good) = chunked_whole rs g in
    (
      sender_actions sys src dst ys,
      rw
          (
            file_send_start,
            path_exchange,
            short_path src p,
            short_path dst q,
            file_send_request,
            r,
            ran,
            send_loop_passes sys ys good,
          )
          refl,
      ap (◌∷◌ true) (passes_over task_changes (λ b. vnet_send (sys.sends b)) (λ b m. refl) ys _),
      rw (s (dst ++ 0 ∷ []), sent-map sys.sends ys _ s, whole)
          (append_assoc dst (0 ∷ []) _ ∙ rw append-nil refl),
    )

stores_file :
    (sys : System) (dst old content : Bytes) (xs : List Bytes)
    → IsPath dst
    → sys.writable dst ≡ true
    → TakesAll sys.writes
    → All NotEmpty xs
    → flatten xs ≡ dst ++ 0 ∷ content
    → (b : List FileAction) × (file_receiver_request sys
          (record { stale = false; reads = arrivals xs ++ closed ∷ [] })
        ≡ ok b)
      × (opened b ≡ dst ∷ [])
      × (replay [] old b ≡ content ++ drop (length content) old)
unfolding file_receiver_request vnet_readstring
stores_file sys dst old content xs q w t h e =
    let (more, got, left, fine) =
      readstring_loop_gets dst [] content [] xs (closed ∷ []) read_chunk_size q.no_nul q.fits h e in
    let (zs, again, same, nice) = chunked_whole more fine in
    (
      receiver_actions sys dst zs,
      rw
          (
            got,
            duplicate_text dst q.no_nul,
            w,
            again,
            copy_loop_passes (λ b. write_file (sys.writes b)) zs nice,
          )
          refl,
      ap (◌∷◌ dst) (passes_over opened (λ b. write_file (sys.writes b)) (λ b m. refl) zs _),
      rw (replay-map sys.writes zs [] old _ t, same, left) refl,
    )

-- A file is sent with `file_send_start` on one side, where its reads bring it and end, and the
-- other side runs `file_receiver_request` on the connection. Both paths are C strings shorter than
-- `PATH_MAX`, every call of `lwip_send` and `write` takes all of its bytes, and the connection's
-- bytes arrive in pieces of any size, with an errno that is not EINTR or EAGAIN from an earlier
-- call. Both threads return. The first has raised the counter of
-- running tasks once and lowered it once, and has sent exactly the path and the content. The second
-- opens exactly that path, and the file then starts with the content; behind it stands what an
-- older, longer file had there.
pub file_send_start-file_receiver_request :
    (here there : System) (src dst old : Bytes) (rs xs : List Bytes)
    → IsPath src
    → IsPath dst
    → here.readable src ≡ some (arrivals rs ++ closed ∷ [])
    → there.writable dst ≡ true
    → All NotEmpty rs
    → TakesAll here.sends
    → TakesAll there.writes
    → All NotEmpty xs
    → flatten xs ≡ dst ++ 0 ∷ flatten rs
    → (a b : List FileAction) × (file_send_start here src dst ≡ some (ok a))
      × (task_changes a ≡ true ∷ false ∷ [])
      × (sent a ≡ flatten xs)
      × (file_receiver_request there (record { stale = false; reads = arrivals xs ++ closed ∷ [] })
          ≡ ok b)
      × (opened b ≡ dst ∷ [])
      × (replay [] old b ≡ flatten rs ++ drop (length (flatten rs)) old)
file_send_start-file_receiver_request here there src dst old rs xs p q r w g s t h e =
    let (a, ran, tasks, bytes) = sends_file here src dst rs p q r g s in
    let (b, got, path, stored) = stores_file there dst old (flatten rs) xs q w t h e in
    (a, b, ran, tasks, bytes ∙ sym e, got, path, stored)
