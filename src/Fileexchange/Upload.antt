-- ===== src/Fileexchange/Upload.antt =====
-- The command `upload` from the user's line to the file at the other end: src/repl.c, src/pipe.c
-- and src/fileexchange.c.
use termtunnel.Base.{
  Bytes, List, ◌+◌, ◌≤◌, length, ◌≢◌, [], ◌≡◌, some, ◌++◌, ◌∷◌, true, All, flatten, codes, ok,
  false, drop, ap, append-nil, arith, ◌∙◌, sym,
}
use termtunnel.Repl.Upload.{upload_starts, basename-IsPath}
use termtunnel.Repl.{World, ReadEvent, send, say, uploads, proceed}
use termtunnel.Repl.Commands.{repl_execve, basename}
use termtunnel.Server.{Server, server_handle_client_packet, serve_all, ServerAction}
use termtunnel.Server
use termtunnel.Command
use termtunnel.Intent.{path_max}
use termtunnel.Intent.RoundTrip.{IsPath}
use termtunnel.Fileexchange.{System, FileAction, file_send_start, file_receiver_request}
use termtunnel.Fileexchange.Transfer.{file_send_start-file_receiver_request}
use termtunnel.Fileexchange.Actions.{TakesAll, sent, opened, replay}
use termtunnel.Vnet.{closed}
use termtunnel.Vnet.Reads.{arrivals, NotEmpty}
use termtunnel.Packet.{Packet, Reply, read_all, parser_init, send_binary}
use termtunnel.Interact.Keyboard.{IsCut}
use termtunnel.Packet.Reads.{read_all-encode_all}

abbrev exchange_packet : Bytes → Packet
exchange_packet buf = record { type = Command.file_exchange; payload = buf }

serves_one :
    (s : Server) (acts : List ServerAction) (buf : Bytes) (q : Reply)
    → q.packets ≡ exchange_packet buf ∷ []
    → server_handle_client_packet s Command.file_exchange buf ≡ ok (s, acts)
    → serve_all s q.packets ≡ ok (s, acts)
unfolding serve_all
serves_one s acts buf q e f = rw (e, f) (ap (λ l. ok (s, l)) (append-nil acts))

-- `upload PATH`, where the path is a C string that is not empty and fits its field, the file can be
-- read on the server's side and the last name of the path can be opened on the agent's, calls take
-- all of their bytes, and the bytes of the packet and of the connection arrive however they are
-- cut, with an errno that is not EINTR or EAGAIN from an earlier call. The command sends one packet; a new parser of the server takes out just this packet, and the
-- server that handles what the parser took out does nothing but start to send the file under the last name of its path; the thread that does so and the agent's both return. At the
-- agent exactly that name is opened, and the file then starts with the content that was read, with
-- what an older, longer file had behind it.
pub upload_delivers :
    (w : World) (url : Bytes) (evs : List ReadEvent) (s : Server) (here there : System)
    (old : Bytes) (rs xs : List Bytes) (cut : Bytes → List Bytes)
    → path_max + path_max + 4 ≤ length w.memory
    → url ≢ []
    → IsPath url
    → here.readable url ≡ some (arrivals rs ++ closed ∷ [])
    → there.writable (basename url) ≡ true
    → All NotEmpty rs
    → TakesAll here.sends
    → TakesAll there.writes
    → All NotEmpty xs
    → IsCut cut
    → flatten xs ≡ basename url ++ 0 ∷ flatten rs
    → (buf : Bytes) × (a b : List FileAction) × (repl_execve w (codes "upload" ∷ url ∷ []) evs
        ≡ ok (record {
          code = proceed;
          actions = say (uploads url) ∷ send Command.file_exchange buf ∷ [];
          events = evs;
        }))
      × (q : Reply) × (read_all parser_init (cut (send_binary Command.file_exchange buf)) ≡ ok q)
      × (q.failed ≡ false)
      × (serve_all s q.packets ≡ ok (s, Server.file_send_start url (basename url) ∷ []))
      × (file_send_start here url (basename url) ≡ some (ok a))
      × (sent a ≡ flatten xs)
      × (file_receiver_request there (record { stale = false; reads = arrivals xs ++ closed ∷ [] })
          ≡ ok b)
      × (opened b ≡ basename url ∷ [])
      × (replay [] old b ≡ flatten rs ++ drop (length (flatten rs)) old)
upload_delivers w url evs s here there old rs xs cut m n p r v g t u h k e =
    let (buf, typed, served, few) = upload_starts w url evs s m n p in
    let (a, b, ran, tasks, bytes, got, path, stored) =
      file_send_start-file_receiver_request here there url (basename url) old rs xs p
        (basename-IsPath url n p) r v g t u h e in
    let (q, parsed, packets, good, empty, idle) =
      read_all-encode_all (exchange_packet buf ∷ []) (cut (send_binary Command.file_exchange buf))
        (record { size_fits = few; type_fits = omega arith }, tt) (k _ ∙ sym (append-nil _)) in
    (
      buf,
      a,
      b,
      typed,
      q,
      parsed,
      good,
      serves_one s _ buf q packets served,
      ran,
      bytes,
      got,
      path,
      stored,
    )
