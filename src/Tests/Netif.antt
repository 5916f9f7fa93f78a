-- ===== src/Tests/Netif.antt =====
-- Frames, and files from the user's command on.
use termtunnel.Base.{
  Bytes, replicate, List, codes, ◌∷◌, ◌++◌, [], ◌≡◌, fault, ok, out_of_bounds, some, flatten, arith,
  false, refl, map, ap,
}
use termtunnel.Tests.Client.{url, url-IsPath, world, memory_size}
use termtunnel.Tests.Files.{machine}
use termtunnel.Netif.{low_level_output, vnet_data_income, to_input}
use termtunnel.Netif.Frames.{low_level_output_bounded, vnet_data_income-low_level_output}
use termtunnel.Utils.{writen}
use termtunnel.Vnet.{lwip_writen, wrote, write_failed, closed}
use termtunnel.Vnet.Writes.{writen-lwip_writen}
use termtunnel.Vnet.Reads.{arrivals}
use termtunnel.Fileexchange.{FileAction, file_send_start, file_receiver_request}
use termtunnel.Fileexchange.Actions.{sent, opened, replay}
use termtunnel.Fileexchange.Upload.{upload_delivers}
use termtunnel.Repl.{send, say, uploads, proceed}
use termtunnel.Repl.Commands.{repl_execve, basename, basename_loop}
use termtunnel.Server.{server_handle_client_packet, server_init, serve_all}
use termtunnel.Server
use termtunnel.Command
use termtunnel.Interact.Keyboard.{IsCut}
use termtunnel.Packet.{Reply, read_all, parser_init, send_binary}

low_level_output_bounded_example :
    low_level_output (replicate 1515 7 ∷ []) 1515 ≡ fault out_of_bounds
low_level_output_bounded_example = low_level_output_bounded (replicate 1515 7 ∷ [])

abbrev header : Bytes
header = replicate 12 1 ++ 8 ∷ 6 ∷ []

vnet_data_income-low_level_output_example :
    (chain : List Bytes) × (low_level_output (header ∷ codes "abc" ∷ []) 17
      ≡ ok (header ++ codes "abc"))
    × (vnet_data_income (some (15 ∷ 2 ∷ [])) (header ++ codes "abc") ≡ ok (to_input chain))
    × (flatten chain ≡ header ++ codes "abc")
vnet_data_income-low_level_output_example =
    vnet_data_income-low_level_output (header ∷ codes "abc" ∷ []) 15 (2 ∷ []) (omega arith)
      (omega arith) refl refl

writen-lwip_writen_example :
    writen (codes "abc") (wrote 1 ∷ write_failed ∷ wrote 2 ∷ [])
    ≡ lwip_writen (codes "abc") (wrote 1 ∷ write_failed ∷ wrote 2 ∷ [])
writen-lwip_writen_example =
    writen-lwip_writen (codes "abc") (wrote 1 ∷ write_failed ∷ wrote 2 ∷ [])

abbrev one_by_one : Bytes → List Bytes
one_by_one = map (λ a. a ∷ [])

one_by_one-IsCut : IsCut one_by_one
one_by_one-IsCut [] = refl
one_by_one-IsCut (a ∷ b) = ap (◌∷◌ a) (one_by_one-IsCut b)

abbrev up : List Bytes
up = codes "b" ∷ (0 ∷ b'x' ∷ b'y' ∷ []) ∷ []

upload_delivers_example :
    (buf : Bytes) × (a b : List FileAction) × (repl_execve world (codes "upload" ∷ url ∷ []) []
      ≡ ok (record {
        code = proceed;
        actions = say (uploads url) ∷ send Command.file_exchange buf ∷ [];
        events = [];
      }))
    × (q : Reply) × (read_all parser_init (one_by_one (send_binary Command.file_exchange buf))
        ≡ ok q)
    × (q.failed ≡ false)
    × (serve_all server_init q.packets
        ≡ ok (server_init, Server.file_send_start url (basename url) ∷ []))
    × (file_send_start machine url (basename url) ≡ some (ok a))
    × (sent a ≡ flatten up)
    × (file_receiver_request machine (record { stale = false; reads = arrivals up ++ closed ∷ [] })
        ≡ ok b)
    × (opened b ≡ basename url ∷ [])
    × (replay [] (codes "old") b ≡ codes "xyd")
unfolding basename basename_loop
upload_delivers_example =
    upload_delivers world url [] server_init machine machine (codes "old") (codes "xy" ∷ []) up
      one_by_one memory_size (ground arith) url-IsPath refl refl (ground arith, tt) (λ b. refl)
      (λ b. refl) (ground arith, (ground arith, tt)) one_by_one-IsCut refl
