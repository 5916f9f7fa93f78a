-- ===== src/Tests/Oneshot.antt =====
-- A oneshot run.
use termtunnel.Base.{List, Bytes, ◌∷◌, [], codes, false, ◌++◌, ◌≡◌, ok, some, map, arith, refl}
use termtunnel.Cli.Oneshot.{oneshot_run-upload, upload_of, upload_actions}
use termtunnel.Agent.Start.{agent}
use termtunnel.Cli.Leaves.{count_replies}
use termtunnel.Tests.Client.{world, memory_size, url, url-IsPath}
use termtunnel.Tests.Session.{bytewise, bytewise-IsPipe, all_succeed}
use termtunnel.Server
use termtunnel.Command
use termtunnel.Agentcall.{args_answer, bootstrap_get_args}
use termtunnel.Words.{le_bytes}
use termtunnel.Vnet.Reads.{arrivals}
use termtunnel.Args.{get_args_done_callback}
use termtunnel.Repl.{ReadEvent}
use termtunnel.Repl.Runs.{oneshot_run}
use termtunnel.Packet.{send_binary}
use termtunnel.Server.{server_init, server_handle_client_packet}
use termtunnel.Repl.Recv.{stream}
use termtunnel.Repl.Commands.{basename}

-- The agent's answer in two reads.
abbrev answer_reads : List Bytes
answer_reads = (2 ∷ 0 ∷ 0 ∷ []) ∷ (0 ∷ codes "upload" ++ 0 ∷ (url ++ 0 ∷ [])) ∷ []

oneshot_run-upload_example :
    (reply buf : Bytes) × (bootstrap_get_args
        (record { stale = false; reads = arrivals answer_reads })
      ≡ ok (some (upload_of url)))
    × (get_args_done_callback 2 (some (map some (upload_of url))) ≡ ok reply)
    × (more : List ReadEvent) × (oneshot_run 2 world (
          bytewise (
            send_binary Command.get_args_reply reply
            ++ (count_replies server_init (1 ∷ 0 ∷ []) ++ [])))
        ≡ ok (upload_actions url buf 2, more))
    × (stream more ≡ [])
    × (server_handle_client_packet server_init Command.file_exchange buf
        ≡ ok (server_init, Server.file_send_start url (basename url) ∷ []))
unfolding args_answer le_bytes agent
oneshot_run-upload_example =
    oneshot_run-upload all_succeed world url server_init answer_reads (1 ∷ []) 2 bytewise []
      memory_size (ground arith) url-IsPath (ground arith, (ground arith, tt)) refl
      ((ground arith, omega arith), tt) (omega arith) bytewise-IsPipe
