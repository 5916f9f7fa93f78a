-- ===== src/Tests/Files.antt =====
-- Files over the tunnel.
use termtunnel.Fileexchange.Actions.{connections, opened, replay, sent, task_changes}
use termtunnel.Base.{
  Bytes, true, codes, List, some, arith, ◌∷◌, ◌≡◌, false, [], ok, ◌++◌, flatten, refl,
}
use termtunnel.Fileexchange.{
  System, FileAction, file_send_start, file_receiver_request, file_recv_start, file_sender_request,
  file_recv_request,
}
use termtunnel.Fileexchange.Transfer.{file_send_start-file_receiver_request}
use termtunnel.Fileexchange.Download.{
  file_recv_start-file_sender_request, file_recv_request_settles,
}
use termtunnel.Vnet.{closed, failed, arrived}
use termtunnel.Vnet.Reads.{arrivals}
use termtunnel.State.{State, changed, get_running_task_count}
use termtunnel.Income.{mode_server}
use termtunnel.Intent.RoundTrip.{IsPath}

-- Every file reads `xy`.
abbrev pub machine : System
machine = record {
  sends = λ b. b;
  writes = λ b. b;
  writable = λ p. true;
  readable = λ p. some (arrivals (codes "xy" ∷ []) ++ closed ∷ []);
}

a-IsPath : IsPath (codes "a")
a-IsPath = record { no_nul = (ground arith, tt); fits = omega arith }

b-IsPath : IsPath (codes "b")
b-IsPath = record { no_nul = (ground arith, tt); fits = omega arith }

abbrev up : List Bytes
up = (b'b' ∷ 0 ∷ b'x' ∷ []) ∷ codes "y" ∷ []

file_send_start-file_receiver_request_example :
    (a b : List FileAction) × (file_send_start machine (codes "a") (codes "b") ≡ some (ok a))
    × (task_changes a ≡ true ∷ false ∷ [])
    × (sent a ≡ flatten up)
    × (file_receiver_request machine (record { stale = false; reads = arrivals up ++ closed ∷ [] })
        ≡ ok b)
    × (opened b ≡ codes "b" ∷ [])
    × (replay [] (codes "old") b ≡ codes "xyd")
file_send_start-file_receiver_request_example =
    file_send_start-file_receiver_request machine machine (codes "a") (codes "b") (codes "old")
      (codes "xy" ∷ []) up a-IsPath b-IsPath refl refl (ground arith, tt) (λ b. refl) (λ b. refl)
      (ground arith, (ground arith, tt)) refl

abbrev asked : List Bytes
asked = codes "a" ∷ (0 ∷ []) ∷ []

file_recv_start-file_sender_request_example :
    (a b : List FileAction) × (file_recv_start machine
        (codes "a")
        (codes "b")
        (record { stale = false; reads = arrivals (codes "x" ∷ codes "y" ∷ []) ++ closed ∷ [] })
      ≡ some (ok a))
    × (task_changes a ≡ true ∷ false ∷ [])
    × (sent a ≡ flatten asked)
    × (file_sender_request machine (record { stale = false; reads = arrivals asked ++ [] }) ≡ ok b)
    × (opened b ≡ codes "a" ∷ [])
    × (sent b ≡ codes "xy")
    × (opened a ≡ codes "b" ∷ [])
    × (replay [] [] a ≡ codes "xy")
file_recv_start-file_sender_request_example =
    file_recv_start-file_sender_request machine machine (codes "a") (codes "b") [] (codes "xy" ∷ [])
      asked (codes "x" ∷ codes "y" ∷ []) [] a-IsPath b-IsPath refl refl (ground arith, tt)
      (λ b. refl) (λ b. refl) (λ b. refl) (ground arith, (ground arith, tt)) refl
      (ground arith, (ground arith, tt)) refl

abbrev busy : State
busy = record { state_mode = mode_server; task_counter = 2 }

file_recv_request_settles_example :
    (a : List FileAction) × (file_recv_request machine
        (codes "a")
        (codes "b")
        (record { stale = true; reads = arrived (codes "x") ∷ failed false ∷ closed ∷ [] })
      ≡ ok a)
    × (task_changes a ≡ true ∷ false ∷ [])
    × (get_running_task_count (changed (task_changes a) busy) ≡ 2)
    × (connections a ≡ true ∷ false ∷ [])
file_recv_request_settles_example =
    file_recv_request_settles machine (codes "a") (codes "b") true
      (arrived (codes "x") ∷ failed false ∷ []) busy (omega arith)
