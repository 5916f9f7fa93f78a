-- ===== src/Fileexchange.antt =====
-- Files over the tunnel: src/fileexchange.c, and the counter of src/state.c. `malloc` succeeds, and
-- a connection is made. What a call of `write` or `lwip_send` takes, and what opening a path gives,
-- are parameters.
pub mod Actions
pub mod Chunks
pub mod Transfer
pub mod Download
pub mod Upload
use termtunnel.Base.{
  ℕ, Bytes, Result, Bool, List, Option, [], fault, ◌>>=◌, true, if◌then◌else◌, suc, out_of_fuel,
  ◌∷◌, leb, none, take, length, ok, ◌++◌, drop, some, out_of_bounds, false, ◌||◌, zero,
}
use termtunnel.Vnet.{
  SocketRead, Socket, vnet_readstring, duplicate, read_chunk_size, arrived, closed, failed,
}
use termtunnel.Intent.{path_max}

-- What a thread does, in order: the change of the counter by 1 or by -1, the connection to a port,
-- the bytes that the connection takes, the opening of a path, the bytes that the file takes, and
-- what is closed.
pub data FileAction : Type 0 where
  set_running_task_changed : Bool → FileAction
  vnet_tcp_connect : ℕ → FileAction
  vnet_send : Bytes → FileAction
  open_path : Bytes → FileAction
  write_file : Bytes → FileAction
  close_file : FileAction
  vnet_close : FileAction

-- The system around the threads: the part of its bytes that a call of `lwip_send` or `lwip_write`,
-- or of `write` takes, whether a path opens for writing, and what reading gives behind a path that
-- opens.
pub record System : Type 0 where
  pub sends : Bytes → Bytes
  pub writes : Bytes → Bytes
  pub writable : Bytes → Bool
  pub readable : Bytes → Option (List SocketRead)

-- What calls that ask for at most `size` bytes get of a read, on fuel for its bytes.
unfoldable pub pieces_of : ℕ → ℕ → Bytes → List SocketRead
pieces_of zero size b = []
pieces_of (suc fuel) size [] = []
pieces_of (suc fuel) size (a ∷ b) =
    arrived (take size (a ∷ b)) ∷ pieces_of fuel size (drop size (a ∷ b))

unfoldable pub chunked : List SocketRead → List SocketRead
unfolding pieces_of
chunked [] = []
chunked (arrived [] ∷ rs) = closed ∷ chunked rs
chunked (arrived (a ∷ b) ∷ rs) = pieces_of (length (a ∷ b)) read_chunk_size (a ∷ b) ++ chunked rs
chunked (closed ∷ rs) = closed ∷ chunked rs
chunked (failed again ∷ rs) = failed again ∷ chunked rs

-- A loop that passes on what it reads, up to a result of 0 or of -1.
unfoldable pub copy_loop : (Bytes → FileAction) → List SocketRead → Result (List FileAction)
copy_loop pass [] = fault out_of_fuel
copy_loop pass (closed ∷ rs) = ok []
copy_loop pass (failed again ∷ rs) = ok []
copy_loop pass (arrived [] ∷ rs) = ok []
copy_loop pass (arrived (a ∷ b) ∷ rs) = copy_loop pass rs >>= λ more. ok (pass (a ∷ b) ∷ more)

-- `open` may fail, and then every `write` fails, too, and the connection is read to its end.
unfoldable pub file_receiver_request : System → Socket → Result (List FileAction)
unfolding vnet_readstring duplicate chunked copy_loop
file_receiver_request sys s = vnet_readstring read_chunk_size s >>= λ r. elim r.0 [
  | none ↦ ok (vnet_close ∷ [])
  | some recv_buf ↦ do
    path ← duplicate recv_buf
    copied ←
        copy_loop (λ b. write_file (if sys.writable path then sys.writes b else []))
          (chunked r.1.reads)
    ok (open_path path ∷ (copied ++ close_file ∷ vnet_close ∷ []))
]

-- Without the file, the first `read` fails.
unfoldable pub file_sender_request : System → Socket → Result (List FileAction)
unfolding vnet_readstring duplicate chunked copy_loop
file_sender_request sys s = vnet_readstring read_chunk_size s >>= λ r. elim r.0 [
  | none ↦ ok (vnet_close ∷ [])
  | some recv_buf ↦ do
    path ← duplicate recv_buf
    copied ← elim (sys.readable path) [
      | none ↦ ok []
      | some rs ↦ copy_loop (λ b. vnet_send (sys.sends b)) (chunked rs)
    ]
    ok (open_path path ∷ (copied ++ close_file ∷ vnet_close ∷ []))
]

-- The loop of `file_send_request`: with a result of -1 it sends `(size_t)-1` bytes of its buffer.
unfoldable pub send_loop : System → List SocketRead → Result (List FileAction)
send_loop sys [] = fault out_of_fuel
send_loop sys (closed ∷ rs) = ok []
send_loop sys (failed again ∷ rs) = fault out_of_bounds
send_loop sys (arrived [] ∷ rs) = ok []
send_loop sys (arrived (a ∷ b) ∷ rs) =
    send_loop sys rs >>= λ more. ok (vnet_send (sys.sends (a ∷ b)) ∷ more)

abbrev pub receiver_service_port : ℕ
receiver_service_port = 700

abbrev pub sender_service_port : ℕ
sender_service_port = 701

-- A C string without its NUL is sent with it.
unfoldable pub file_send_request : System → Bytes → Bytes → Result (List FileAction)
unfolding chunked send_loop
file_send_request sys src_path dst_path =
    let start =
      set_running_task_changed true
      ∷ vnet_tcp_connect receiver_service_port
      ∷ vnet_send (sys.sends (dst_path ++ 0 ∷ []))
      ∷ open_path src_path
      ∷ [] in
    elim (sys.readable src_path) [
      | none ↦ ok (start ++ vnet_close ∷ set_running_task_changed false ∷ [])
      | some rs ↦ send_loop sys (chunked rs) >>= λ copied.
          ok (start ++ (copied ++ vnet_close ∷ close_file ∷ set_running_task_changed false ∷ []))
    ]

unfoldable pub file_recv_request : System → Bytes → Bytes → Socket → Result (List FileAction)
unfolding chunked copy_loop
file_recv_request sys src_path dst_path s =
    let start =
      set_running_task_changed true
      ∷ vnet_tcp_connect sender_service_port
      ∷ vnet_send (sys.sends (src_path ++ 0 ∷ []))
      ∷ open_path dst_path
      ∷ [] in
    if sys.writable dst_path
    then (copy_loop (λ b. write_file (sys.writes b)) (chunked s.reads) >>= λ copied.
        ok (start ++ (copied ++ vnet_close ∷ close_file ∷ set_running_task_changed false ∷ [])))
    else ok (start ++ vnet_close ∷ set_running_task_changed false ∷ [])

-- The check of both paths: what the thread gets, or nothing with the result -1.
unfoldable pub path_exchange : Bytes → Bytes → Option (Bytes × Bytes)
path_exchange src_path dst_path =
    if leb path_max (length src_path) || leb path_max (length dst_path)
    then none
    else some (src_path, dst_path)

-- `file_send_start` with the thread that it starts; `none` is the result -1.
unfoldable pub file_send_start : System → Bytes → Bytes → Option (Result (List FileAction))
unfolding path_exchange file_send_request
file_send_start sys src_path dst_path = elim (path_exchange src_path dst_path) [
  | none ↦ none
  | some p ↦ some (file_send_request sys p.0 p.1)
]

unfoldable pub file_recv_start : System → Bytes → Bytes → Socket → Option (Result (List FileAction))
unfolding path_exchange file_recv_request
file_recv_start sys src_path dst_path s = elim (path_exchange src_path dst_path) [
  | none ↦ none
  | some p ↦ some (file_recv_request sys p.0 p.1 s)
]
