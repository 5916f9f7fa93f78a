-- ===== src/Intent.antt =====
-- The requests of src/intent.h: their memory layout, how src/repl.c fills them in and how
-- `server_handle_client_packet` of src/pipe.c reads them. `PATH_MAX` is 4096.
pub mod RoundTrip
pub mod Forward
use termtunnel.Base.{
  ℕ, Bytes, ◌∷◌, Option, Result, if◌then◌else◌, take, ◌>>◌, ◌==◌, ltb, drop, guard, [], length, leb,
  some, ◌+◌, out_of_bounds, ◌++◌, ok, none, ◌%◌,
}
use termtunnel.Words.{from_le, le_bytes}

abbrev pub path_max : ℕ
path_max = 4096

abbrev pub host_max : ℕ
host_max = 64

-- The values of `trans_mode` and of `forward_type`.
abbrev pub trans_mode_send_file : ℕ
trans_mode_send_file = 1

abbrev pub trans_mode_recv_file : ℕ
trans_mode_recv_file = 2

abbrev pub forward_dynamic_port_map : ℕ
forward_dynamic_port_map = 2

abbrev pub forward_static_port_map : ℕ
forward_static_port_map = 3

abbrev pub forward_static_port_map_listen_on_agent : ℕ
forward_static_port_map_listen_on_agent = 4

-- A C string is what stands before the first NUL.
unfoldable pub until_nul : Bytes → Bytes
until_nul [] = []
until_nul (a ∷ r) = if a == 0 then [] else a ∷ until_nul r

-- `snprintf(field, sizeof(field), "%s", s)` over the old bytes of the field; `none` if the result
-- did not fit.
unfoldable pub fill_field : Bytes → Bytes → Option Bytes
fill_field old s =
    if ltb (length s) (length old) then some (s ++ 0 ∷ drop (length s + 1) old) else none

pub record FileExchange : Type 0 where
  pub src_path : Bytes
  pub dst_path : Bytes
  pub trans_mode : ℕ

pub record PortForward : Type 0 where
  pub forward_type : ℕ
  pub src_host : Bytes
  pub dst_host : Bytes
  pub src_port : ℕ
  pub dst_port : ℕ

-- `new_file_exchange_intent`: the bytes of the new struct, over those that `malloc` returned.
unfoldable pub new_file_exchange_intent : Bytes → Bytes → Bytes → ℕ → Option Bytes
new_file_exchange_intent memory src dst trans_mode = elim (fill_field (take path_max memory) src) [
  | none ↦ none
  | some a ↦ elim (fill_field (take path_max (drop path_max memory)) dst) [
    | none ↦ none
    | some b ↦ some (a ++ (b ++ le_bytes 4 trans_mode))
  ]
]

-- `new_port_forward_intent`; a port is passed as `uint16_t`, which keeps its low 16 bits.
unfoldable pub new_port_forward_intent : Bytes → ℕ → Bytes → ℕ → Bytes → ℕ → Option Bytes
new_port_forward_intent memory forward_type src_host src_port dst_host dst_port =
    elim (fill_field (take host_max (drop 4 memory)) src_host) [
      | none ↦ none
      | some a ↦ elim (fill_field (take host_max (drop 68 memory)) dst_host) [
        | none ↦ none
        | some b ↦ some (
            le_bytes 4 forward_type
            ++ (a ++ (b ++ (le_bytes 2 (src_port % 65536) ++ le_bytes 2 (dst_port % 65536)))))
      ]
    ]

-- The casts of the server read past a payload that is shorter than the struct.
unfoldable pub read_file_exchange : Bytes → Result FileExchange
read_file_exchange buf = do
  guard (leb (path_max + path_max + 4) (length buf)) out_of_bounds
  ok (record {
    src_path = until_nul (take path_max buf);
    dst_path = until_nul (take path_max (drop path_max buf));
    trans_mode = from_le (take 4 (drop (path_max + path_max) buf));
  })

unfoldable pub read_port_forward : Bytes → Result PortForward
read_port_forward buf = do
  guard (leb 136 (length buf)) out_of_bounds
  ok (record {
    forward_type = from_le (take 4 buf);
    src_host = until_nul (take host_max (drop 4 buf));
    dst_host = until_nul (take host_max (drop 68 buf));
    src_port = from_le (take 2 (drop 132 buf));
    dst_port = from_le (take 2 (drop 134 buf));
  })
