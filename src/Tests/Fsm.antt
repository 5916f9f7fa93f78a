-- ===== src/Tests/Fsm.antt =====
-- The machine of src/fsm.c and the two ways through the terminal.
use termtunnel.Base.{
  List, codes, map_ok, ◌∷◌, Bytes, [], arith, ◌≡◌, replicate, true, flatten, ok, ◌++◌, bytes_eq,
  fault, refl, out_of_bounds, false,
}
use termtunnel.Fsm.{
  FsmContext, fsm_init, esc, csi_digit, csi_colors, bg_param, fg_param, plaintext, csi_zero,
}
use termtunnel.Fsm.Feed.{feed, feed_all, fsm_init-IsIdle}
use termtunnel.Fsm.Stream.{
  scan, scanner_of, scan_byte, scan_in, scan_plain, scan_escape, scan_enter, scan_arg, scan_exit,
  Scanner,
}
use termtunnel.Fsm.Green.{Shown, noise, coded, NoEsc}
use termtunnel.Fsm.Overflow.{feed_overflow}
use termtunnel.Fsm.Valid.{Holds}
use termtunnel.Fsm.Run.{IsIdle}
use termtunnel.Server.{
  server_init, tty_reads, vnet_part, TtyReply, send_base64binary_to_agent, send_data_to_agent,
}
use termtunnel.Server.Relay.{Relayed}
use termtunnel.Agent.{
  agent_reads, agent_init, AgentRead, write_binary_to_server, write_frame_to_server,
}
use termtunnel.Agent.Stdin.{agent_reads_frames}
use termtunnel.Agent.Frames.{frames_of}
use termtunnel.Tunnel.Up.{Piece, text, payload, tunnel_up}
use termtunnel.Tunnel.Down.{tunnel_down, process_frames}
use termtunnel.Tunnel.{vnet_frames}
use termtunnel.Tests.Codec.{codec, Fits, codec-IsBase64, hi-Carried}
use termtunnel.Utils.{green_encode}
use termtunnel.Server.Marks.{marks}
use termtunnel.Fsm.Sizes.{InRange, fsm_init-IsSized}
use termtunnel.Server.Sizes.{tty_reads-InRange}
use termtunnel.Fsm.Checked.{feed_all_checked, feed_all-feed_all_checked}

-- Two reads, cut inside a sequence: the text `A` in green.
abbrev cut : List Bytes
cut = codes "$ \u{1b}[32;4" ∷ codes "2mA\u{1b}[0m" ∷ []

abbrev items : List Shown
items = noise (codes "$ ") ∷ coded (codes "A") ∷ []

dollar-NoEsc : NoEsc (codes "$ ")
dollar-NoEsc = (ground arith, (ground arith, tt))

feed_all-feed_all_checked_example :
    (map_ok scanner_of (feed_all fsm_init cut) ≡ scan (scanner_of fsm_init) (flatten cut))
    × Holds IsIdle (feed_all fsm_init cut)
    × (feed_all_checked fsm_init cut ≡ feed_all fsm_init cut)
feed_all-feed_all_checked_example =
    feed_all-feed_all_checked 0 cut fsm_init fsm_init-IsIdle fsm_init-IsSized (omega arith)

feed_overflow_example :
    feed fsm_init (esc ∷ b'[' ∷ b';' ∷ (replicate 15 b';' ++ b'7' ∷ [])) ≡ fault out_of_bounds
unfolding fsm_init
feed_overflow_example = feed_overflow fsm_init 15 b'7' fsm_init-IsIdle refl refl (omega arith) refl

abbrev full : FsmContext
full = record {
  state = plaintext;
  run_count = 0;
  processed = 0;
  offset = 0;
  has_input = false;
  input = [];
  input_cap = 0;
  bg_colorflag = false;
  fg_colorflag = false;
  csi = csi_zero;
  output = codes "BaGk=!P";
  has_output = true;
  output_cap = 1024;
}

-- A prompt, and then a frame of the agent's stack.
abbrev pieces : List Piece
pieces = text (codes "$ ") ∷ payload (codes "hi") ∷ []

abbrev screen : List Bytes
screen = codes "$ \u{1b}[32;42" ∷ codes "mBaGk" ∷ codes "=!\u{1b}[0m" ∷ []

tunnel_up_example :
    (r : TtyReply) × (tty_reads codec fsm_init server_init screen ≡ ok r)
    × (vnet_part r.actions ≡ codes "hi" ∷ [])
unfolding write_binary_to_server write_frame_to_server green_encode bytes_eq
tunnel_up_example =
    tunnel_up codec Fits pieces screen server_init codec-IsBase64 (dollar-NoEsc, (hi-Carried, tt))
      refl

tunnel_down_example :
    (r : AgentRead) × (agent_reads 2 agent_init (codes "BaG" ∷ codes "k=!\n" ∷ []) ≡ ok r)
    × (vnet_frames (process_frames codec r.frames) ≡ codes "hi" ∷ [])
unfolding send_base64binary_to_agent send_data_to_agent bytes_eq
tunnel_down_example =
    tunnel_down codec Fits (codes "hi" ∷ []) (codes "BaG" ∷ codes "k=!\n" ∷ []) codec-IsBase64
      (hi-Carried, tt) (record { sizes = (omega arith, (omega arith, tt)); total = omega arith })
      refl

agent_reads_frames_example :
    (r : AgentRead) × (agent_reads 2 agent_init (codes "PI" ∷ codes "NG!x\nEX" ∷ []) ≡ ok r)
    × (r.frames ≡ (frames_of [] (codes "PING!x\nEX")).0)
    × (r.agent.buffer ≡ (frames_of [] (codes "PING!x\nEX")).1)
agent_reads_frames_example =
    agent_reads_frames (codes "PI" ∷ codes "NG!x\nEX" ∷ [])
      (record { sizes = (omega arith, (omega arith, tt)); total = omega arith })

-- A frame and the start of another, in green that does not end.
abbrev half : Scanner
half = record {
  state = plaintext;
  bg = true;
  fg = true;
  csi = record { argc = 2; argv = 32 ∷ 42 ∷ replicate 14 0; cur = 1 };
  out = codes "PING!N";
  skip = 0;
}

scan-half : scan (scanner_of fsm_init) (codes "\u{1b}[32;42mPING!N") ≡ ok half
unfolding fsm_init scan scan_byte scan_in scan_plain scan_escape scan_enter scan_arg scan_exit
    csi_digit csi_colors bg_param fg_param
scan-half = refl

abbrev half_reads : List Bytes
half_reads = codes "\u{1b}[32;42mPI" ∷ codes "NG!N" ∷ []

tty_reads-InRange_example :
    (d : Relayed codec server_init half (tty_reads codec fsm_init server_init half_reads)) × InRange
      d.reply.fsm
unfolding fsm_init marks
tty_reads-InRange_example =
    tty_reads-InRange 0 codec half_reads fsm_init server_init half fsm_init-IsIdle fsm_init-IsSized
      (omega arith) tt scan-half (omega arith, tt)
