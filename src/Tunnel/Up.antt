-- ===== src/Tunnel/Up.antt =====
-- From the agent to the server: `write_binary_to_server` and `common_read_tty`.
use termtunnel.Base.{
  Bytes, List, flatten, All, ◌≢◌, [], map, ◌∷◌, ap, ◌++◌, ◌≡◌, some, arith, append-nil,
  append_assoc, ok, length-append, refl, ◌∙◌, sym, subst, ap₂, bytes_eq,
}
use termtunnel.Base64.{Base64, IsBase64, IsCoded}
use termtunnel.Agent.{write_binary_to_server, write_frame_to_server}
use termtunnel.Server.{
  Server, tty_reads, vnet_part, handle_all, server_handle_green_packet, server_handle_coded,
  TtyReply, vnet_income,
}
use termtunnel.Server.Relay.{tty_reads_relay}
use termtunnel.Server.Reads.{marks_split}
use termtunnel.Server.Tty.{IsShort}
use termtunnel.Fsm.Green.{
  Shown, noise, coded, scan_shown, shown_bytes, coded_bytes, ShownNoEsc, NoEsc, quiet,
}
use termtunnel.Fsm.Pop.{NoMark}
use termtunnel.Server.Marks.{marked, marks}
use termtunnel.Tunnel.{writes, Carried}
use termtunnel.Fsm.{fsm_init, csi_zero}
use termtunnel.Fsm.Stream.{scan}
use termtunnel.Fsm.Feed.{fsm_init-IsIdle}
use termtunnel.Utils.{green_encode}

-- What the terminal of the agent shows: other text, and frames of its network stack.
pub data Piece : Type 0 where
  text : Bytes → Piece
  payload : Bytes → Piece

abbrev pub piece_bytes : Base64 → Piece → Bytes
piece_bytes codec (text b) = b
piece_bytes codec (payload x) = writes (write_binary_to_server codec x)

abbrev pub payloads : List Piece → List Bytes
payloads [] = []
payloads (text b ∷ ps) = payloads ps
payloads (payload x ∷ ps) = x ∷ payloads ps

abbrev pub PieceFits : Base64 → (Bytes → Type 0) → Piece → Type 0
PieceFits codec Fits (text b) = NoEsc b
PieceFits codec Fits (payload x) = Carried codec Fits x

-- The frame with its coded text reaches the network stack, and leaves the server as it was.
handle_coded :
    (codec : Base64) (s : Server) (t x : Bytes)
    → x ≢ []
    → codec.base64_decode (t ++ b'!' ∷ []) ≡ some x
    → server_handle_green_packet codec s ((b'B' ∷ t) ++ b'!' ∷ []) ≡ (s, vnet_income x ∷ [])
unfolding server_handle_green_packet server_handle_coded bytes_eq
handle_coded codec s t [] n e = absurd (n refl)
handle_coded codec s t (a ∷ x) n e = rw (e, length-append t (b'!' ∷ [])) (ground arith)

-- The pieces as the machine sees them, and the frames in them.
record Session (codec : Base64) (ps : List Piece) : Type 0 where
  items : List Shown
  frames : List Bytes
  seen : flatten (map shown_bytes items) ≡ flatten (map (piece_bytes codec) ps)
  plain : All ShownNoEsc items
  kept : flatten (map coded_bytes items) ≡ marked frames
  unmarked : All NoMark frames
  short : All IsShort frames
  handled : (s : Server) → vnet_part (handle_all codec s frames).1 ≡ payloads ps

coded-NoEsc : (t : Bytes) → All IsCoded t → NoEsc (t ++ b'!' ∷ [])
coded-NoEsc [] h = (λ e. absurd (omega arith), tt)
coded-NoEsc (a ∷ t) h = (h.0.not_esc, coded-NoEsc t h.1)

coded-NoMark : (t : Bytes) → All IsCoded t → NoMark t
coded-NoMark [] h = tt
coded-NoMark (a ∷ t) h = (h.0.not_mark, coded-NoMark t h.1)

writes_coded :
    (codec : Base64) (t x : Bytes)
    → codec.base64_encode x ≡ some t
    → writes (write_binary_to_server codec x) ≡ green_encode ((b'B' ∷ t) ++ b'!' ∷ [])
unfolding write_binary_to_server write_frame_to_server
writes_coded codec t x e = rw (writes, e) (append-nil _)

session :
    (codec : Base64) (Fits : Bytes → Type 0) (ps : List Piece)
    → IsBase64 codec Fits
    → All (PieceFits codec Fits) ps
    → Session codec ps
unfolding write_binary_to_server write_frame_to_server handle_all
session codec Fits [] base h = record {
  items = [];
  frames = [];
  seen = refl;
  plain = tt;
  kept = refl;
  unmarked = tt;
  short = tt;
  handled = λ s. refl;
}
session codec Fits (text b ∷ ps) base h =
    let d = session codec Fits ps base h.1 in
    record {
      items = noise b ∷ d.items;
      frames = d.frames;
      seen = ap (λ l. b ++ l) d.seen;
      plain = (h.0, d.plain);
      kept = d.kept;
      unmarked = d.unmarked;
      short = d.short;
      handled = d.handled;
    }
session codec Fits (payload x ∷ ps) base h =
    let d = session codec Fits ps base h.1 in
    let (t, coded_as, letters, some_text, back, back_marked) = base.encodes x h.0.fits in
    record {
      items = coded ((b'B' ∷ t) ++ b'!' ∷ []) ∷ d.items;
      frames = (b'B' ∷ t) ∷ d.frames;
      seen = ap₂ ◌++◌ (sym (writes_coded codec t x coded_as)) d.seen;
      plain = ((λ e. absurd (omega arith), coded-NoEsc t letters), d.plain);
      kept =
          rw (append_assoc (b'B' ∷ t) (b'!' ∷ []) (flatten (map coded_bytes d.items)), d.kept) refl;
      unmarked = ((λ e. absurd (omega arith), coded-NoMark t letters), d.unmarked);
      short = (omega (arith, h.0.short t coded_as), d.short);
      handled = λ s. rw (handle_coded codec s t x h.0.some_bytes back_marked, d.handled s) refl;
    }

-- Let the terminal show frames of the agent's stack, printed by `write_binary_to_server`, and
-- between them other text without escape bytes; each frame is not empty, and its coded text is
-- short enough for the server's buffer. However this output is cut into reads, a server that reads
-- it with a new machine, whatever its own state, always returns, and its network stack gets
-- exactly these frames in their order.
pub tunnel_up :
    (codec : Base64) (Fits : Bytes → Type 0) (ps : List Piece) (xs : List Bytes) (s : Server)
    → IsBase64 codec Fits
    → All (PieceFits codec Fits) ps
    → flatten xs ≡ flatten (map (piece_bytes codec) ps)
    → (r : TtyReply) × (tty_reads codec fsm_init s xs ≡ ok r) × (vnet_part r.actions ≡ payloads ps)
unfolding fsm_init
tunnel_up codec Fits ps xs s base h e =
    let d = session codec Fits ps base h in
    let (csi, scanned) = scan_shown csi_zero [] d.items d.plain in
    let whole = ap (scan (quiet csi_zero [])) (e ∙ sym d.seen) ∙ scanned in
    let m : marks [] (flatten (map coded_bytes d.items)) ≡ (d.frames, []) =
      marks_split _ d.frames [] (d.kept ∙ sym (append-nil (marked d.frames))) d.unmarked tt in
    let r =
      tty_reads_relay codec xs fsm_init s (quiet csi (flatten (map coded_bytes d.items)))
        fsm_init-IsIdle tt whole (subst (λ q. All IsShort q.0) (sym m) d.short) in
    (r.reply, r.ran, r.income ∙ ap (λ q. vnet_part (handle_all codec s q.0).1) m ∙ d.handled s)
