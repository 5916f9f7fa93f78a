-- ===== src/Tunnel.antt =====
-- The two ways through the terminal that join the network stacks: what `write_binary_to_server` of
-- src/agent.c shows to `common_read_tty` of src/pipe.c, and what `send_base64binary_to_agent` of
-- src/pipe.c types to `agent_read_stdin` of src/agent.c.
pub mod Down
pub mod Up
use termtunnel.Base.{[], ◌∷◌, ℕ, List, Bytes, ◌++◌, ◌≢◌, [], ◌≡◌, some, length, ◌+◌, ◌<◌}
use termtunnel.Base64.{Base64}
use termtunnel.Agent.{AgentAction, agent_write, vnet_data, exit}
use termtunnel.Server.{ServerAction, to_tty}

-- The bytes that the agent shows on its terminal.
abbrev pub writes : List AgentAction → Bytes
writes [] = []
writes (agent_write b ∷ more) = b ++ writes more
writes (_ ∷ more) = writes more

-- The frames that the agent gives to its network stack.
abbrev pub vnet_frames : List AgentAction → List Bytes
vnet_frames [] = []
vnet_frames (vnet_data b ∷ more) = b ∷ vnet_frames more
vnet_frames (_ ∷ more) = vnet_frames more

-- The bytes that the server types on the terminal.
abbrev pub tty_part : List ServerAction → Bytes
tty_part [] = []
tty_part (to_tty b ∷ more) = b ++ tty_part more
tty_part (_ ∷ more) = tty_part more

-- A frame of a network stack that the tunnel carries: it is not empty, and its coded text stays
-- below the `5 * VIR_MTU` bytes of the server's buffer.
pub record Carried (codec : Base64) (Fits : Bytes → Type 0) (x : Bytes) : Type 0 where
  pub fits : Fits x
  pub some_bytes : x ≢ []
  pub short : (t : Bytes) → codec.base64_encode x ≡ some t → length t + 2 < 4000
