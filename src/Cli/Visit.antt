-- ===== src/Cli/Visit.antt =====
-- A whole visit to the commands of the client, from the start of an agent to its end.
use termtunnel.Base.{ℕ, List, Bytes, ◌∷◌, map, [], ◌++◌}
use termtunnel.Base64.{Base64}
use termtunnel.Cli.{
  Written, Client, CliAction, ReadEvent, shown, Turn, on_resize, did, repl_run, running,
}
use termtunnel.Cli.Leaves.{refused_exits}
use termtunnel.Command
use termtunnel.Server.{Server}
use termtunnel.Interact.{Written, Client, Turn, running}
use termtunnel.Repl.{ReadEvent}
use termtunnel.Repl.Runs.{repl_run}

-- What the client does in a visit in which the user types nothing but `exit`.
abbrev pub visit_actions : List Written → Bytes → List ℕ → List CliAction
visit_actions first winsize ns =
    map shown first ++ (on_resize winsize ∷ (map did (refused_exits ns) ++ on_resize winsize ∷ []))
