-- ===== src/Fileexchange/Actions.antt =====
-- What a thread of src/fileexchange.c has done, seen from one side: the connection, the file, the
-- paths, the counter.
use termtunnel.Base.{
  Bytes, List, ◌≡◌, Bool, map, ◌++◌, ◌∷◌, drop, true, flatten, ◌∙◌, [], length, false, sym, refl,
  append_assoc, append-nil, drop-drop, length-append,
}
use termtunnel.Fileexchange.{
  FileAction, set_running_task_changed, vnet_tcp_connect, vnet_send, vnet_close, open_path,
  write_file,
}

-- The bytes on the connection.
abbrev pub sent : List FileAction → Bytes
sent [] = []
sent (vnet_send b ∷ more) = b ++ sent more
sent (_ ∷ more) = sent more

-- A file after the writes, from the part behind and the part ahead of the position: `open` does not
-- truncate it.
abbrev pub replay : Bytes → Bytes → List FileAction → Bytes
replay done ahead [] = done ++ ahead
replay done ahead (write_file b ∷ more) = replay (done ++ b) (drop (length b) ahead) more
replay done ahead (_ ∷ more) = replay done ahead more

-- The paths that are opened.
abbrev pub opened : List FileAction → List Bytes
opened [] = []
opened (open_path p ∷ more) = p ∷ opened more
opened (_ ∷ more) = opened more

-- The changes of the counter.
abbrev pub task_changes : List FileAction → List Bool
task_changes [] = []
task_changes (set_running_task_changed up ∷ more) = up ∷ task_changes more
task_changes (_ ∷ more) = task_changes more

-- Every call takes all of its bytes.
abbrev pub TakesAll : (Bytes → Bytes) → Type 0
TakesAll call = (b : Bytes) → call b ≡ b

-- The connections that are made (`true`) and closed (`false`).
abbrev pub connections : List FileAction → List Bool
connections [] = []
connections (vnet_tcp_connect port ∷ more) = true ∷ connections more
connections (vnet_close ∷ more) = false ∷ connections more
connections (_ ∷ more) = connections more

pub sent-map :
    (call : Bytes → Bytes) (ys : List Bytes) (after : List FileAction)
    → TakesAll call
    → sent (map (λ b. vnet_send (call b)) ys ++ after) ≡ flatten ys ++ sent after
sent-map call [] after t = refl
sent-map call (y ∷ ys) after t =
    rw (t, sent-map call ys after t) (sym (append_assoc y (flatten ys) (sent after)))

pub replay-map :
    (call : Bytes → Bytes) (ys : List Bytes) (done ahead : Bytes) (after : List FileAction)
    → TakesAll call
    → replay done ahead (map (λ b. write_file (call b)) ys ++ after)
      ≡ replay (done ++ flatten ys) (drop (length (flatten ys)) ahead) after
replay-map call [] done ahead after t = rw append-nil refl
replay-map call (y ∷ ys) done ahead after t =
    rw
      (
        t,
        replay-map call ys (done ++ y) (drop (length y) ahead) after t,
        append_assoc done y (flatten ys),
      )
      (rw (drop-drop, length-append y (flatten ys)) refl)

-- A view that passes over an action passes over any number of them.
pub passes_over {ℓ} :
    {A : Type ℓ} (view : List FileAction → A) (act : Bytes → FileAction)
    → ((b : Bytes) (more : List FileAction) → view (act b ∷ more) ≡ view more)
    → (ys : List Bytes) (after : List FileAction) → view (map act ys ++ after) ≡ view after
passes_over view act h [] after = refl
passes_over view act h (y ∷ ys) after = h y (map act ys ++ after) ∙ passes_over view act h ys after
