-- ===== src/Command.antt =====
-- The `COMMAND_` constants of src/intent.h.
use termtunnel.Base.{ℕ}

abbrev pub tty_plain_data : ℕ
tty_plain_data = 1

abbrev pub cmd_exit : ℕ
cmd_exit = 2

abbrev pub tty_win_resize : ℕ
tty_win_resize = 3

abbrev pub enter_repl : ℕ
enter_repl = 4

abbrev pub tty_ping : ℕ
tty_ping = 5

abbrev pub exit_repl : ℕ
exit_repl = 6

abbrev pub file_exchange : ℕ
file_exchange = 7

abbrev pub port_forward : ℕ
port_forward = 8

abbrev pub return : ℕ
return = 9

abbrev pub get_running_task_count : ℕ
get_running_task_count = 10

abbrev pub get_args : ℕ
get_args = 11

abbrev pub get_args_reply : ℕ
get_args_reply = 12
