-- ===== src/Startup/Daemon.antt =====
-- `process_daemon` (src/xpipe.c): the program goes on in a child and leaves its pid in a file.
pub mod PidFile
use xpipe.Base.{
  ℕ, suc, ◌+◌, Bool, true, false, not, List, [], ◌∷◌, ◌++◌, Option, none, some, Bytes, ltb, ◌==◌,
  if◌then◌else◌, length, take, drop,
}
use xpipe.Xstring.Decimal.{decimal}

-- what `fork` gives: the pid of the child in the parent, 0 in the child, or -1
pub data Forked : Type 0 where
  in_parent in_child not_forked : Forked

-- what the descriptors of the process refer to
pub data Target : Type 0 where
  dev_null other : Target

abbrev pub Fds : Type 0
Fds = ℕ → Option Target

abbrev pub set_fd : ℕ → Option Target → Fds → Fds
set_fd fd v f g = if g == fd then v else f g

-- STDIN_FILENO, STDOUT_FILENO and STDERR_FILENO
abbrev pub stdin_fileno : ℕ
stdin_fileno = 0

abbrev pub stdout_fileno : ℕ
stdout_fileno = 1

abbrev pub stderr_fileno : ℕ
stderr_fileno = 2

-- `dup2(fd, to)`
abbrev pub dup2 : ℕ → ℕ → Fds → Fds
dup2 fd to f = set_fd to (f fd) f

-- the three `dup2` and the `close`, with the descriptor that `open` gives for /dev/null
unfoldable pub redirect : Option ℕ → Fds → Fds
redirect none f = f
redirect (some fd) f =
    let opened = set_fd fd (some dev_null) f in
    let f' = dup2 fd stderr_fileno (dup2 fd stdout_fileno (dup2 fd stdin_fileno opened)) in
    if ltb stderr_fileno fd then set_fd fd none f' else f'

-- The pid file, `none` if there is none. It is opened with O_WRONLY and O_CREAT, and a write of
-- `n` bytes goes over what stands at its start.
abbrev pub created : Option Bytes → Bytes
created none = []
created (some old) = old

abbrev pub overwrite : ℕ → Bytes → Bytes → Bytes
overwrite n text old = take n text ++ drop n old

-- how the call ends: the process exits with 0, or goes on with what the call returns (true for
-- XPE_OK), its descriptors but for the pid file's, and the pid file
pub data Daemon : Type 0 where
  exited : Daemon
  returned : Bool → Fds → Option Bytes → Daemon

abbrev wrote_pid : ℕ → Option ℕ → Fds → Bytes → Daemon
wrote_pid pid none f old = returned false f (some old)
wrote_pid pid (some n) f old =
    returned (n == length (decimal pid)) f (some (overwrite n (decimal pid) old))

-- the part of the child: what `open` gives for /dev/null, whether the pid file can be opened, and
-- what `write` gives
unfoldable pub in_background : Option ℕ → Bool → ℕ → Option ℕ → Fds → Option Bytes → Daemon
unfolding redirect
in_background null_fd opens pid n f old =
    let f' = redirect null_fd f in
    if not opens then returned false f' old else wrote_pid pid n f' (created old)

-- `process_daemon`
unfoldable pub process_daemon :
    ℕ → Forked → Option ℕ → Bool → ℕ → Option ℕ → Fds → Option Bytes → Daemon
unfolding in_background
process_daemon daemon forked null_fd opens pid n f old =
    let child = in_background null_fd opens pid n f old in
    if daemon == 0
    then returned true f old
    else elim forked [ in_parent ↦ exited | in_child ↦ child | not_forked ↦ exited ]
