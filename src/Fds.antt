-- ===== src/Fds.antt =====
-- The file descriptors of a task: the end of src/kernel/core/task/task.c. A file is named by its
-- address, NULL is 0, and a descriptor that is negative is no number here: the caller of
-- `task_get_fd` gets NULL for it.
pub mod Give
mod Tests
use rv_mini_os.Prelude.{ℕ, zero, suc, ◌+◌, Option, none, some, ◌==◌, leb, if◌then◌else◌, update}
use rv_mini_os.Err.{Result, ok, err, emfile, ebadf}

-- `NOFILE`
abbrev pub nofile : ℕ
nofile = 16

-- the loop of `task_give_fd`, with the rounds that are left
unfoldable pub give_loop : (rounds fd f : ℕ) → (ℕ → ℕ) → Result ℕ × (ℕ → ℕ)
give_loop zero fd f fdtable = (err emfile, fdtable)
give_loop (suc rounds) fd f fdtable =
    let further = give_loop rounds (fd + 1) f fdtable in
    if fdtable fd == 0 then (ok fd, update fdtable fd f) else further

unfoldable pub task_give_fd : ℕ → (ℕ → ℕ) → Result ℕ × (ℕ → ℕ)
task_give_fd f fdtable = give_loop nofile 0 f fdtable

unfoldable pub task_get_fd : (ℕ → ℕ) → ℕ → ℕ
task_get_fd fdtable fd = if leb nofile fd then 0 else fdtable fd

-- The file that loses a reference (`file_put`) is given beside the result.
unfoldable pub task_release_fd : ℕ → (ℕ → ℕ) → Result ℕ × (Option ℕ × (ℕ → ℕ))
task_release_fd fd fdtable =
    if fdtable fd == 0
    then (err ebadf, (none, fdtable))
    else (ok 0, (some (fdtable fd), update fdtable fd 0))
