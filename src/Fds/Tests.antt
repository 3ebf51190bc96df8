-- ===== src/Fds/Tests.antt =====
-- The descriptors of a task that has two open files.
use rv_mini_os.Prelude.{ℕ, ◌≡◌, refl, ltb, if◌then◌else◌, update}
use rv_mini_os.Err.{ok}
use rv_mini_os.Fds.{give_loop, task_give_fd}

abbrev two_files : ℕ → ℕ
two_files fd = if ltb fd 2 then 77 else 0

give-two : task_give_fd 88 two_files ≡ (ok 2, update two_files 2 88)
unfolding task_give_fd give_loop
give-two = refl
