-- ===== src/Proc/Start.antt =====
-- The first task and its console: `task_init` and `task_map_console` of src/kernel/core/task/task.c.
use rv_mini_os.Prelude.{ℕ, ◌+◌, Bool, Option, none, some, List, [], ◌∷◌}
use rv_mini_os.Err.{Result, ok, err}
use rv_mini_os.Fs.Bcache.{Bytes}
use rv_mini_os.Fs.Inode.{Call}
use rv_mini_os.Fs.Paths.{fs_mknod}
use rv_mini_os.Files.{Files, set_fs, file_open}
use rv_mini_os.Task.{TaskState, set_state, idle}
use rv_mini_os.Sched.{scheduler_init}
use rv_mini_os.Proc.{World, set_fd, set_kernel}
use rv_mini_os.Proc.Exec.{Done, set_files, task_kthread}

unfoldable pub init_task_table : World → World
init_task_table w = record w { head = []; next_pid = 0; active_task = 0 }

abbrev pub make_active : Option (Result ℕ × (World × Bool)) → Done
make_active none = none
make_active (some (err e, (w, switched))) = some (err e, w)
make_active (some (ok t, (w, switched))) =
    let k = set_state t TaskState.running w.kernel in
    some (ok 0, set_kernel w (record k { active = t }))

unfoldable pub init_idle : (new : Option ℕ) → World → Done
init_idle new w = make_active (task_kthread new idle w)

unfoldable pub task_init : (new : Option ℕ) → World → Done
task_init new w =
    let w1 = init_task_table w in init_idle new (set_kernel w1 (scheduler_init w1.kernel))

-- "/dev/console"
abbrev pub console_path : List ℕ
console_path = 47 ∷ 100 ∷ 101 ∷ 118 ∷ 47 ∷ 99 ∷ 111 ∷ 110 ∷ 115 ∷ 111 ∷ 108 ∷ 101 ∷ []

-- an open file under a descriptor
abbrev pub as_fd : (t fd : ℕ) → World → Option (Result ℕ × Files) → (World → Done) → Done
as_fd t fd w none next = none
as_fd t fd w (some (err e, files)) next = some (err e, set_files w files)
as_fd t fd w (some (ok f, files)) next = next (set_fd t fd (f + 1) (set_files w files))

abbrev pub after_mknod : World → Call → (World → Done) → Done
after_mknod w none next = none
after_mknod w (some (err e, s)) next = some (err e, set_files w (set_fs w.files s))
after_mknod w (some (ok n, s)) next = next (set_files w (set_fs w.files s))

-- `FILE_DEV_CONSOLE` is 0; `STDOUT` is 0 and `STDIN` 1; `O_W` is 2 and `O_R` 1.
unfoldable pub task_map_console : (junk : Bytes) (t : ℕ) → World → Done
task_map_console junk t w =
    after_mknod w (fs_mknod junk w.files.root console_path 0 w.files.fs) (λ w1.
      as_fd t 0 w1 (file_open junk console_path 2 w1.files)
        (λ w2. as_fd t 1 w2 (file_open junk console_path 1 w2.files) (λ w3. some (ok 0, w3))))
