-- ===== src/Syscalls.antt =====
-- The system calls on files and tasks: src/kernel/core/syscall/sys_io.c and sys_proc.c (Proc.Wait
-- has those of sys_sync.c). The callbacks of devices, the symbols of the linker and what `calloc`
-- gives are parameters, and a descriptor is not negative. `none` is a wait or a panic.
pub mod Dispatch
use rv_mini_os.Prelude.{
  ℕ, ◌+◌, ◌-◌, ◌/◌, Bool, Option, none, some, List, [], ◌∷◌, ◌==◌, if◌then◌else◌, update,
}
use rv_mini_os.Err.{Result, ok, err, ebadf}
use rv_mini_os.Pages.{Pages}
use rv_mini_os.Vpages.Copy.{vpage_copyinstr}
use rv_mini_os.Fs.Bcache.{Bytes}
use rv_mini_os.Fs.ReadWrite.{user_buffer}
use rv_mini_os.Files.{Files, Offset, file_open, file_put, file_read, file_write, file_seek}
use rv_mini_os.Fds.{task_give_fd, task_get_fd, task_release_fd}
use rv_mini_os.Elf.{Device}
use rv_mini_os.Proc.{World, set_pages, exit_task, scheduler_exit_group}
use rv_mini_os.Proc.Clone.{Cloned, task_clone, task_fork}
use rv_mini_os.Proc.Exec.{Done, task_exec}

-- `FS_MAX_PATH`, `MAXNAME` and `O_R`
abbrev pub max_path : ℕ
max_path = 180

abbrev pub maxname : ℕ
maxname = 16

abbrev pub set_files : World → Files → World
set_files w files = record w { files = files }

-- the root table of the running task
abbrev pub active_root : World → ℕ
active_root w = (w.space w.kernel.active).root_ptable

abbrev pub put_file : (f : ℕ) → Result ℕ → World → Done
put_file f r w = elim (file_put f w.files) [
  | none ↦ none
  | some files ↦ some (r, set_files w files)
]

abbrev pub give_fd : (f : ℕ) → World → Result ℕ × (ℕ → ℕ) → Done
give_fd f w (ok fd, fdtable) =
    some (ok fd, record w { fdtable = update w.fdtable w.kernel.active fdtable })
give_fd f w (err e, fdtable) = put_file f (err e) w

abbrev pub opened : World → Option (Result ℕ × Files) → (ℕ → World → Done) → Done
opened w none next = none
opened w (some (err e, files)) next = some (err e, set_files w files)
opened w (some (ok f, files)) next = next f (set_files w files)

abbrev pub named : World → Option (Result (List ℕ) × Pages) → (List ℕ → World → Done) → Done
named w none next = none
named w (some (err e, m)) next = some (err e, set_pages w m)
named w (some (ok path, m)) next = next path (set_pages w m)

-- a string of bytes without the NUL that ends it
abbrev pub without_nul : List ℕ → List ℕ
without_nul [] = []
without_nul (c ∷ path) = if c == 0 then [] else c ∷ without_nul path

unfoldable pub sys_open : (junk : Bytes) (path flags : ℕ) → World → Done
sys_open junk path flags w =
    named w (vpage_copyinstr (active_root w) path max_path w.pages) (λ kernel_path w1.
      opened w1 (file_open junk (without_nul kernel_path) flags w1.files)
        (λ f w2. give_fd f w2 (task_give_fd (f + 1) (w2.fdtable w2.kernel.active))))

abbrev pub io_done : World → Option (Result ℕ × (Files × Pages)) → Done
io_done w none = none
io_done w (some (r, (files, m))) = some (r, record (set_files w files) { pages = m })

abbrev pub active_file : (fd : ℕ) → World → ℕ
active_file fd w = task_get_fd (w.fdtable w.kernel.active) fd

unfoldable pub sys_write : Device Pages → (fd ubuf count : ℕ) → World → Done
sys_write device fd ubuf count w =
    let f = active_file fd w in
    if f == 0
    then some (err ebadf, w)
    else io_done w
        (file_write (user_buffer (active_root w) ubuf) device (f - 1) count w.files w.pages)

unfoldable pub sys_read : Device Pages → (fd ubuf count : ℕ) → World → Done
sys_read device fd ubuf count w =
    let f = active_file fd w in
    if f == 0
    then some (err ebadf, w)
    else io_done w
        (file_read (user_buffer (active_root w) ubuf) device (f - 1) count w.files w.pages)

abbrev pub closed : World → Result ℕ × (Option ℕ × (ℕ → ℕ)) → Done
closed w (r, (none, fdtable)) = some (r, w)
closed w (r, (some f, fdtable)) =
    put_file (f - 1) r (record w { fdtable = update w.fdtable w.kernel.active fdtable })

-- `task_release_fd` with the file that it puts
unfoldable pub sys_close : (fd : ℕ) → World → Done
sys_close fd w = closed w (task_release_fd fd (w.fdtable w.kernel.active))

unfoldable pub sys_seek : (fd : ℕ) → Offset → (whence : ℕ) → World → Done
sys_seek fd offset whence w =
    let f = active_file fd w in
    if f == 0
    then some (err ebadf, w)
    else opened w (file_seek (f - 1) offset whence w.files) (λ n w1. some (ok n, w1))

-- The result is an `int8_t`: a pid from 128 on is a negative number.
abbrev pub child_pid : Cloned → Option (Result ℕ × (World × Bool))
child_pid none = none
child_pid (some (err e, r)) = some (err e, r)
child_pid (some (ok child, (w, switched))) =
    let pid = (w.kernel.task child).pid in
    some ((if pid / 128 == 0 then ok pid else err (256 - pid)), (w, switched))

unfoldable pub sys_fork : (new : Option ℕ) → World → Option (Result ℕ × (World × Bool))
sys_fork new w = child_pid (task_fork new w.kernel.active w)

unfoldable pub sys_clone :
    (new : Option ℕ) (entry stack flags : ℕ) → World → Option (Result ℕ × (World × Bool))
sys_clone new entry stack flags w = child_pid (task_clone new w.kernel.active entry stack flags w)

abbrev pub put_elf : (f : ℕ) → Done → Done
put_elf f none = none
put_elf f (some (r, w)) = put_file f r w

unfoldable pub sys_exec :
    Device Bytes
    → Device Pages
    → (junk : Bytes) (ram_start trampoline_start trampoline_end path argv : ℕ) → World
    → Done
sys_exec device_b device_p junk ram_start trampoline_start trampoline_end path argv w =
    let t = w.kernel.active in
    named w (vpage_copyinstr (active_root w) path maxname w.pages) (λ kpath w1.
      opened w1 (file_open junk (without_nul kpath) 1 w1.files) (λ f w2.
        put_elf f
          (task_exec device_b device_p junk ram_start trampoline_start trampoline_end t f argv w2)))

unfoldable pub sys_getpid : World → ℕ
sys_getpid w = (w.kernel.task w.kernel.active).pid

-- It does not return.
unfoldable pub sys_exit : (code : ℕ) → World → Option (World × Bool)
sys_exit code w = exit_task code w

unfoldable pub sys_exit_group : (code : ℕ) → World → Option (World × Bool)
sys_exit_group code w = scheduler_exit_group code w
