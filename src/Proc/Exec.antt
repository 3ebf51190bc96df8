-- ===== src/Proc/Exec.antt =====
-- New programs: the image, the arguments, `task_start_userland`, `task_kthread` and `task_exec` of
-- src/kernel/core/task/task.c. The devices' callbacks and the symbols of the linker are parameters.
use rv_mini_os.Prelude.{
  ℕ, zero, suc, ◌+◌, ◌-◌, ◌*◌, ◌/◌, ◌%◌, ◌^◌, Bool, true, false, Option, none, some, List, [], ◌∷◌,
  ◌++◌, ◌==◌, if◌then◌else◌, length, update,
}
use mathlib.Core.List.{reverse}
use rv_mini_os.Err.{Result, ok, err, e2big}
use rv_mini_os.Pages.{Pages}
use rv_mini_os.Vpages.Copy.{
  vpage_copyin, vpage_copyinstr, vpage_copyout, vpage_copyoutstr, vpage_tree_free,
}
use rv_mini_os.Fs.Bcache.{Bytes}
use rv_mini_os.Mmap.{Space, mmap_uimage}
use rv_mini_os.Files.{Files}
use rv_mini_os.Elf.{Device, load_hdr, elf_load_hdr, elf_verify_file_format, elf_map}
use rv_mini_os.Proc.{World, alloc_squeletton, activate_task, copy_fds}

-- `EXEC_MAX_ARGS`, `MAXNAME` and `USTACK`
abbrev pub exec_max_args : ℕ
exec_max_args = 7

abbrev pub maxname : ℕ
maxname = 16

abbrev pub ustack : ℕ
ustack = 2 ^ 38 - 8192

abbrev pub align_down : (addr size : ℕ) → ℕ
align_down addr size = addr - addr % size

-- A number as `count` bytes, little-endian, and back.
abbrev pub to_bytes : (count n : ℕ) → List ℕ
to_bytes zero n = []
to_bytes (suc count) n = n % 256 ∷ to_bytes count (n / 256)

abbrev pub of_bytes : List ℕ → ℕ
of_bytes [] = 0
of_bytes (b ∷ bs) = b + 256 * of_bytes bs

abbrev pub words_bytes : List ℕ → List ℕ
words_bytes [] = []
words_bytes (n ∷ ns) = to_bytes 8 n ++ words_bytes ns

-- A call that works on the pages, with a value or an error; `none` is a panic.
abbrev pub Got : Type 0 → Type 0
Got A = Option (Result A × Pages)

abbrev pub on_got : {A B : Type 0} → Got A → (A → Pages → Got B) → Got B
on_got none f = none
on_got (some (err e, m)) f = some (err e, m)
on_got (some (ok a, m)) f = f a m

-- The loop of `get_argc`, with the rounds that are left: the pointers, as many as `argc` says.
unfoldable pub argc_loop : (rounds old at : ℕ) (argv_k : List ℕ) → Pages → Got (List ℕ)
argc_loop zero old at argv_k m = some (err e2big, m)
argc_loop (suc rounds) old at argv_k m = on_got (vpage_copyin old at 8 m) (λ bs m1.
    let further = argc_loop rounds old (at + 8) (argv_k ++ of_bytes bs ∷ []) m1 in
    if of_bytes bs == 0 then some (ok argv_k, m1) else further)

unfoldable pub get_argc : (old argv : ℕ) → Pages → Got (List ℕ)
get_argc old argv m = if argv == 0 then some (ok [], m) else argc_loop exec_max_args old argv [] m

-- The loop of `transfer_argv` over the arguments, the last one first: the stack pointer, and the
-- addresses of the copies.
unfoldable pub copy_args :
    (old new : ℕ) → List ℕ → (sp : ℕ) (argv_tmp : List ℕ) → Pages → Got (ℕ × List ℕ)
copy_args old new [] sp argv_tmp m = some (ok (sp, argv_tmp), m)
copy_args old new (arg ∷ args) sp argv_tmp m = on_got (vpage_copyinstr old arg maxname m) (λ bs m1.
    let sp' = align_down (sp - length bs) 16 in
    on_got (vpage_copyoutstr new sp' bs (length bs) m1)
      (λ n m2. copy_args old new args sp' (sp' ∷ argv_tmp) m2))

-- the end of `transfer_argv`: the pointers with a NULL behind them, then their number
unfoldable pub copy_table : (new sp : ℕ) (argv_tmp : List ℕ) → Pages → Got ℕ
copy_table new sp argv_tmp m =
    let sp1 = align_down (sp - (length argv_tmp + 1) * 8) 16 in
    let sp2 = align_down (sp1 - 4) 16 in
    on_got (vpage_copyout new sp1 (words_bytes (argv_tmp ++ 0 ∷ [])) m) (λ n m1.
      on_got (vpage_copyout new sp2 (to_bytes 4 (length argv_tmp)) m1) (λ k m2. some (ok sp2, m2)))

unfoldable pub transfer_argv : (old new argv : ℕ) → Pages → Got ℕ
transfer_argv old new argv m = on_got (get_argc old argv m) (λ args m1.
    on_got (copy_args old new (reverse args) ustack [] m1) (λ r m2. copy_table new r.0 r.1 m2))

-- a result beside all that changed
abbrev pub Done : Type 0
Done = Option (Result ℕ × World)

abbrev pub on_done : Done → (ℕ → World → Done) → (ℕ → World → Done) → Done
on_done none f undo = none
on_done (some (err e, w)) f undo = undo e w
on_done (some (ok n, w)) f undo = f n w

abbrev pub fails_with : ℕ → World → Done
fails_with e w = some (err e, w)

abbrev pub set_files : World → Files → World
set_files w files = record w { files = files }

module _ (device_b : Device Bytes) (device_p : Device Pages) (junk : Bytes)
    (ram_start trampoline_start trampoline_end : ℕ) where
  -- A new space that cannot be filled is freed.
  abbrev pub loaded : (t entry : ℕ) → World → Option (Result ℕ × (Files × Pages)) → Done
  loaded t entry w none = none
  loaded t entry w (some (ok n, (files, m))) =
      some (ok entry, record (set_files w files) { pages = m })
  loaded t entry w (some (err e, (files, m))) = elim (vpage_tree_free (w.space t).root_ptable m) [
    | none ↦ none
    | some m1 ↦ some (err e, record (set_files w files) { pages = m1 })
  ]

  abbrev pub map_image :
      (t f : ℕ) (hdr : Bytes) → World → Option (Result ℕ × (Space × Pages)) → Done
  map_image t f hdr w none = none
  map_image t f hdr w (some (err e, (s, m))) =
      some (err e, record w { space = update w.space t s; pages = m })
  map_image t f hdr w (some (ok n, (s, m))) =
      let w1 = record w { space = update w.space t s; pages = m } in
      loaded t (load_hdr hdr).entry w1
        (elf_map device_b device_p junk ram_start s.root_ptable f (load_hdr hdr) w1.files m)

  abbrev pub with_header : (t f : ℕ) → World → Option (Result ℕ × (Files × Bytes)) → Done
  with_header t f w none = none
  with_header t f w (some (err e, (files, hdr))) = some (err e, set_files w files)
  with_header t f w (some (ok n, (files, hdr))) = elim (elf_verify_file_format (load_hdr hdr)) [
    | err e ↦ some (err e, set_files w files)
    | ok k ↦
        map_image t f hdr (set_files w files)
          (mmap_uimage trampoline_start trampoline_end (w.user t) (w.space t) w.pages)
  ]

  -- The entry point is given.
  unfoldable pub load_elf_image : (t f : ℕ) → World → Done
  load_elf_image t f w = with_header t f w (elf_load_hdr device_b f w.files junk)

  abbrev pub arguments : (old argv t : ℕ) → World → Done
  arguments old argv t w = elim (transfer_argv old (w.space t).root_ptable argv w.pages) [
    | none ↦ none
    | some (r, m) ↦ some (r, record w { pages = m })
  ]

  -- `err_restore_old_state`
  abbrev pub restore : (t : ℕ) → Space → ℕ → World → Done
  restore t old e w =
      let s = record (w.space t) { root_ptable = old.root_ptable; tframe_pa = old.tframe_pa } in
      some (err e, record w { space = update w.space t s })

  abbrev pub free_old : (old : ℕ) → World → Done
  free_old old w = elim (vpage_tree_free old w.pages) [
    | none ↦ none
    | some m ↦ some (ok 0, record w { pages = m })
  ]

  unfoldable pub task_exec : (t f argv : ℕ) → World → Done
  task_exec t f argv w =
      let old = w.space t in
      let run =
        on_done (load_elf_image t f w)
          (λ entry w1.
            on_done (arguments old.root_ptable argv t w1) (λ sp w2. free_old old.root_ptable w2)
              (restore t old))
          (restore t old) in
      if w.user t then run else none

  abbrev pub start : (t : ℕ) → World → Option (Result ℕ × (World × Bool))
  start t w = elim (copy_fds t w.kernel.active false w) [
    | none ↦ none
    | some w1 ↦ some (ok t, activate_task t w1)
  ]

  abbrev pub start_done : (t : ℕ) → Done → Option (Result ℕ × (World × Bool))
  start_done t none = none
  start_done t (some (err e, w)) = some (err e, (w, false))
  start_done t (some (ok n, w)) = start t w

  abbrev pub start_made : (f : ℕ) → Result ℕ × World → Option (Result ℕ × (World × Bool))
  start_made f (err e, w) = some (err e, (w, false))
  start_made f (ok t, w) =
      start_done t (on_done (load_elf_image t f w) (λ entry w1. arguments 0 0 t w1) fails_with)

  unfoldable pub task_start_userland :
      (new : Option ℕ) (f prior : ℕ) → World → Option (Result ℕ × (World × Bool))
  task_start_userland new f prior w =
      start_made f (alloc_squeletton new prior true w.kernel.active w)

-- a kernel task; its code and its stack are left out
abbrev pub start_kernel : Result ℕ × World → Option (Result ℕ × (World × Bool))
start_kernel (err e, w) = some (err e, (w, false))
start_kernel (ok t, w) = elim (copy_fds t w.kernel.active false w) [
  | none ↦ none
  | some w1 ↦ some (ok t, activate_task t w1)
]

unfoldable pub task_kthread :
    (new : Option ℕ) (prior : ℕ) → World → Option (Result ℕ × (World × Bool))
task_kthread new prior w = start_kernel (alloc_squeletton new prior false w.kernel.active w)
