-- ===== src/Proc/Tests.antt =====
-- Four tasks: 1 and 2 are threads of one group, 3 and 4 are children of 1, and 4 is a zombie.
use rv_mini_os.Prelude.{
  ◌≡◌, ◌≢◌, ◌⊎◌, refl, true, false, ◌||◌, Option, none, some, [], ◌∷◌, ◌==◌, if◌then◌else◌, has,
}
use rv_mini_os.Task.{
  Kernel, TaskState, WaitList, same_list, remove_from_sched_queues, remove_from_blocking_queues,
  ready_queue_remove, wq_remove,
}
use rv_mini_os.Files.{Files, file_op}
use rv_mini_os.Proc.{World, no_space, destroy_group, task_destroy, remove_from_all_queues}
use rv_mini_os.Proc.Group.{destroy_group-alone}

abbrev pub family : Kernel
family = record {
  task = λ t. record {
    pid = t;
    tgid = if t == 2 then 1 else t;
    state = if t == 4 then TaskState.zombie else TaskState.ready;
    priority = 1;
    wait_on = if t == 4 then some (WaitList.zombies 1) else none;
    wake_up_time = 0;
    parent = if t == 3 || t == 4 then 1 else 0;
    exit_code = 0;
  };
  ready_queues = λ p. if p == 1 then 1 ∷ 2 ∷ 3 ∷ [] else [];
  sleeping_head = [];
  wait_list = λ l. if same_list l (WaitList.zombies 1) then 4 ∷ [] else [];
  highest_ready_tracking = 1;
  preempt_count = 0;
  need_resched = false;
  active = 1;
  ticks = 0;
}

abbrev pub no_files : Files
no_files = record {
  fs = record {
    sb = record {
      magic = 69;
      nb_blk = 100;
      blk_size = 4096;
      nb_ibm = 1;
      nb_dbm = 1;
      nb_itab = 1;
      nb_dblk = 90;
      ibm_start = 2;
      dbm_start = 3;
      itab_start = 4;
      data_start = 5;
    };
    cache = record {
      cblk = λ b. record {
        blkno = 0;
        refcnt = 0;
        dirty = false;
        valid = false;
        held = false;
        buf = λ i. 0;
      };
      buf_list = [];
      disk = λ n i. 0;
      fails = λ n. false;
    };
    inode = λ i. record {
      ino = 0;
      refcnt = 0;
      valid = false;
      held = false;
      content = record { size = 0; kind = 0; dev_id = 0; nblink = 0; dirblkno = λ n. 0; indir = 0 };
    };
    icache = [];
  };
  root = 0;
  ftable = λ f. record { refcnt = 0; i = 0; off = 0; mode = 0; w_op = file_op; r_op = file_op };
  dev_r = λ d. 0;
  dev_w = λ d. 0;
}

abbrev pub family_world : World
family_world = record {
  kernel = family;
  pages = record { free_pages = []; page_rc = λ p. 0; content = λ p i. 0 };
  files = no_files;
  user = λ t. false;
  space = λ t. no_space;
  fdtable = λ t fd. 0;
  head = 1 ∷ 2 ∷ 3 ∷ 4 ∷ [];
  next_pid = 5;
  active_task = 4;
}

abbrev or_family : Option World → World
or_family none = family_world
or_family (some w) = w

abbrev pub alone : World
alone = or_family (destroy_group 1 (1 ∷ 2 ∷ 3 ∷ 4 ∷ []) family_world)

alone-run : destroy_group 1 (1 ∷ 2 ∷ 3 ∷ 4 ∷ []) family_world ≡ some alone
unfolding destroy_group task_destroy remove_from_all_queues remove_from_sched_queues
    remove_from_blocking_queues ready_queue_remove wq_remove
alone-run = refl

three_left : has 3 alone.head ≡ true
unfolding destroy_group task_destroy remove_from_all_queues remove_from_sched_queues
    remove_from_blocking_queues ready_queue_remove wq_remove
three_left = refl

destroy_group-alone_example :
    (has 3 family_world.head ≡ true) × (((family.task 3).tgid ≢ 1) ⊎ (3 ≡ family.active))
destroy_group-alone_example = destroy_group-alone 1 family_world alone alone-run 3 three_left
