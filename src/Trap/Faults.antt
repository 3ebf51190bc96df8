-- ===== src/Trap/Faults.antt =====
-- Page faults of users.
use rv_mini_os.Prelude.{ℕ, ◌^◌, ◌≤◌, ◌<◌, ◌≡◌, ◌≢◌, false, true, none, some, length}
use rv_mini_os.Pages.Counts.{IsPages}
use rv_mini_os.Vpages.{has_flag, pte_cow, get_next_lvl_pte, vpage_handle_cow}
use rv_mini_os.Vpages.Tree.{Place, IsTree, leaf_entry}
use rv_mini_os.Vpages.Cow.{Owned, vpage_handle_cow-Owned}
use rv_mini_os.Proc.{set_pages}
use rv_mini_os.Syscalls.Dispatch.{Env}
use rv_mini_os.Trap.{Machine, Frame, Semaphores, Outcome, usertrap, exception, store_fault}

-- the registers of the running task, and its root table
abbrev pub active_frame : Machine → Frame
active_frame m = m.frame m.world.kernel.active

abbrev pub active_root : Machine → ℕ
active_root m = (m.world.space m.world.kernel.active).root_ptable

-- The task goes on in user mode with the same registers, in an address space where the page is its own.
pub record Retries (place : Place) (va pte : ℕ) (m : Machine) (r : Outcome) : Type 0 where
  pub owned :
      Owned place
        (active_root m)
        va
        pte
        m.world.pages
        (vpage_handle_cow (active_root m) va m.world.pages)
  pub goes_on : r ≡ some (record m { world = set_pages m.world owned.after }, false)

-- A user's write fault at a copy-on-write address, under the conditions of `vpage_handle_cow` that the
-- tables are a tree, the entry's page is held and is no table, and a page is free unless the page is
-- held once: `usertrap` does not panic or switch, and the task goes on with the same registers, so
-- that it runs the instruction again. Nothing has changed but its memory, in which the page is now
-- its own, with the words that the shared one had.
pub usertrap-Retries :
    (env : Env) (sems : Semaphores) (claimed va pte : ℕ) (place : Place) (m : Machine)
    → (active_frame m).scause ≡ 15
    → IsTree place (active_root m) m.world.pages
    → IsPages m.world.pages
    → va < 2 ^ 39
    → leaf_entry (active_root m) va m.world.pages ≡ some pte
    → has_flag pte pte_cow ≡ true
    → m.world.pages.page_rc (get_next_lvl_pte pte) ≢ 0
    → place (get_next_lvl_pte pte) ≡ none
    → (m.world.pages.page_rc (get_next_lvl_pte pte) ≢ 1 → 1 ≤ length m.world.pages.free_pages)
    → Retries place va pte m (usertrap env sems claimed va m)
unfolding usertrap exception store_fault
usertrap-Retries env sems claimed va pte place m cause tree pages small mapped cow held no_table
      enough =
    let o : Owned place (active_root m) va pte m.world.pages
        (vpage_handle_cow (active_root m) va m.world.pages) =
      vpage_handle_cow-Owned place (active_root m) va pte m.world.pages tree pages small mapped cow
        held no_table enough in
    record { owned = o; goes_on = rw (cause, o.result) }
