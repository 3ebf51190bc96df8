-- ===== src/Sync/SemSpec.antt =====
-- What a counting semaphore promises: a number of free units, and the tasks that wait for one in
-- the order of their arrival.
use rv_mini_os.Prelude.{ℕ, zero, suc, ◌+◌, List, [], ◌∷◌, ◌++◌}

pub record View : Type 0 where
  pub count : ℕ
  pub waiters : List ℕ

abbrev pub take_unit : ℕ → ℕ → List ℕ → View
take_unit t zero ws = record { count = 0; waiters = ws ++ t ∷ [] }
take_unit t (suc n) ws = record { count = n; waiters = ws }

-- Task `t` takes a unit, or waits for one.
unfoldable pub wait : ℕ → View → View
wait t v = take_unit t v.count v.waiters

abbrev pub give_unit : ℕ → List ℕ → View
give_unit n [] = record { count = n + 1; waiters = [] }
give_unit n (u ∷ us) = record { count = n; waiters = us }

-- A unit comes back: the first waiter has it, or it is free.
unfoldable pub post : View → View
post v = give_unit v.count v.waiters
