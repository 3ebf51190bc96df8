-- ===== src/Sync/MutexSpec.antt =====
-- What a mutex promises: an owner, and the tasks that wait for it in the order of their arrival.
use rv_mini_os.Prelude.{ℕ, Option, none, some, List, [], ◌∷◌, ◌++◌, ◌==◌, if◌then◌else◌}

pub record View : Type 0 where
  pub owner : Option ℕ
  pub waiters : List ℕ

-- Task `t` asks for the mutex.
unfoldable pub lock : ℕ → View → View
lock t v = elim v.owner [
  | none ↦ record v { owner = some t }
  | some o ↦ record v { waiters = v.waiters ++ t ∷ [] }
]

-- the view after the owner has left: the first waiter owns the mutex
abbrev pub next_owner : List ℕ → View
next_owner [] = record { owner = none; waiters = [] }
next_owner (u ∷ us) = record { owner = some u; waiters = us }

-- Task `t` gives the mutex back, if it is its own.
unfoldable pub unlock : ℕ → View → View
unlock t v = elim v.owner [ none ↦ v | some o ↦ if o == t then next_owner v.waiters else v ]
