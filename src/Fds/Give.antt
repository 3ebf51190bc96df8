-- ===== src/Fds/Give.antt =====
-- A file gets the lowest descriptor that is free, and comes back by it.
use rv_mini_os.Prelude.{
  ℕ, zero, suc, ◌+◌, ◌<◌, ◌≡◌, ◌≢◌, refl, sym, ◌∙◌, ap, false, some, arith, ◌==◌, ==_refl, ==_iff,
  update, Bool-cases, inl, inr,
}
use mathlib.Core.Path.{subst}
use rv_mini_os.Err.{Result, ok, err, emfile}
use rv_mini_os.Fds.{nofile, give_loop, task_give_fd, task_get_fd, task_release_fd}

-- The descriptors from `from` on and below `to` are taken.
abbrev pub Taken : (ℕ → ℕ) → (from rounds : ℕ) → Type 0
Taken t from zero = Unit
Taken t from (suc rounds) = (t from ≢ 0) × Taken t (from + 1) rounds

-- What is given back for a file `f`: the first free descriptor of the table `t`, under which the
-- new table has the file, or an error and the old table if none is free.
abbrev pub Given : (ℕ → ℕ) → (from rounds f : ℕ) → Result ℕ × (ℕ → ℕ) → Type 0
Given t from rounds f (err e, t') = (e ≡ emfile) × (t' ≡ t) × Taken t from rounds
Given t from rounds f (ok fd, t') =
    (k : ℕ) × (fd ≡ from + k) × (k < rounds) × Taken t from k × (t fd ≡ 0) × (t' ≡ update t fd f)

Given-cons :
    (t : ℕ → ℕ) (from rounds f : ℕ) (r : Result ℕ × (ℕ → ℕ))
    → t from ≢ 0
    → Given t (from + 1) rounds f r
    → Given t from (suc rounds) f r
Given-cons t from rounds f (err e, t') taken g = (g.0, g.1, (taken, g.2))
Given-cons t from rounds f (ok fd, t') taken (k, e, l, h, z, u) =
    (suc k, omega arith, omega arith, (taken, h), z, u)

give_loop-Given :
    (t : ℕ → ℕ) (from rounds f : ℕ) → Given t from rounds f (give_loop rounds from f t)
unfolding give_loop
give_loop-Given t from zero f = (refl, refl, tt)
give_loop-Given t from (suc rounds) f = elim (Bool-cases (t from == 0)) [
  | inl free ↦ rw free (0, omega arith, omega arith, tt, (==_iff (t from) 0).0 free, refl)
  | inr taken ↦ rw taken (
      Given-cons t from rounds f (give_loop rounds (from + 1) f t) (ground arith)
        (give_loop-Given t (from + 1) rounds f))
]

-- `task_give_fd` gives the file the lowest free descriptor below NOFILE and changes no other entry
-- of the table; it fails with EMFILE, and changes nothing, if all are taken.
pub task_give_fd-Given : (t : ℕ → ℕ) (f : ℕ) → Given t 0 nofile f (task_give_fd f t)
unfolding task_give_fd
task_give_fd-Given t f = give_loop-Given t 0 nofile f

released : (t t' : ℕ → ℕ) (f fd q : ℕ) → t fd ≡ 0 → t' q ≡ update t fd f q → update t' fd 0 q ≡ t q
released t t' f fd q free new = elim (Bool-cases (q == fd)) [
  | inl same ↦ rw same (sym (ap t ((==_iff q fd).0 same) ∙ free))
  | inr other ↦ rw other (new ∙ rw other)
]

-- The descriptor that `task_give_fd` gives for a file that is not NULL leads to that file, and its
-- release gives the file back and restores the table.
pub give-release :
    (t t' : ℕ → ℕ) (f fd : ℕ)
    → f ≢ 0
    → task_give_fd f t ≡ (ok fd, t')
    → (task_get_fd t' fd ≡ f) × (task_release_fd fd t' ≡ (ok 0, (some f, t)))
unfolding task_get_fd task_release_fd
give-release t t' f fd nn e =
    let (k, at, below, taken, free, new) = subst (Given t 0 nofile f) e (task_give_fd-Given t f) in
    let back : t' fd ≡ f = ap (λ (g : ℕ → ℕ). g fd) new ∙ ground (arith, ==_refl fd) in
    let in_use : (t' fd == 0) ≡ false = ground (arith, back) in
    (
      ground (arith, back, at, below),
      rw in_use (λ i. (
        ok 0,
        (some (back i), (λ q. released t t' f fd q free (ap (λ (g : ℕ → ℕ). g q) new) i)),
      )),
    )
