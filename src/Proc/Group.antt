-- ===== src/Proc/Group.antt =====
-- What is left of a group of threads after the exit of the group.
use rv_mini_os.Prelude.{
  ℕ, ◌≡◌, ◌≢◌, ◌⊎◌, refl, sym, ◌∙◌, ap, Bool, true, false, not, ◌&&◌, Option, none, some, List, [],
  ◌∷◌, arith, ◌==◌, ==_iff, if◌then◌else◌, update, has, Bool-cases, Option-cases, inl, inr,
}
use rv_mini_os.Pages.{Pages, page_put, page_get_ref_count}
use rv_mini_os.Vpages.{vpage_unmmap}
use rv_mini_os.Vpages.Copy.{vpage_tree_free}
use rv_mini_os.Task.{
  Kernel, Task, TaskState, set_state, without, wq_remove, ready_queue_remove,
  remove_from_blocking_queues, remove_from_sched_queues,
}
use rv_mini_os.Sched.Block.{has-without}
use rv_mini_os.Proc.{
  World, set_kernel, on_pages, release_space, remove_from_all_queues, forget_task, task_destroy,
  destroy_group,
}

-- What one destroyed task leaves as it was: the groups, the running task, and the others in the
-- table.
abbrev pub Kept : (t : ℕ) (w w' : World) → Type 0
Kept t w w' =
    ((u : ℕ) → (w'.kernel.task u).tgid ≡ (w.kernel.task u).tgid)
    × (w'.kernel.active ≡ w.kernel.active)
    × (w'.head ≡ without t w.head)

-- A task that is replaced in its own group changes no group.
update-tgid :
    (task : ℕ → Task) (t u : ℕ) (v : Task)
    → v.tgid ≡ (task t).tgid
    → (update task t v u).tgid ≡ (task u).tgid
update-tgid task t u v e = elim (Bool-cases (u == t)) [
  | inl same ↦ rw same (e ∙ ap (λ x. (task x).tgid) (sym ((==_iff u t).0 same)))
  | inr other ↦ rw other
]

wq_remove-same :
    (t : ℕ) (k : Kernel)
    → ((u : ℕ) → ((wq_remove t k).task u).tgid ≡ (k.task u).tgid)
      × ((wq_remove t k).active ≡ k.active)
unfolding wq_remove
wq_remove-same t k = elim (Option-cases (k.task t).wait_on) [
  | inl free ↦ (λ u. (rw (wq_remove, free)), (rw (wq_remove, free)))
  | inr (l, waits) ↦ (
    λ u.
        (rw (wq_remove, waits)
          (update-tgid k.task t u (record (k.task t) { wait_on = none }) refl)),
    (rw (wq_remove, waits)),
  )
]

queues-same :
    (t : ℕ) (k : Kernel)
    → ((u : ℕ) → ((remove_from_sched_queues t k).task u).tgid ≡ (k.task u).tgid)
      × ((remove_from_sched_queues t k).active ≡ k.active)
unfolding remove_from_sched_queues remove_from_blocking_queues ready_queue_remove
queues-same t k =
    let k1 = ready_queue_remove t k in
    wq_remove-same t (record k1 { sleeping_head = without t k1.sleeping_head })

world-inj : {x y : World} → some x ≡ some y → x ≡ y
world-inj e = cc

none-ne-world : {x : World} → none ≢ some x
none-ne-world e = cc

-- Only the pages have changed.
abbrev SamePlaces : (w w' : World) → Type 0
SamePlaces w w' = (w'.kernel ≡ w.kernel) × (w'.head ≡ w.head)

on_pages-same : (w w' : World) (o : Option Pages) → on_pages w o ≡ some w' → SamePlaces w w'
on_pages-same w w' none e = absurd (none-ne-world e)
on_pages-same w w' (some m) e =
    let f = world-inj e in (ap (λ x. x.kernel) (sym f), ap (λ x. x.head) (sym f))

release_space-same : (t : ℕ) (w w' : World) → release_space t w ≡ some w' → SamePlaces w w'
unfolding release_space
release_space-same t w w' e =
    elim (Option-cases (vpage_unmmap (w.space t).root_ptable (w.space t).tframe_va w.pages)) [
      | inl panics ↦ absurd (none-ne-world (rw (release_space, panics) at e))
      | inr ((r, m), done) ↦
          on_pages-same w w'
            (if page_get_ref_count (w.space t).root_ptable m == 1
              then vpage_tree_free (w.space t).root_ptable m
              else page_put (w.space t).root_ptable m)
            (rw (release_space, done) at e)
    ]

forget-same :
    (w w' : World) (o : Option World)
    → ((w1 : World) → o ≡ some w1 → SamePlaces w w1)
    → forget_task o ≡ some w'
    → SamePlaces w w'
forget-same w w' none h e = absurd (none-ne-world e)
forget-same w w' (some w1) h e =
    let f = world-inj e in
    let (k, l) = h w1 refl in (ap (λ x. x.kernel) (sym f) ∙ k, ap (λ x. x.head) (sym f) ∙ l)

task_destroy-Kept : (t : ℕ) (w w' : World) → task_destroy t w ≡ some w' → Kept t w w'
unfolding task_destroy remove_from_all_queues
task_destroy-Kept t w w' e =
    let k1 = set_state t TaskState.terminated w.kernel in
    let w2 : World = remove_from_all_queues t (set_kernel w k1) in
    let has_space = w2.user t && not ((w2.space t).root_ptable == 0) in
    let rest : Option World = if has_space then release_space t w2 else some w2 in
    let rest-same : (w1 : World) → rest ≡ some w1 → SamePlaces w2 w1 = λ w1 f.
      (elim (Bool-cases has_space) [
        | inl with_space ↦ release_space-same t w2 w1 (rw with_space at f)
        | inr without_space ↦
            let g = world-inj (rw without_space at f) in
            (ap (λ x. x.kernel) (sym g), ap (λ x. x.head) (sym g))
      ]) in
    elim (Bool-cases (w.kernel.active == t)) [
      | inl itself ↦ absurd (none-ne-world (rw itself at e))
      | inr other ↦
          let (k, l) = forget-same w2 w' rest rest-same (rw other at e) in
          let (q, a) = queues-same t k1 in
          (
            λ u.
                (ap (λ x. (x.task u).tgid) k
                  ∙ q u
                  ∙ update-tgid w.kernel.task t u
                      (record (w.kernel.task t) { state = TaskState.terminated }) refl),
            ap (λ x. x.active) k ∙ a,
            l,
          )
    ]

-- whether a task is to be destroyed with its group
abbrev pub in_group : (tgid u : ℕ) → World → Bool
in_group tgid u w = ((w.kernel.task u).tgid == tgid) && not (u == w.kernel.active)

abbrev pub Gone : (tgid : ℕ) (ts : List ℕ) (w w' : World) → Type 0
Gone tgid ts w w' =
    (u : ℕ)
    → has u w'.head ≡ true
    → (has u w.head ≡ true) × ((has u ts && in_group tgid u w) ≡ false)

destroy_group-Gone :
    (tgid : ℕ) (ts : List ℕ) (w w' : World) → destroy_group tgid ts w ≡ some w' → Gone tgid ts w w'
unfolding destroy_group
destroy_group-Gone tgid [] w w' e u h = (ap (λ x. has u x.head) (world-inj e) ∙ h, refl)
destroy_group-Gone tgid (t ∷ ts) w w' e u h = elim (Bool-cases (in_group tgid t w)) [
  | inr other ↦
      let (l, g) = destroy_group-Gone tgid ts w w' (rw (destroy_group, other) at e) u h in
      (l, not_member w other g)
  | inl member ↦ elim (Option-cases (task_destroy t w)) [
    | inl panics ↦ absurd (none-ne-world (rw (destroy_group, member, panics) at e))
    | inr (w1, done) ↦
        let (q, a, d) = task_destroy-Kept t w w1 done in
        let (l, g) = destroy_group-Gone tgid ts w1 w' (rw (destroy_group, member, done) at e) u h in
        member_gone w1 (q, a, d) l g
  ]
]
  where
    not_member :
        (w : World)
        → in_group tgid t w ≡ false
        → (has u ts && in_group tgid u w) ≡ false
        → (has u (t ∷ ts) && in_group tgid u w) ≡ false
    not_member w f g = elim (Bool-cases (u == t)) [
      | inl same ↦ ground (arith, ap (λ x. in_group tgid x w) ((==_iff u t).0 same) ∙ f)
      | inr other ↦ ground (arith, other, g)
    ]

    member_gone :
        (w1 : World)
        → Kept t w w1
        → has u w1.head ≡ true
        → (has u ts && in_group tgid u w1) ≡ false
        → (has u w.head ≡ true) × ((has u (t ∷ ts) && in_group tgid u w) ≡ false)
    member_gone w1 (q, a, d) l g =
        let rest : (if u == t then false else has u w.head) ≡ true =
          sym (has-without t u w.head) ∙ ap (has u) (sym d) ∙ l in
        let other : (u == t) ≡ false = ground (arith, rest) in
        (ground (arith, rest, other), ground (arith, g, other, q u, a))

-- When `destroy_group` over the whole task table ends, no task of the group is left in the table but
-- the running one, and none has come in.
pub destroy_group-alone :
    (tgid : ℕ) (w w' : World)
    → destroy_group tgid w.head w ≡ some w'
    → (u : ℕ) → has u w'.head ≡ true
    → (has u w.head ≡ true) × (((w.kernel.task u).tgid ≢ tgid) ⊎ (u ≡ w.kernel.active))
destroy_group-alone tgid w w' e u h =
    let (l, g) = destroy_group-Gone tgid w.head w w' e u h in
    (
      l,
      (elim (Bool-cases (u == w.kernel.active)) [
        | inl same ↦ inr ((==_iff u w.kernel.active).0 same)
        | inr other ↦ inl (ground (arith, g, l, other))
      ]),
    )
