-- ===== src/Clist.antt =====
-- The functions of src/lib/clist.c: an intrusive circular doubly linked list. The store keeps one
-- array for each field of `clist_node_t`; an address is a number and NULL is 0. `in_list` is only
-- ever 0 or 1 and is a Boolean here. Each assignment of the source is one write, in its order.
-- A loop runs on fuel; an exhausted one is `none`.
pub mod Ring
pub mod Insert
pub mod Push
pub mod Remove
pub mod Search
pub mod Sorted
pub mod Walk
mod Tests
use rv_mini_os.Prelude.{
  ℕ, zero, suc, ◌≡◌, Bool, true, false, ◌&&◌, ◌||◌, not, Option, none, some, ◌==◌, if◌then◌else◌,
  update,
}

pub record Heap : Type 0 where
  pub next : ℕ → ℕ
  pub prev : ℕ → ℕ
  pub in_list : ℕ → Bool

abbrev pub null : ℕ
null = 0

abbrev pub set_next : ℕ → ℕ → Heap → Heap
set_next p v h = record h { next = update h.next p v }

abbrev pub set_prev : ℕ → ℕ → Heap → Heap
set_prev p v h = record h { prev = update h.prev p v }

abbrev pub set_in_list : ℕ → Bool → Heap → Heap
set_in_list p v h = record h { in_list = update h.in_list p v }

unfoldable pub init_node : ℕ → Heap → Heap
init_node node h = set_in_list node false (set_next node node (set_prev node node h))

unfoldable pub empty : ℕ → Heap → Bool
empty head h = h.next head == head

unfoldable pub insert_before : ℕ → ℕ → Heap → Heap
insert_before pos node h =
    if h.in_list node
    then h
    else (let h1 = set_next node pos h in
        let h2 = set_prev node (h1.prev pos) h1 in
        let h3 = set_next (h2.prev pos) node h2 in
        let h4 = set_prev pos node h3 in set_in_list node true h4)

unfoldable pub insert_after : ℕ → ℕ → Heap → Heap
insert_after pos node h =
    if h.in_list node
    then h
    else (let h1 = set_next node (h.next pos) h in
        let h2 = set_prev (h1.next pos) node h1 in
        let h3 = set_prev node pos h2 in let h4 = set_next pos node h3 in set_in_list node true h4)

unfoldable pub push_back : ℕ → ℕ → Heap → Heap
push_back head node h = insert_before head node h

unfoldable pub push_front : ℕ → ℕ → Heap → Heap
push_front head node h = insert_after head node h

unfoldable pub remove : ℕ → Heap → Heap
unfolding init_node
remove node h =
    if (node == null) || not (h.in_list node)
    then h
    else (let h1 = set_next (h.prev node) (h.next node) h in
        let h2 = set_prev (h1.next node) (h1.prev node) h1 in init_node node h2)

unfoldable pub first : ℕ → Heap → ℕ
unfolding empty
first head h = if empty head h then null else h.next head

unfoldable pub last : ℕ → Heap → ℕ
unfolding empty
last head h = if empty head h then null else h.prev head

unfoldable pub is_in_list : ℕ → Heap → Bool
is_in_list node h = h.in_list node

unfoldable pub pop_front : ℕ → Heap → ℕ × Heap
unfolding empty remove
pop_front head h =
    if empty head h then (null, h) else (let first = h.next head in (first, remove first h))

-- `while (current != head && cmp(current, node) <= 0)`, where `after a b` is `cmp(a, b) > 0`.
sorted_pos : ℕ → (ℕ → ℕ → Bool) → (head node current : ℕ) → Heap → Option ℕ
sorted_pos zero after head node current h = none
sorted_pos (suc fuel) after head node current h =
    let rest = sorted_pos fuel after head node (h.next current) h in
    if not (current == head) && not (after current node) then rest else some current

unfoldable pub insert_sorted : ℕ → (ℕ → ℕ → Bool) → ℕ → ℕ → Heap → Option Heap
unfolding sorted_pos insert_before
insert_sorted fuel after head node h = elim (sorted_pos fuel after head node (h.next head) h) [
  | none ↦ none
  | some pos ↦ some (insert_before pos node h)
]

-- The walks of `clist_find` and `clist_find_rev`; the result of a finished one is NULL or a node.
find_loop : ℕ → (ℕ → Bool) → (head current : ℕ) → Heap → Option ℕ
find_loop zero pred head current h = none
find_loop (suc fuel) pred head current h =
    let rest = find_loop fuel pred head (h.next current) h in
    if current == head then some null else if pred current then some current else rest

unfoldable pub find : ℕ → (ℕ → Bool) → ℕ → Heap → Option ℕ
unfolding find_loop
find fuel pred head h = find_loop fuel pred head (h.next head) h

find_rev_loop : ℕ → (ℕ → Bool) → (head current : ℕ) → Heap → Option ℕ
find_rev_loop zero pred head current h = none
find_rev_loop (suc fuel) pred head current h =
    let rest = find_rev_loop fuel pred head (h.prev current) h in
    if current == head then some null else if pred current then some current else rest

unfoldable pub find_rev : ℕ → (ℕ → Bool) → ℕ → Heap → Option ℕ
unfolding find_rev_loop
find_rev fuel pred head h = find_rev_loop fuel pred head (h.prev head) h

-- A callback gets the node and the whole state (the store, and what `args` and globals hold), and
-- its Boolean is the non-zero test of its result.
abbrev pub Callback : Type 0 → Type 0
Callback S = ℕ → Heap × S → (Heap × S) × Bool

for_each_loop :
    {S : Type 0} → ℕ → Callback S → (head current : ℕ) → Heap × S → Option (ℕ × (Heap × S))
for_each_loop zero callback head current s = none
for_each_loop (suc fuel) callback head current s =
    let next = s.0.next current in
    let (s', stop) = callback current s in
    let rest = for_each_loop fuel callback head next s' in
    if current == head then some (null, s) else if stop then some (current, s') else rest

unfoldable pub for_each : {S : Type 0} → ℕ → Callback S → ℕ → Heap × S → Option (ℕ × (Heap × S))
unfolding for_each_loop
for_each fuel callback head s = for_each_loop fuel callback head (s.0.next head) s

for_each_and_del_loop :
    {S : Type 0} → ℕ → Callback S → (head current failure : ℕ) → Heap × S → Option (ℕ × (Heap × S))
unfolding remove
for_each_and_del_loop zero callback head current failure s = none
for_each_and_del_loop (suc fuel) callback head current failure s =
    let next = s.0.next current in
    let (s', failed) = callback current (remove current s.0, s.1) in
    let failure' = if failed then (if failure == null then current else failure) else failure in
    let rest = for_each_and_del_loop fuel callback head next failure' s' in
    if current == head then some (failure, s) else rest

unfoldable pub for_each_and_del :
    {S : Type 0} → ℕ → Callback S → ℕ → Heap × S → Option (ℕ × (Heap × S))
unfolding for_each_and_del_loop init_node
for_each_and_del fuel callback head s =
    for_each_and_del_loop fuel callback head (s.0.next head) null (init_node head s.0, s.1)
