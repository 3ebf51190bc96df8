-- ===== src/Clist/Tests.antt =====
-- The theorems on src/lib/clist.c at a list of two nodes.
use rv_mini_os.Prelude.{
  ℕ, ◌≡◌, refl, Bool, true, false, not, some, [], ◌∷◌, arith, ltb, update, ◌==◌, if◌then◌else◌,
  Bool-cases, inl, inr,
}
use rv_mini_os.Clist.{Heap, Callback, remove, insert_sorted, for_each}
use rv_mini_os.Clist.Ring.{IsClist}
use rv_mini_os.Clist.Remove.{remove-IsClist}
use rv_mini_os.Clist.Sorted.{insert_by, insert_sorted-IsClist}
use rv_mini_os.Clist.Walk.{visit, Drops, for_each-filter}

-- The sentinel 10 with the nodes 20 and 30; 40 is free.
abbrev two_nodes : Heap
two_nodes = record {
  next = update (update (update (λ p. p) 10 20) 20 30) 30 10;
  prev = update (update (update (λ p. p) 10 30) 20 10) 30 20;
  in_list = update (update (λ p. false) 20 true) 30 true;
}

two_nodes-IsClist : IsClist two_nodes 10 (20 ∷ 30 ∷ [])
two_nodes-IsClist = record {
  chain = (refl, refl, (refl, refl, (refl, refl, tt)));
  flags = (refl, (refl, tt));
  sentinel = refl;
  apart = refl;
  distinct = (refl, (refl, tt));
  non_null = refl;
}

remove-IsClist_example :
    IsClist (remove 20 two_nodes) 10 (30 ∷ []) × ((remove 20 two_nodes).in_list 20 ≡ false)
remove-IsClist_example = remove-IsClist two_nodes 10 20 [] (30 ∷ []) two_nodes-IsClist

-- a greater address comes later
abbrev later : ℕ → ℕ → Bool
later a b = ltb b a

insert_sorted-IsClist_example :
    (g : Heap) × (insert_sorted 3 later 10 40 two_nodes ≡ some g) × IsClist g 10 (20 ∷ 30 ∷ 40 ∷ [])
unfolding insert_by
insert_sorted-IsClist_example =
    insert_sorted-IsClist later 40 two_nodes 10 3 (20 ∷ 30 ∷ []) two_nodes-IsClist (omega arith)
      refl (omega arith) (omega arith)

abbrev not_twenty : ℕ → Bool
not_twenty x = not (x == 20)

-- takes node 20 out, and counts its runs
abbrev drop_twenty : Callback ℕ
drop_twenty x (h, n) = ((if not_twenty x then h else remove x h, n), false)

drop_twenty-Drops : Drops drop_twenty not_twenty 10
drop_twenty-Drops = record {
  goes_on = λ x s. refl;
  kept = λ x s xs ys l. elim (Bool-cases (not_twenty x)) [
    | inl e ↦ rw e l
    | inr e ↦ rw e (remove-IsClist s.0 10 x xs ys l).0
  ];
}

for_each-filter_example :
    (for_each 3 drop_twenty 10 (two_nodes, 0)
      ≡ some (0, visit drop_twenty (20 ∷ 30 ∷ []) (two_nodes, 0)))
    × IsClist (visit drop_twenty (20 ∷ 30 ∷ []) (two_nodes, 0)).0 10 (30 ∷ [])
for_each-filter_example =
    for_each-filter drop_twenty not_twenty 10 drop_twenty-Drops 3 (20 ∷ 30 ∷ []) (two_nodes, 0)
      (omega arith) two_nodes-IsClist
