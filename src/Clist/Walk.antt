-- ===== src/Clist/Walk.antt =====
-- `clist_for_each` with a callback that takes nodes out of the list it is called on.
use rv_mini_os.Prelude.{
  ℕ, zero, suc, ◌≡◌, ◌<◌, sym, Bool, false, List, [], ◌∷◌, ◌++◌, arith, ==_refl, ◌==◌,
  if◌then◌else◌, length, some, append_assoc, filter, Bool-cases, inl, inr, has-append,
}
use mathlib.Core.Path.{subst}
use rv_mini_os.Clist.{Heap, null, Callback, for_each_loop, for_each}
use rv_mini_os.Clist.Insert.{first_or}
use rv_mini_os.Clist.Ring.{Chain, IsClist, Chain-right}
use rv_mini_os.Clist.Search.{next-first}

-- the callback's runs on the nodes of a list, in order
pub visit : {S : Type 0} → Callback S → List ℕ → Heap × S → Heap × S
visit callback [] s = s
visit callback (x ∷ xs) s = visit callback xs (callback x s).0

-- A callback that never stops the walk, and that takes the nodes that fail `keep` out of their
-- list and changes that list in no other way.
pub record Drops {S : Type 0} (callback : Callback S) (keep : ℕ → Bool) (head : ℕ) : Type 0 where
  pub goes_on : (x : ℕ) (s : Heap × S) → (callback x s).1 ≡ false
  pub kept :
      (x : ℕ) (s : Heap × S) (xs ys : List ℕ)
      → IsClist s.0 head (xs ++ x ∷ ys)
      → IsClist (callback x s).0.0 head (xs ++ (if keep x then x ∷ ys else ys))

module _ {S : Type 0} (callback : Callback S) (keep : ℕ → Bool) (head : ℕ)
    (drops : Drops callback keep head) where
  for_each_loop_lem :
      (fuel : ℕ) (ks xs : List ℕ) (s : Heap × S)
      → length xs < fuel
      → IsClist s.0 head (ks ++ xs)
      → (for_each_loop fuel callback head (first_or xs head) s ≡ some (null, visit callback xs s))
        × IsClist (visit callback xs s).0 head (ks ++ filter keep xs)
  unfolding for_each_loop visit
  for_each_loop_lem zero ks xs s m l = elim m [ ]
  for_each_loop_lem (suc fuel) ks [] s m l = (ground (arith, ==_refl head), l)
  for_each_loop_lem (suc fuel) ks (x ∷ xs) s m l =
      let s' : Heap × S = (callback x s).0 in
      let not_head : (x == head) ≡ false =
        ground (arith, l.apart, has-append head ks (x ∷ xs), ==_refl x) in
      let follows : s.0.next x ≡ first_or xs head = next-first s.0 head x xs (
        Chain-right s.0 head ks x (xs ++ head ∷ [])
          (subst (Chain s.0 head) (append_assoc ks (x ∷ xs) (head ∷ [])) l.chain)) in
      elim (Bool-cases (keep x)) [
        | inl e ↦
            let ih = for_each_loop_lem fuel (ks ++ x ∷ []) xs s' (omega arith) (
              subst (IsClist s'.0 head) (sym (append_assoc ks (x ∷ []) xs))
                (rw e at (drops.kept x s ks xs l))) in
            (
              rw (not_head, drops.goes_on x s, follows) ih.0,
              rw e (
                  subst (IsClist (visit callback xs s').0 head)
                    (append_assoc ks (x ∷ []) (filter keep xs)) ih.1),
            )
        | inr e ↦
            let ih =
              for_each_loop_lem fuel ks xs s' (omega arith) (rw e at (drops.kept x s ks xs l)) in
            (rw (not_head, drops.goes_on x s, follows) ih.0, rw e ih.1)
      ]

  -- For a callback that never stops the walk and takes exactly the nodes that fail a test out of
  -- the list: with fuel for each node, `clist_for_each` on a well-formed list ends, runs the
  -- callback on each node once and in order, and leaves the list of the nodes that pass.
  pub for_each-filter :
      (fuel : ℕ) (xs : List ℕ) (s : Heap × S)
      → length xs < fuel
      → IsClist s.0 head xs
      → (for_each fuel callback head s ≡ some (null, visit callback xs s))
        × IsClist (visit callback xs s).0 head (filter keep xs)
  unfolding for_each
  for_each-filter fuel xs s m l =
      subst
        (λ c.
          (for_each_loop fuel callback head c s ≡ some (null, visit callback xs s))
          × IsClist (visit callback xs s).0 head (filter keep xs))
        (sym (next-first s.0 head head xs l.chain)) (for_each_loop_lem fuel [] xs s m l)
