-- ===== src/Clist/Sorted.antt =====
-- `clist_insert_sorted`: the place that the loop finds, and the list that results.
use rv_mini_os.Prelude.{
  ℕ, zero, suc, ◌≡◌, ◌≢◌, ◌<◌, refl, Bool, false, List, [], ◌∷◌, ◌++◌, arith, has, ==_refl,
  if◌then◌else◌, length, some, sym,
}
use mathlib.Core.Path.{subst}
use rv_mini_os.Clist.{Heap, null, sorted_pos, insert_sorted, insert_before}
use rv_mini_os.Clist.Insert.{first_or, insert_before-IsClist}
use rv_mini_os.Clist.Ring.{Chain, IsClist}

-- `after x node` says that `node` belongs before `x`
module _ (after : ℕ → ℕ → Bool) (node : ℕ) where
  -- a list with `node` put before the first element that comes after it
  unfoldable pub insert_by : List ℕ → List ℕ
  insert_by [] = node ∷ []
  insert_by (x ∷ xs) = if after x node then node ∷ x ∷ xs else x ∷ insert_by xs

  -- the elements that the loop walks over, and the rest
  abbrev lows : List ℕ → List ℕ
  lows [] = []
  lows (x ∷ xs) = if after x node then [] else x ∷ lows xs

  abbrev highs : List ℕ → List ℕ
  highs [] = []
  highs (x ∷ xs) = if after x node then x ∷ xs else highs xs

  lows-append-highs : (xs : List ℕ) → lows xs ++ highs xs ≡ xs
  lows-append-highs [] = refl
  lows-append-highs (x ∷ xs) = ground (arith, lows-append-highs xs)

  insert_by-eq : (xs : List ℕ) → lows xs ++ node ∷ highs xs ≡ insert_by xs
  unfolding insert_by
  insert_by-eq [] = refl
  insert_by-eq (x ∷ xs) = ground (arith, insert_by-eq xs)

  module _ (h : Heap) (head : ℕ) where
    sorted_pos_lem :
        (fuel p : ℕ) (xs : List ℕ)
        → length xs < fuel
        → has head xs ≡ false
        → Chain h p (xs ++ head ∷ [])
        → sorted_pos fuel after head node (h.next p) h ≡ some (first_or (highs xs) head)
    unfolding sorted_pos
    sorted_pos_lem zero p xs m out c = elim m [ ]
    sorted_pos_lem (suc fuel) p [] m out c = ground (arith, ==_refl head)
    sorted_pos_lem (suc fuel) p (x ∷ xs) m out c =
        ground (arith, sorted_pos_lem fuel x xs (omega arith) (ground arith) c.2, ==_refl x)

    -- With fuel for each node, `clist_insert_sorted` ends, and puts a node that is in no list, not
    -- NULL and not the sentinel, before the first node of a well-formed list that comes after it.
    pub insert_sorted-IsClist :
        (fuel : ℕ) (xs : List ℕ)
        → IsClist h head xs
        → length xs < fuel
        → h.in_list node ≡ false
        → node ≢ head
        → node ≢ null
        → (g : Heap) × (insert_sorted fuel after head node h ≡ some g)
          × IsClist g head (insert_by xs)
    unfolding insert_sorted
    insert_sorted-IsClist fuel xs l m free ne nn = (
      insert_before (first_or (highs xs) head) node h,
      rw (sorted_pos_lem fuel head xs m l.apart l.chain, insert_sorted),
      subst (IsClist (insert_before (first_or (highs xs) head) node h) head) (insert_by-eq xs) (
          insert_before-IsClist h head node free ne (lows xs) (highs xs)
            (subst (IsClist h head) (sym (lows-append-highs xs)) l) nn),
    )
