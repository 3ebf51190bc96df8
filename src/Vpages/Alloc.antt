-- ===== src/Vpages/Alloc.antt =====
-- The walk of `vpage_map`, which allocates the tables that are missing.
use rv_mini_os.Prelude.{
  ℕ, zero, suc, ◌+◌, ◌*◌, ◌^◌, ◌≤◌, ◌<◌, ◌≡◌, ◌≢◌, refl, sym, ◌∙◌, ap, true, false, Option, none,
  some, List, [], ◌∷◌, ◌++◌, arith, ◌==◌, ==_refl, has, length, Bool-cases, inl, inr,
}
use rv_mini_os.Err.{Result, ok}
use rv_mini_os.Pages.{Pages, page_alloc}
use rv_mini_os.Pages.Counts.{IsPages}
use rv_mini_os.Vpages.{pte_v, has_flag, set_word, get_va_vpn, get_next_lvl_pte, walk_alloc}
use rv_mini_os.Vpages.Tree.{Place, IsTree, prefix, leaf_entry, prefix-vpn, prefix_top, vpn_lt}
use rv_mini_os.Vpages.Grow.{placed, Grown, link_next, grow-entries}
use rv_mini_os.Vpages.GrowTree.{grow-IsTree}
use rv_mini_os.Vpages.NewTable.{taken, page_alloc-taken, taken-IsPages, link-IsPages, link-Grown}
use rv_mini_os.Vpages.Reach.{none-ne-some}

-- The tables are a tree and map what they did in `m`, the table `table` has the place of level 0 for
-- `va`, and the pages that are in use and no tables are as in `m`.
pub record Walked (lvl : ℕ) (place : Place) (root va : ℕ) (m : Pages)
    (r : Result ℕ × (List ℕ × Pages)) : Type 0 where
  pub table : ℕ
  pub got : List ℕ
  pub after : Pages
  pub place' : Place
  pub result : r ≡ (ok table, (got, after))
  pub tree : IsTree place' root after
  pub pages : IsPages after
  pub at : place' table ≡ some (0, prefix va 1)
  pub left : length m.free_pages ≤ length after.free_pages + lvl
  pub same : (va' : ℕ) → va' < 2 ^ 39 → leaf_entry root va' after ≡ leaf_entry root va' m
  pub user_data :
      (s : ℕ)
      → has s m.free_pages ≡ false
      → place s ≡ none
      → (place' s ≡ none)
        × (has s after.free_pages ≡ false)
        × (after.page_rc s ≡ m.page_rc s)
        × ((j : ℕ) → after.content s j ≡ m.content s j)

module _ (lvl table va : ℕ) (allocated : List ℕ) (m : Pages) where
  alloc-down :
      has_flag (m.content table (get_va_vpn va (suc lvl))) pte_v ≡ true
      → walk_alloc (suc lvl) table va allocated m
        ≡ walk_alloc lvl
            (get_next_lvl_pte (m.content table (get_va_vpn va (suc lvl))))
            va
            allocated
            m
  unfolding walk_alloc
  alloc-down f = rw f

  pub alloc-grow :
      (n : ℕ) (m1 : Pages)
      → has_flag (m.content table (get_va_vpn va (suc lvl))) pte_v ≡ false
      → page_alloc m ≡ (some n, m1)
      → walk_alloc (suc lvl) table va allocated m
        ≡ walk_alloc lvl
            (get_next_lvl_pte (n * 1024 + pte_v))
            va
            (allocated ++ n ∷ [])
            (set_word table (get_va_vpn va (suc lvl)) (n * 1024 + pte_v) m1)
  unfolding walk_alloc
  alloc-grow n m1 f e = rw (f, ap (λ x. x.0) e, ap (λ x. x.1) e)

alloc-end :
    (table va : ℕ) (allocated : List ℕ) (m : Pages)
    → walk_alloc 0 table va allocated m ≡ (ok table, (allocated, m))
unfolding walk_alloc
alloc-end table va allocated m = refl

-- A page that is free is no table.
pub free-place :
    (place : Place) (root : ℕ) (m : Pages) (n : ℕ) (rest : List ℕ)
    → IsTree place root m
    → m.free_pages ≡ n ∷ rest
    → place n ≡ none
free-place place root m n rest tree e = at (place n) refl
  where
    at : (o : Option (ℕ × ℕ)) → place n ≡ o → place n ≡ none
    at none f = f
    at (some (l, p)) f =
        let used : has n (n ∷ rest) ≡ false = rw e at tree.in_use n l p f in
        absurd (ground (arith, used, ==_refl n))

pub free-cases : (xs : List ℕ) → 1 ≤ length xs → (n : ℕ) × (rest : List ℕ) × (xs ≡ n ∷ rest)
free-cases [] h = absurd (omega arith)
free-cases (n ∷ rest) h = (n, rest, refl)

module _ (root va : ℕ) where
  -- the walk goes on after a new table
  after_new :
      (lvl table n : ℕ) (rest : List ℕ) (place : Place) (m : Pages)
      → (r : Result ℕ × (List ℕ × Pages)) → IsTree place root m
      → IsPages m
      → place table ≡ some (suc lvl, prefix va (suc (suc lvl)))
      → has_flag (m.content table (get_va_vpn va (suc lvl))) pte_v ≡ false
      → m.free_pages ≡ n ∷ rest
      → (let i = get_va_vpn va (suc lvl) in
          Walked lvl
            (placed place n lvl (prefix va (suc (suc lvl)) * 512 + i))
            root
            va
            (set_word table i (n * 1024 + pte_v) (taken m n rest))
            r)
      → Walked (suc lvl) place root va m r
  after_new lvl table n rest place m r tree w at f e k =
      let i = get_va_vpn va (suc lvl) in
      let p = prefix va (suc (suc lvl)) in
      let m' = set_word table i (n * 1024 + pte_v) (taken m n rest) in
      let fresh = free-place place root m n rest tree e in
      let ne : table ≢ n = λ c. none-ne-some (sym fresh ∙ sym (ap place c) ∙ at) in
      let g : Grown m m' table i n = link-Grown m table i n rest e w ne in
      record {
        table = k.table;
        got = k.got;
        after = k.after;
        place' = k.place';
        result = k.result;
        tree = k.tree;
        pages = k.pages;
        at = k.at;
        left = omega (arith, k.left, ap length e);
        same = λ va' h.
            k.same va' h
            ∙ grow-entries place root m m' table i n lvl p tree at (vpn_lt va (suc lvl)) f fresh g 2
                root va' (tree.at_root ∙ ap (λ x. some (2, x)) (sym (prefix_top va' h)));
        user_data = λ s h q.
            (let old : has s (n ∷ rest) ≡ false = rw e at h in
              let sn : (s == n) ≡ false = ground (arith, old) in
              let st : s ≢ table = λ c. none-ne-some (sym q ∙ ap place c ∙ at) in
              let (f1, f2, f3, f4) = k.user_data s (ground (arith, old)) (rw sn q) in
              (f1, f2, f3 ∙ rw sn, λ j. f4 j ∙ ground (arith, st)));
      }

  moved :
      (place : Place) (m : Pages) (l l' : ℕ) {r r' : Result ℕ × (List ℕ × Pages)}
      → l ≤ l'
      → r ≡ r'
      → Walked l place root va m r
      → Walked l' place root va m r'
  moved place m l l' more e k = record {
    table = k.table;
    got = k.got;
    after = k.after;
    place' = k.place';
    result = sym e ∙ k.result;
    tree = k.tree;
    pages = k.pages;
    at = k.at;
    left = omega (arith, k.left, more);
    same = k.same;
    user_data = k.user_data;
  }

  pub walk_alloc-Walked :
      (lvl table : ℕ) (allocated : List ℕ) (place : Place) (m : Pages)
      → IsTree place root m
      → IsPages m
      → place table ≡ some (lvl, prefix va (suc lvl))
      → lvl ≤ length m.free_pages
      → Walked lvl place root va m (walk_alloc lvl table va allocated m)
  walk_alloc-Walked zero table allocated place m tree w at enough = record {
    table = table;
    got = allocated;
    after = m;
    place' = place;
    result = alloc-end table va allocated m;
    tree = tree;
    pages = w;
    at = at;
    left = omega arith;
    same = λ va' h. refl;
    user_data = λ s h f. (f, h, refl, λ j. refl);
  }
  walk_alloc-Walked (suc lvl) table allocated place m tree w at enough =
      let i = get_va_vpn va (suc lvl) in
      let p = prefix va (suc (suc lvl)) in
      let low = tree.low table (suc lvl) p at in
      elim (Bool-cases (has_flag (m.content table i) pte_v)) [
        | inl valid ↦
            let next = get_next_lvl_pte (m.content table i) in
            let d = tree.down table lvl p i at (vpn_lt va (suc lvl)) valid in
            let at' : place next ≡ some (lvl, prefix va (suc lvl)) =
              d.1 ∙ ap (λ x. some (lvl, x)) (prefix-vpn va (suc lvl) low) in
            moved place m lvl (suc lvl) (omega arith)
              (sym (alloc-down lvl table va allocated m valid))
              (walk_alloc-Walked lvl next allocated place m tree w at' (omega arith))
        | inr invalid ↦
            let (n, rest, e) = free-cases m.free_pages (omega arith) in
            let m' = set_word table i (n * 1024 + pte_v) (taken m n rest) in
            let fresh = free-place place root m n rest tree e in
            let g =
              link-Grown m table i n rest e w
                (λ c. none-ne-some (sym fresh ∙ sym (ap place c) ∙ at)) in
            let next = get_next_lvl_pte (n * 1024 + pte_v) in
            let at' : placed place n lvl (p * 512 + i) next ≡ some (lvl, prefix va (suc lvl)) =
              ap (placed place n lvl (p * 512 + i)) (link_next n)
              ∙ (rw (==_refl n))
              ∙ ap (λ x. some (lvl, x)) (prefix-vpn va (suc lvl) low) in
            let enough' : lvl ≤ length rest = omega (arith, ap length e) in
            moved place m (suc lvl) (suc lvl) (omega arith)
              (sym (
                alloc-grow lvl table va allocated m n (taken m n rest) invalid
                  (page_alloc-taken m n rest e)))
              (after_new lvl table n rest place m (walk_alloc lvl next va (allocated ++ n ∷ []) m')
                tree w at invalid e
                (walk_alloc-Walked lvl next (allocated ++ n ∷ []) (placed place n lvl (p * 512 + i))
                  m'
                  (grow-IsTree place root m m' table i n lvl p tree at (vpn_lt va (suc lvl)) invalid
                    fresh g)
                  (link-IsPages (taken m n rest) table i (n * 1024 + pte_v)
                    (taken-IsPages m n rest e w))
                  at' enough'))
      ]
