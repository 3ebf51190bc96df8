-- ===== src/Vpages/Unmap.antt =====
-- What `vpage_unmmap` takes out of an address space.
use rv_mini_os.Prelude.{
  ℕ, ◌+◌, ◌-◌, ◌/◌, ◌^◌, ◌<◌, ◌≡◌, ◌≢◌, refl, sym, ◌∙◌, ap, true, false, Option, none, some, ◌⊎◌,
  arith, ◌==◌, ==_refl, if◌then◌else◌, has, update, Bool-cases, inl, inr,
}
use rv_mini_os.Err.{ok, err, einval}
use rv_mini_os.Pages.{Pages, page_put, push_free, page_get_ref_count}
use rv_mini_os.Pages.Counts.{IsPages, page_put-IsPages}
use rv_mini_os.Vpages.{
  pte_v, has_flag, set_word, get_next_lvl_pte, is_a_next_lvl_ptr, walk_leaf, walk_from, levels,
  vpage_unmmap,
}
use rv_mini_os.Vpages.Tree.{
  Place, IsTree, prefix, entry_at, leaf_entry, prefix-vpn, prefix_top, vpn_lt,
}
use rv_mini_os.Vpages.NewTable.{link-IsPages}
use rv_mini_os.Vpages.Reach.{none-ne-some, walk_end}
use rv_mini_os.Vpages.Write.{Written, write-IsTree, write-entries}

-- the memory after one reference to page `p` has been given back
abbrev put_after : ℕ → Pages → Pages
put_after p m =
    let m1 = record m { page_rc = update m.page_rc p (m.page_rc p - 1) } in
    if m.page_rc p - 1 == 0 then push_free p m1 else m1

put_after-eq : (m m' : Pages) (p : ℕ) → page_put p m ≡ some m' → m' ≡ put_after p m
unfolding page_put page_get_ref_count
put_after-eq m m' p e = elim (Bool-cases (m.page_rc p == 0)) [
  | inl unheld ↦ absurd (none-ne-page (rw unheld at e))
  | inr held ↦ page-inj (sym (rw held at e))
]
  where
    none-ne-page : {x : Pages} → none ≢ some x
    none-ne-page c = cc

    page-inj : {x y : Pages} → some x ≡ some y → x ≡ y
    page-inj c = cc

put_after-others :
    (m : Pages) (p : ℕ)
    → ((s j : ℕ) → (put_after p m).content s j ≡ m.content s j)
      × ((s : ℕ)
          → s ≢ p
          → (has s (put_after p m).free_pages ≡ has s m.free_pages)
            × ((put_after p m).page_rc s ≡ m.page_rc s))
unfolding push_free
put_after-others m p = elim (Bool-cases (m.page_rc p - 1 == 0)) [
  | inl last ↦ rw last (λ s j. refl, λ s ne. (ground (arith, ne), ground (arith, ne)))
  | inr more ↦ rw more (λ s j. refl, λ s ne. (refl, ground (arith, ne)))
]

-- `page_put` changes no word, and of the other pages neither the count nor whether it is free.
pub page_put-others :
    (m m' : Pages) (p : ℕ)
    → page_put p m ≡ some m'
    → ((s j : ℕ) → m'.content s j ≡ m.content s j)
      × ((s : ℕ)
          → s ≢ p
          → (has s m'.free_pages ≡ has s m.free_pages) × (m'.page_rc s ≡ m.page_rc s))
page_put-others m m' p e =
    let same = put_after-eq m m' p e in
    let (c, f) = put_after-others m p in
    (
      λ s j. ap (λ x. x.content s j) same ∙ c s j,
      λ s ne.
          (ap (λ x. has s x.free_pages) same ∙ (f s ne).0, ap (λ x. x.page_rc s) same ∙ (f s ne).1),
    )

module _ (root va : ℕ) (m : Pages) where
  pub walk-cases :
      (leaf_entry root va m ≡ none × walk_leaf root va m ≡ none)
      ⊎ ((t : ℕ) × (i : ℕ) × (walk_leaf root va m ≡ some (t, i))
          × (leaf_entry root va m ≡ some (m.content t i)))
  unfolding walk_leaf
  walk-cases = at (walk_from levels root va m) refl
    where
      at :
          (o : Option (ℕ × ℕ))
          → walk_from levels root va m ≡ o
          → (leaf_entry root va m ≡ none × walk_from levels root va m ≡ none)
            ⊎ ((t : ℕ) × (i : ℕ) × (walk_from levels root va m ≡ some (t, i))
                × (leaf_entry root va m ≡ some (m.content t i)))
      at none e = inl (ap (entry_at m) e, e)
      at (some (t, i)) e = inr (t, i, e, ap (entry_at m) e)

  pub walk_leaf-from : walk_leaf root va m ≡ walk_from levels root va m
  unfolding walk_leaf
  walk_leaf-from = refl

  unmmap-none : walk_leaf root va m ≡ none → vpage_unmmap root va m ≡ some (err einval, m)
  unfolding vpage_unmmap
  unmmap-none e = rw (vpage_unmmap, e)

  unmmap-some :
      (t i : ℕ) (m1 : Pages)
      → walk_leaf root va m ≡ some (t, i)
      → page_put (get_next_lvl_pte (m.content t i)) m ≡ some m1
      → vpage_unmmap root va m ≡ some (ok 0, set_word t i 0 m1)
  unfolding vpage_unmmap
  unmmap-some t i m1 e f = rw (vpage_unmmap, e, f)

-- What `vpage_unmmap` does to an address that was mapped by the entry that is given.
pub record Unmapped (place : Place) (root va pte : ℕ) (m : Pages) : Type 0 where
  pub after : Pages
  pub result : vpage_unmmap root va m ≡ some (ok 0, after)
  pub tree : IsTree place root after
  pub pages : IsPages after
  pub entries :
      (va' : ℕ)
      → va' < 2 ^ 39
      → leaf_entry root va' after
        ≡ (if va' / 4096 == va / 4096 then none else leaf_entry root va' m)
  pub count : after.page_rc (get_next_lvl_pte pte) + 1 ≡ m.page_rc (get_next_lvl_pte pte)
  pub freed : has (get_next_lvl_pte pte) after.free_pages ≡ (m.page_rc (get_next_lvl_pte pte) == 1)

-- An address that is mapped by an entry is unmapped in a tree of tables if the entry's page is held
-- and is no table: `vpage_unmmap` does not panic and gives 0, the address's page is then mapped to
-- nothing and all other addresses to what they were mapped to before, and the page has one
-- reference less and is free if and only if it was the last one.
pub vpage_unmmap-Unmapped :
    (place : Place) (root va pte : ℕ) (m : Pages)
    → IsTree place root m
    → IsPages m
    → va < 2 ^ 39
    → leaf_entry root va m ≡ some pte
    → m.page_rc (get_next_lvl_pte pte) ≢ 0
    → place (get_next_lvl_pte pte) ≡ none
    → Unmapped place root va pte m
vpage_unmmap-Unmapped place root va pte m tree w small mapped held no_table =
    elim (walk-cases root va m) [
      | inl (no_leaf, _) ↦ absurd (none-ne-entry (sym no_leaf ∙ mapped))
      | inr (t, i, walk, leaf) ↦ unmapped t i walk (entry-inj (sym leaf ∙ mapped))
    ]
  where
    zero-invalid : has_flag 0 pte_v ≢ true
    zero-invalid f = ground arith

    none-ne-entry : none ≢ some pte
    none-ne-entry c = cc

    entry-inj : {x : ℕ} → some x ≡ some pte → x ≡ pte
    entry-inj c = cc

    unmapped :
        (t i : ℕ)
        → walk_leaf root va m ≡ some (t, i)
        → m.content t i ≡ pte
        → Unmapped place root va pte m
    unmapped t i walk here =
        let page = get_next_lvl_pte pte in
        let (m1, e, w1, rc, free) = page_put-IsPages m page w held in
        let (words, others) = page_put-others m m1 page e in
        let (at, at_i, _) =
          walk_end place root m tree 2 root va t i
            (tree.at_root ∙ ap (λ x. some (2, x)) (sym (prefix_top va small)))
            (sym (walk_leaf-from root va m) ∙ walk) in
        let m' = set_word t i 0 m1 in
        let wr : Written m m' t i 0 = record {
          entry = ground (arith, ==_refl t, ==_refl i);
          others = λ s j h. ground (arith, words s j);
        } in
        let below : i < 512 = rw at_i (vpn_lt va 0) in
        let no_leaf : has_flag 0 pte_v ≡ true → is_a_next_lvl_ptr 0 ≡ false =
          λ f. absurd (zero-invalid f) in
        let tree' : IsTree place root m' =
          write-IsTree place root m m' t i 0 (prefix va 1) tree at below no_leaf wr (λ s l q ps.
            (others s (λ c. none-ne-some (sym no_table ∙ sym (ap place c) ∙ ps))).0
            ∙ tree.in_use s l q ps) in
        record {
          after = m';
          result =
              unmmap-some root va m t i m1 walk
                (ap (λ x. page_put (get_next_lvl_pte x) m) here ∙ e);
          tree = tree';
          pages = link-IsPages m1 t i 0 w1;
          entries = λ va' h.
              (write-entries place root m m' t i 0 (prefix va 1) tree at below no_leaf wr va' tree'
                  h
                ∙ rw (at_i, prefix-vpn va 0 (omega arith)));
          count = rc;
          freed = free;
        }
