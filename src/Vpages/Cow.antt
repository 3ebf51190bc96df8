-- ===== src/Vpages/Cow.antt =====
-- What a write fault does to a page that is shared.
use rv_mini_os.Prelude.{
  ℕ, ◌+◌, ◌*◌, ◌/◌, ◌%◌, ◌^◌, ◌≤◌, ◌<◌, ◌≡◌, ◌≢◌, refl, sym, ◌∙◌, ap, true, false, ◌&&◌, Option,
  none, some, List, ◌∷◌, arith, ◌==◌, ==_iff, ==_refl, if◌then◌else◌, has, length, ltb, Bool-cases,
  inl, inr,
}
use rv_mini_os.Err.{ok}
use rv_mini_os.Pages.{Pages, page_alloc, page_put, page_get_ref_count}
use rv_mini_os.Pages.Counts.{IsPages, page_put-IsPages}
use rv_mini_os.Vpages.{
  Call, pte_v, pte_w, pte_cow, has_flag, set_flag, clear_flag, set_word, page_copy, get_va_vpn,
  get_next_lvl_pte, get_flags, is_a_next_lvl_ptr, walk_leaf, copy_on_write, vpage_handle_cow,
}
use rv_mini_os.Vpages.Tree.{Place, IsTree, prefix, leaf_entry, prefix-vpn, prefix_top, vpn_lt}
use rv_mini_os.Vpages.NewTable.{taken, page_alloc-taken, taken-IsPages, link-IsPages}
use rv_mini_os.Vpages.Alloc.{free-place, free-cases}
use rv_mini_os.Vpages.OffTree.{untouched-IsTree, untouched-entries}
use rv_mini_os.Vpages.Map.{word-Written}
use rv_mini_os.Vpages.Unmap.{page_put-others, walk-cases, walk_leaf-from}
use rv_mini_os.Vpages.Reach.{none-ne-some, walk_end}
use rv_mini_os.Vpages.Write.{Written, write-IsTree, write-entries}

-- the flags of a page that is no more shared
abbrev pub own_flags : ℕ → ℕ
own_flags pte = set_flag (clear_flag pte pte_cow) pte_w

own-low : (pte : ℕ) → own_flags pte ≡ pte / 1024 * 1024 + own_flags (pte % 1024)
own-low pte = ground arith

own-valid :
    (page pte : ℕ)
    → has_flag pte pte_v ≡ true
    → has_flag (page * 1024 + own_flags (pte % 1024)) pte_v ≡ true
own-valid page pte f = ground arith

own-writable : (page pte : ℕ) → has_flag (page * 1024 + own_flags (pte % 1024)) pte_w ≡ true
own-writable page pte = ground arith

module _ (t i pte : ℕ) (m : Pages) (here : m.content t i ≡ pte) where
  cow-alone :
      page_get_ref_count (get_next_lvl_pte pte) m == 1 ≡ true
      → copy_on_write t i m ≡ some (ok 0, set_word t i (own_flags pte) m)
  unfolding copy_on_write
  cow-alone e = rw (copy_on_write, here, e)

  abbrev after_copy : (n x : ℕ) (m1 : Pages) → Option Pages
  after_copy n x m1 =
      let m2 = page_copy n (get_next_lvl_pte x) m1 in
      page_put (get_next_lvl_pte x)
        (set_word t i (n * 1024 + own_flags (get_flags (m2.content t i))) m2)

  cow-copy :
      (n : ℕ) (m1 m3 : Pages)
      → page_get_ref_count (get_next_lvl_pte pte) m == 1 ≡ false
      → page_alloc m ≡ (some n, m1)
      → after_copy n pte m1 ≡ some m3
      → copy_on_write t i m ≡ some (ok 0, m3)
  unfolding copy_on_write
  cow-copy n m1 m3 e f g = rw (
    copy_on_write,
    ap (λ x. page_get_ref_count (get_next_lvl_pte x) m == 1) here ∙ e,
    ap (λ x. x.0) f,
    ap (λ x. x.1) f,
    ap (λ x. after_copy n x m1) here ∙ g,
  )

-- What a write fault does to an address that was mapped by the entry that is given.
pub record Owned (place : Place) (root va pte : ℕ) (m : Pages) (r : Call) : Type 0 where
  pub after : Pages
  pub own : ℕ
  pub result : r ≡ some (ok 0, after)
  pub tree : IsTree place root after
  pub pages : IsPages after
  pub entries :
      (va' : ℕ)
      → va' < 2 ^ 39
      → leaf_entry root va' after ≡ (
          if va' / 4096 == va / 4096
          then some (own * 1024 + own_flags (pte % 1024))
          else leaf_entry root va' m)
  pub count : after.page_rc own ≡ 1
  pub copied : (j : ℕ) → after.content own j ≡ m.content (get_next_lvl_pte pte) j
  pub user_data :
      (s : ℕ)
      → has s m.free_pages ≡ false
      → place s ≡ none
      → (has s after.free_pages ≡ false) × ((j : ℕ) → after.content s j ≡ m.content s j)

module _ (place : Place) (root va t pte : ℕ) (m : Pages) (tree : IsTree place root m)
    (w : IsPages m) (at : place t ≡ some (0, prefix va 1))
    (here : m.content t (get_va_vpn va 0) ≡ pte) (valid : has_flag pte pte_v ≡ true)
    (no_table : place (get_next_lvl_pte pte) ≡ none) where
  -- the new entry is a leaf
  own-leaf :
      (own : ℕ)
      → has_flag (own * 1024 + own_flags (pte % 1024)) pte_v ≡ true
      → is_a_next_lvl_ptr (own * 1024 + own_flags (pte % 1024)) ≡ false
  unfolding is_a_next_lvl_ptr
  own-leaf own f = ground (arith, own-writable own pte)

  own-entries :
      (own : ℕ) (m2 m' : Pages)
      → IsTree place root m2
      → ((va' : ℕ) → va' < 2 ^ 39 → leaf_entry root va' m2 ≡ leaf_entry root va' m)
      → Written m2 m' t (get_va_vpn va 0) (own * 1024 + own_flags (pte % 1024))
      → ((s l q : ℕ) → place s ≡ some (l, q) → has s m'.free_pages ≡ false)
      → IsTree place root m'
        × ((va' : ℕ)
            → va' < 2 ^ 39
            → leaf_entry root va' m' ≡ (
                if va' / 4096 == va / 4096
                then some (own * 1024 + own_flags (pte % 1024))
                else leaf_entry root va' m))
  own-entries own m2 m' tree2 same wr used =
      let i = get_va_vpn va 0 in
      let v = own * 1024 + own_flags (pte % 1024) in
      let below = vpn_lt va 0 in
      let tree' : IsTree place root m' =
        write-IsTree place root m2 m' t i v (prefix va 1) tree2 at below (own-leaf own) wr used in
      (
        tree',
        λ va' h.
            (write-entries place root m2 m' t i v (prefix va 1) tree2 at below (own-leaf own) wr va'
                tree' h
              ∙ rw (prefix-vpn va 0 (omega arith), own-valid own pte valid, same va' h)),
      )

  -- The only holder keeps the page.
  alone :
      m.page_rc (get_next_lvl_pte pte) ≡ 1
      → Owned place root va pte m (copy_on_write t (get_va_vpn va 0) m)
  unfolding page_get_ref_count get_next_lvl_pte
  alone rc =
      let i = get_va_vpn va 0 in
      let m' = set_word t i (own_flags pte) m in
      let last : (m.page_rc (pte / 1024) == 1) ≡ true = ground (arith, rc) in
      let w0 = word-Written m t i (own_flags pte) in
      let wr : Written m m' t i (pte / 1024 * 1024 + own_flags (pte % 1024)) = record {
        entry = w0.entry ∙ own-low pte;
        others = w0.others;
      } in
      let (tree', entries) = own-entries (pte / 1024) m m' tree (λ va' h. refl) wr tree.in_use in
      let off : pte / 1024 ≢ t = λ c. none-ne-some (sym no_table ∙ ap place c ∙ at) in
      record {
        after = m';
        own = pte / 1024;
        result = cow-alone t i pte m here last;
        tree = tree';
        pages = link-IsPages m t i (own_flags pte) w;
        entries = entries;
        count = rc;
        copied = λ j. ground (arith, off);
        user_data = λ s h q.
            (let ne : s ≢ t = λ c. none-ne-some (sym q ∙ ap place c ∙ at) in
              (h, λ j. ground (arith, ne)));
      }

  not_free :
      (n : ℕ) (rest : List ℕ)
      → m.free_pages ≡ n ∷ rest
      → (s : ℕ) → has s m.free_pages ≡ false
      → (s ≢ n) × (has s rest ≡ false)
  not_free n rest free s h =
      let h' : has s (n ∷ rest) ≡ false = rw free at h in
      (ground (arith, h', ==_refl n), ground (arith, h'))

  -- A page that is filled before it is mapped changes no table.
  copied_page-IsTree :
      (n : ℕ) (rest : List ℕ) (page : ℕ)
      → m.free_pages ≡ n ∷ rest
      → (let m2 = page_copy n page (taken m n rest) in
          IsTree place root m2
          × ((va' : ℕ) → va' < 2 ^ 39 → leaf_entry root va' m2 ≡ leaf_entry root va' m))
  copied_page-IsTree n rest page free =
      let m2 = page_copy n page (taken m n rest) in
      let fresh = free-place place root m n rest tree free in
      let same : (s j : ℕ) (x : ℕ × ℕ) → place s ≡ some x → m2.content s j ≡ m.content s j =
        λ s j x ps.
          (let ne : s ≢ n = λ c. none-ne-some (sym fresh ∙ sym (ap place c) ∙ ps) in
            ground (arith, ne)) in
      (
        untouched-IsTree place root m m2 tree same
            (λ s l q ps. (not_free n rest free s (tree.in_use s l q ps)).1),
        untouched-entries place root m m2 tree same,
      )

  -- One of several holders gets a copy.
  copy :
      (n : ℕ) (rest : List ℕ)
      → m.free_pages ≡ n ∷ rest
      → 1 < m.page_rc (get_next_lvl_pte pte)
      → Owned place root va pte m (copy_on_write t (get_va_vpn va 0) m)
  unfolding page_get_ref_count get_flags
  copy n rest free shared =
      let i = get_va_vpn va 0 in
      let page = get_next_lvl_pte pte in
      let m1 = taken m n rest in
      let m2 = page_copy n page m1 in
      let fresh = free-place place root m n rest tree free in
      let first : (has n (n ∷ rest) && ltb 0 (m.page_rc n)) ≡ false = rw free at w.unheld n in
      let zero_rc : m.page_rc n ≡ 0 = ground (arith, first, ==_refl n) in
      let nt : t ≢ n = λ c. none-ne-some (sym fresh ∙ sym (ap place c) ∙ at) in
      let np : page ≢ n = λ c. absurd (omega (arith, ap m.page_rc c)) in
      let word : m2.content t i ≡ pte = ground (arith, nt, here) in
      let m2' = set_word t i (n * 1024 + own_flags (m2.content t i % 1024)) m2 in
      let w1 = taken-IsPages m n rest free w in
      let w2 : IsPages m2' = record { once = w1.once; unheld = w1.unheld } in
      let prc : m2'.page_rc page ≡ m.page_rc page = ground (arith, np) in
      let (m', e, w', rc, freed) = page_put-IsPages m2' page w2 (λ c. absurd (omega arith)) in
      let (words, others) = page_put-others m2' m' page e in
      let (tree2, same) = copied_page-IsTree n rest page free in
      let wr : Written m2 m' t i (n * 1024 + own_flags (pte % 1024)) = record {
        entry = words t i ∙ ground (arith, ==_refl t, ==_refl i, word);
        others = λ s j h. (words s j ∙ ground arith);
      } in
      let more : (m.page_rc page == 1) ≡ false = ground (arith, shared) in
      let (tree', entries) = own-entries n m2 m' tree2 same wr (λ s l q ps.
        ((others s (λ c. none-ne-some (sym no_table ∙ sym (ap place c) ∙ ps))).0
          ∙ (not_free n rest free s (tree.in_use s l q ps)).1)) in
      record {
        after = m';
        own = n;
        result = cow-copy t i pte m here n m1 m' more (page_alloc-taken m n rest free) e;
        tree = tree';
        pages = w';
        entries = entries;
        count = (others n (λ c. np (sym c))).1 ∙ ground (arith, zero_rc, ==_refl n);
        copied = λ j. (words n j ∙ ground (arith, nt, np, ==_refl n));
        user_data = λ s h q.
            (let ne : s ≢ t = λ c. none-ne-some (sym q ∙ ap place c ∙ at) in
              (
                (elim (Bool-cases (s == page)) [
                  | inl same_page ↦
                      ap (λ x. has x m'.free_pages) ((==_iff s page).0 same_page)
                      ∙ freed
                      ∙ ground (arith, prc)
                  | inr other ↦ (others s (ground arith)).0 ∙ (not_free n rest free s h).1
                ]),
                λ j. (words s j ∙ ground (arith, ne, (not_free n rest free s h).0)),
              ));
      }

handle-cow :
    (root va t i : ℕ) (m : Pages)
    → walk_leaf root va m ≡ some (t, i)
    → has_flag (m.content t i) pte_cow ≡ true
    → vpage_handle_cow root va m ≡ copy_on_write t i m
unfolding vpage_handle_cow
handle-cow root va t i m e f = rw (vpage_handle_cow, e, f)

owned :
    (place : Place) (root va pte : ℕ) (m : Pages) {r r' : Call}
    → r ≡ r'
    → Owned place root va pte m r'
    → Owned place root va pte m r
owned place root va pte m e o = record {
  after = o.after;
  own = o.own;
  result = e ∙ o.result;
  tree = o.tree;
  pages = o.pages;
  entries = o.entries;
  count = o.count;
  copied = o.copied;
  user_data = o.user_data;
}

-- A write fault at an address whose entry is copy-on-write, in a tree of tables: if the entry's page
-- is held and is no table, and a page is free unless the page is held once, then `vpage_handle_cow`
-- does not panic and gives 0. The address's page is then mapped, for writing and no more
-- copy-on-write, to a page that is held once and has the words that the shared page had; all other
-- addresses are mapped as before, and no page that was in use and is no table has changed, the
-- shared one included.
pub vpage_handle_cow-Owned :
    (place : Place) (root va pte : ℕ) (m : Pages)
    → IsTree place root m
    → IsPages m
    → va < 2 ^ 39
    → leaf_entry root va m ≡ some pte
    → has_flag pte pte_cow ≡ true
    → m.page_rc (get_next_lvl_pte pte) ≢ 0
    → place (get_next_lvl_pte pte) ≡ none
    → (m.page_rc (get_next_lvl_pte pte) ≢ 1 → 1 ≤ length m.free_pages)
    → Owned place root va pte m (vpage_handle_cow root va m)
vpage_handle_cow-Owned place root va pte m tree w small mapped cow held no_table enough =
    elim (walk-cases root va m) [
      | inl (no_leaf, _) ↦ absurd (none-ne-entry (sym no_leaf ∙ mapped))
      | inr (t, i, walk, leaf) ↦
          let entry = entry-inj (sym leaf ∙ mapped) in
          let (at, at_i, valid) =
            walk_end place root m tree 2 root va t i
              (tree.at_root ∙ ap (λ x. some (2, x)) (sym (prefix_top va small)))
              (sym (walk_leaf-from root va m) ∙ walk) in
          let here = ap (m.content t) (sym at_i) ∙ entry in
          let flag = ap (λ x. has_flag x pte_v) (sym entry) ∙ valid in
          let run = handle-cow root va t i m walk (ap (λ x. has_flag x pte_cow) entry ∙ cow) in
          owned place root va pte m (run ∙ ap (λ x. copy_on_write t x m) at_i)
            (elim (Bool-cases (m.page_rc (get_next_lvl_pte pte) == 1)) [
              | inl one ↦ alone place root va t pte m tree w at here flag no_table (ground arith)
              | inr more ↦
                  let (n, rest, free) = free-cases m.free_pages (enough (ground arith)) in
                  copy place root va t pte m tree w at here flag no_table n rest free (ground arith)
            ])
    ]
  where
    none-ne-entry : none ≢ some pte
    none-ne-entry c = cc

    entry-inj : {x : ℕ} → some x ≡ some pte → x ≡ pte
    entry-inj c = cc
