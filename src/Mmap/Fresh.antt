-- ===== src/Mmap/Fresh.antt =====
-- What a new address space maps.
use rv_mini_os.Prelude.{
  ℕ, suc, ◌+◌, ◌/◌, ◌^◌, ◌≤◌, ◌<◌, ◌≡◌, refl, sym, ◌∙◌, ap, true, false, none, some, ◌∷◌, arith,
  ◌==◌, ==_iff, ==_refl, if◌then◌else◌, length, has, Bool-cases, inl, inr,
}
use rv_mini_os.Err.{ok}
use rv_mini_os.Pages.{Pages, page_alloc}
use rv_mini_os.Pages.Counts.{IsPages}
use rv_mini_os.Vpages.{
  pte_v, pte_r, pte_w, has_flag, get_va_vpn, is_a_next_lvl_ptr, new_leaf, vpage_map,
}
use rv_mini_os.Vpages.Copy.{trapframe}
use rv_mini_os.Vpages.Tree.{Place, IsTree, entry_at, leaf_entry, some-inj, walk-invalid}
use rv_mini_os.Vpages.Grow.{zero_flag}
use rv_mini_os.Vpages.Reach.{none-ne-some, true-ne-false}
use rv_mini_os.Vpages.NewTable.{taken, page_alloc-taken, taken-IsPages, free_once}
use rv_mini_os.Vpages.Alloc.{free-cases}
use rv_mini_os.Vpages.Map.{vpage_map-Mapped}
use rv_mini_os.Mmap.{Space, mmap_uspace}

-- the root alone
abbrev pub root_place : ℕ → Place
root_place root = λ t. if t == root then some (2, 0) else none

only_root : (root t l p : ℕ) → root_place root t ≡ some (l, p) → (t ≡ root) × (l ≡ 2) × (p ≡ 0)
only_root root t l p e = elim (Bool-cases (t == root)) [
  | inl same ↦ let eq = some-inj (rw same at e) in ((==_iff t root).0 same, sym eq.0, sym eq.1)
  | inr other ↦ absurd (none-ne-some (rw other at e))
]

module _ (root : ℕ) (m : Pages) (blank : (i : ℕ) → m.content root i ≡ 0)
    (used : has root m.free_pages ≡ false) where
  no_entry :
      (t l p i : ℕ) → root_place root t ≡ some (l, p) → has_flag (m.content t i) pte_v ≡ true → ⊥
  no_entry t l p i e f =
      let (same, _, _) = only_root root t l p e in
      true-ne-false f (zero_flag (m.content t i) (ap (λ x. m.content x i) same ∙ blank i))

  -- An empty root is a tree, and maps nothing.
  root-IsTree : IsTree (root_place root) root m
  root-IsTree = record {
    at_root = rw (==_refl root);
    one_table = λ s t l p e f. ((only_root root s l p e).0 ∙ sym (only_root root t l p f).0);
    low = λ t l p e. (let (_, l2, _) = only_root root t l p e in omega arith);
    down = λ t l p i e h f. absurd (no_entry t (suc l) p i e f);
    linked = λ t l q e h. (let (_, l2, _) = only_root root t l q e in absurd (omega arith));
    leaves = λ t p i e h f. absurd (no_entry t 0 p i e f);
    in_use = λ t l p e. (ap (λ x. has x m.free_pages) (only_root root t l p e).0 ∙ used);
  }

  root-entries : (va : ℕ) → leaf_entry root va m ≡ none
  root-entries va = ap (entry_at m) (
      walk-invalid root va m 2
        (zero_flag (m.content root (get_va_vpn va 2)) (blank (get_va_vpn va 2))))

-- The space and the memory after `mmap_uspace`.
pub record Fresh (p : Space) (m : Pages) : Type 0 where
  pub space : Space
  pub after : Pages
  pub place : Place
  pub result : mmap_uspace true p m ≡ some (ok 0, (space, after))
  pub tframe_va : space.tframe_va ≡ trapframe
  pub tree : IsTree place space.root_ptable after
  pub pages : IsPages after
  pub entries :
      (va : ℕ)
      → va < 2 ^ 39
      → leaf_entry space.root_ptable va after ≡ (
          if va / 4096 == trapframe / 4096
          then some (new_leaf space.tframe_pa (pte_r + pte_w))
          else none)

uspace-run :
    (p : Space) (m m1 m2 m3 : Pages) (root frame : ℕ)
    → page_alloc m ≡ (some root, m1)
    → page_alloc m1 ≡ (some frame, m2)
    → vpage_map root trapframe frame (pte_r + pte_w) m2 ≡ some (ok 0, m3)
    → mmap_uspace true p m
      ≡ some (ok 0, (record { root_ptable = root; tframe_pa = frame; tframe_va = trapframe }, m3))
unfolding mmap_uspace
uspace-run p m m1 m2 m3 root frame e f g =
    let f' = ap (λ x. page_alloc x.1) e ∙ f in
    rw (mmap_uspace, ap (λ x. x.0) e, ap (λ x. x.0) f', ap (λ x. x.1) f', g)

readable : is_a_next_lvl_ptr (pte_r + pte_w) ≡ false
unfolding is_a_next_lvl_ptr
readable = refl

-- For a user task and with four pages free at least, `mmap_uspace` does not panic and gives 0. The
-- new tables are a tree that maps the address of the trap frame to the page of the trap frame, for
-- reading and writing by the kernel, and no other address.
pub mmap_uspace-Fresh : (p : Space) (m : Pages) → IsPages m → 4 ≤ length m.free_pages → Fresh p m
mmap_uspace-Fresh p m w enough =
    let (n, rest1, e1) = free-cases m.free_pages (omega arith) in
    let (n2, rest2, e2) = free-cases rest1 (omega (arith, ap length e1)) in
    let m1 = taken m n rest1 in
    let m2 = taken m1 n2 rest2 in
    let w1 = taken-IsPages m n rest1 e1 w in
    let w2 = taken-IsPages m1 n2 rest2 e2 w1 in
    let once : has n (n2 ∷ rest2) ≡ false = ap (has n) (sym e2) ∙ (free_once m n rest1 e1 w).0 in
    let used : has n rest2 ≡ false = ground (arith, once) in
    let blank : (i : ℕ) → m2.content n i ≡ 0 = λ i. ground (arith, ==_refl n, once) in
    let k =
      vpage_map-Mapped (root_place n) n trapframe n2 (pte_r + pte_w) m2
        (root-IsTree n m2 blank used) w2 (omega arith) readable
        (omega (arith, ap length e1, ap length e2)) in
    record {
      space = record { root_ptable = n; tframe_pa = n2; tframe_va = trapframe };
      after = k.after;
      place = k.place';
      result =
          uspace-run p m m1 m2 k.after n n2 (page_alloc-taken m n rest1 e1)
            (page_alloc-taken m1 n2 rest2 e2) k.result;
      tframe_va = refl;
      tree = k.tree;
      pages = k.pages;
      entries = λ va h. (k.entries va h ∙ rw (root-entries n m2 blank used va));
    }
