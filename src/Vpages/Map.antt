-- ===== src/Vpages/Map.antt =====
-- What `vpage_map` maps.
use Prim.Native.Nat.{bit_or, bit_or-bitwise, digits, max}
use rv_mini_os.Prelude.{
  zero, suc, refl, ℕ, ◌+◌, ◌*◌, ◌/◌, ◌%◌, ◌^◌, ◌≤◌, ◌<◌, ◌≡◌, ◌≢◌, sym, ◌∙◌, ap, true, false, none,
  some, List, [], arith, ◌==◌, ==_refl, if◌then◌else◌, has, length, Bool-cases, inl, inr,
}
use rv_mini_os.Err.{ok}
use rv_mini_os.Pages.{Pages}
use rv_mini_os.Pages.Counts.{IsPages}
use rv_mini_os.Vpages.{
  pte_v, pte_w, pte_a, pte_d, has_flag, set_flag, set_word, get_va_vpn, is_a_next_lvl_ptr,
  walk_alloc, leaf_flags, new_leaf, finish_map, vpage_map,
}
use rv_mini_os.Vpages.Tree.{Place, IsTree, prefix, leaf_entry, prefix-vpn, prefix_top, vpn_lt}
use rv_mini_os.Vpages.NewTable.{link-IsPages}
use rv_mini_os.Vpages.Alloc.{walk_alloc-Walked}
use rv_mini_os.Vpages.Reach.{none-ne-some}
use rv_mini_os.Vpages.Write.{Written, write-IsTree, write-entries}

set_valid : (x : ℕ) → (set_flag x pte_v % 2 ≡ 1) × (set_flag x pte_v / 2 ≡ x / 2)
set_valid x = (ground arith, ground arith)

set_high : (x : ℕ) → (set_flag x pte_a % 16 ≡ x % 16) × (set_flag x pte_d % 16 ≡ x % 16)
set_high x = (ground arith, ground arith)

-- A new leaf is valid, and it has the access flags that are given.
leaf_flags_low : (flags : ℕ) → leaf_flags flags % 16 ≡ set_flag flags pte_v % 16
unfolding leaf_flags
leaf_flags_low flags = elim (Bool-cases (has_flag flags pte_w)) [
  | inl w ↦
      rw w
        ((set_high (set_flag (set_flag flags pte_v) pte_a)).1 ∙ (set_high (set_flag flags pte_v)).0)
  | inr r ↦ rw r ((set_high (set_flag flags pte_v)).0)
]

leaf-valid : (page flags : ℕ) → has_flag (new_leaf page flags) pte_v ≡ true
unfolding new_leaf
leaf-valid page flags = ground (arith, leaf_flags_low flags, set_valid flags)

leaf-ptr :
    (page flags : ℕ)
    → is_a_next_lvl_ptr flags ≡ false
    → is_a_next_lvl_ptr (new_leaf page flags) ≡ false
unfolding is_a_next_lvl_ptr new_leaf
leaf-ptr page flags h =
    let same : (new_leaf page flags) / 2 % 8 ≡ flags / 2 % 8 =
      omega (arith, leaf_flags_low flags, set_valid flags) in
    ground arith

-- The digits of a number, with those of 0.
digits-zero : (n a : ℕ) → a ≤ n → digits (λ b. b) max n a 0 ≡ a
digits-zero zero a h = omega arith
digits-zero (suc n) zero h = refl
digits-zero (suc n) (suc a) h = rw (digits-zero n (suc a / 2) (omega arith)) (omega arith)

or_zero : (a : ℕ) → bit_or a 0 ≡ a
or_zero a = (λ i. bit_or-bitwise a 0 i) ∙ digits-zero a a (omega arith)

set_small :
    (x : ℕ)
    → x < 1024
    → (set_flag x pte_v < 1024) × (set_flag x pte_a < 1024) × (set_flag x pte_d < 1024)
set_small x h = (ground arith, ground arith, ground arith)

leaf_flags-small : (flags : ℕ) → flags < 1024 → leaf_flags flags < 1024
unfolding leaf_flags
leaf_flags-small flags h =
    let v = (set_small flags h).0 in
    let a = (set_small (set_flag flags pte_v) v).1 in
    elim (Bool-cases (has_flag flags pte_w)) [
      | inl w ↦ rw w (set_small (set_flag (set_flag flags pte_v) pte_a) a).2
      | inr r ↦ rw r a
    ]

pub new_leaf-small :
    (page flags : ℕ) → flags < 1024 → new_leaf page flags ≡ page * 1024 + leaf_flags flags
unfolding new_leaf
new_leaf-small page flags h =
    let small = leaf_flags-small flags h in
    let high : leaf_flags flags / 1024 ≡ 0 = omega arith in rw (high, or_zero page) (omega arith)

-- The whole memory after a page has been mapped.
pub record Mapped (place : Place) (root va page flags : ℕ) (m : Pages) : Type 0 where
  pub after : Pages
  pub place' : Place
  pub result : vpage_map root va page flags m ≡ some (ok 0, after)
  pub tree : IsTree place' root after
  pub pages : IsPages after
  pub left : length m.free_pages ≤ length after.free_pages + 2
  pub entries :
      (va' : ℕ)
      → va' < 2 ^ 39
      → leaf_entry root va' after
        ≡ (if va' / 4096 == va / 4096 then some (new_leaf page flags) else leaf_entry root va' m)
  pub names_page : flags < 1024 → new_leaf page flags ≡ page * 1024 + leaf_flags flags
  pub user_data :
      (s : ℕ)
      → has s m.free_pages ≡ false
      → place s ≡ none
      → (place' s ≡ none)
        × (has s after.free_pages ≡ false)
        × (after.page_rc s ≡ m.page_rc s)
        × ((j : ℕ) → after.content s j ≡ m.content s j)

finish :
    (root va page flags : ℕ) (m after : Pages) (table : ℕ) (got : List ℕ)
    → walk_alloc 2 root va [] m ≡ (ok table, (got, after))
    → vpage_map root va page flags m
      ≡ some (ok 0, set_word table (get_va_vpn va 0) (new_leaf page flags) after)
unfolding vpage_map
finish root va page flags m after table got e = ap (finish_map va page flags) e

pub word-Written : (m : Pages) (t i v : ℕ) → Written m (set_word t i v m) t i v
word-Written m t i v = record {
  entry = ground (arith, ==_refl t, ==_refl i);
  others = λ s j h. ground arith;
}

-- In a tree of tables, with two pages free at least, `vpage_map` of a Sv39 address and of flags
-- that allow some access does not panic and gives 0. The tables are a tree again, in which the
-- address's page is mapped to the given page, shifted by 10 bits, or the flags of a new leaf (for
-- flags below 1024, to their sum), and all other addresses to what they were mapped to before, and no page that is in use and is no table has changed.
pub vpage_map-Mapped :
    (place : Place) (root va page flags : ℕ) (m : Pages)
    → IsTree place root m
    → IsPages m
    → va < 2 ^ 39
    → is_a_next_lvl_ptr flags ≡ false
    → 2 ≤ length m.free_pages
    → Mapped place root va page flags m
vpage_map-Mapped place root va page flags m tree w small access enough =
    let top : place root ≡ some (2, prefix va 3) =
      tree.at_root ∙ ap (λ x. some (2, x)) (sym (prefix_top va small)) in
    let k = walk_alloc-Walked root va 2 root [] place m tree w top enough in
    let i = get_va_vpn va 0 in
    let v = new_leaf page flags in
    let m' = set_word k.table i v k.after in
    let valid = leaf-valid page flags in
    let ptr = leaf-ptr page flags access in
    let wr = word-Written k.after k.table i v in
    let tree' : IsTree k.place' root m' =
      write-IsTree k.place' root k.after m' k.table i v (prefix va 1) k.tree k.at (vpn_lt va 0)
        (λ _. ptr) wr k.tree.in_use in
    record {
      after = m';
      place' = k.place';
      result = finish root va page flags m k.after k.table k.got k.result;
      tree = tree';
      pages = link-IsPages k.after k.table i v k.pages;
      left = k.left;
      entries = λ va' h.
          (write-entries k.place' root k.after m' k.table i v (prefix va 1) k.tree k.at
              (vpn_lt va 0) (λ _. ptr) wr va' tree' h
            ∙ rw (prefix-vpn va 0 (omega arith), valid, k.same va' h));
      names_page = new_leaf-small page flags;
      user_data = λ s h f.
          (let (f1, f2, f3, f4) = k.user_data s h f in
            let ne : s ≢ k.table = λ c. none-ne-some (sym f1 ∙ ap k.place' c ∙ k.at) in
            (f1, f2, f3, λ j. ground (arith, ne, f4 j)));
    }
