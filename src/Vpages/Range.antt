-- ===== src/Vpages/Range.antt =====
-- What `vpage_map_range` maps.
use rv_mini_os.Prelude.{
  ℕ, zero, suc, ◌+◌, ◌-◌, ◌*◌, ◌/◌, ◌^◌, ◌≤◌, ◌<◌, ◌≡◌, refl, sym, ◌∙◌, ap, true, false, ◌&&◌, some,
  arith, ◌==◌, leb, ltb, if◌then◌else◌, length, Bool-cases, inl, inr, Option,
}
use rv_mini_os.Err.{ok}
use rv_mini_os.Pages.{Pages}
use rv_mini_os.Pages.Counts.{IsPages}
use rv_mini_os.Vpages.{is_a_next_lvl_ptr, new_leaf, vpage_map, map_pages, vpage_map_range, Call}
use rv_mini_os.Vpages.Tree.{Place, IsTree, leaf_entry}
use rv_mini_os.Vpages.Map.{vpage_map-Mapped}

-- The entry of page number `v` when the `count` pages from number `q` on are mapped from `page` on.
abbrev pub range_entry : (count q page flags v : ℕ) → Option ℕ → Option ℕ
range_entry count q page flags v old =
    if leb q v && ltb v (q + count) then some (new_leaf (page + (v - q)) flags) else old

-- The whole memory after `count` pages have been mapped.
pub record MappedRange (count root va page flags : ℕ) (m : Pages) (r : Call) : Type 0 where
  pub after : Pages
  pub place' : Place
  pub result : r ≡ some (ok 0, after)
  pub tree : IsTree place' root after
  pub pages : IsPages after
  pub entries :
      (va' : ℕ)
      → va' < 2 ^ 39
      → leaf_entry root va' after
        ≡ range_entry count (va / 4096) page flags (va' / 4096) (leaf_entry root va' m)

range-zero : (q page flags v : ℕ) (old : Option ℕ) → old ≡ range_entry 0 q page flags v old
range-zero q page flags v old =
    let out : (leb q v && ltb v (q + 0)) ≡ false = ground arith in sym (rw out)

-- The first page, and then those behind it.
range-suc :
    (count q page flags v : ℕ) (old : Option ℕ)
    → range_entry count
        (q + 1)
        (page + 1)
        flags
        v
        (if v == q then some (new_leaf page flags) else old)
      ≡ range_entry (suc count) q page flags v old
range-suc count q page flags v old = elim (Bool-cases (v == q)) [
  | inl first ↦
      let behind : (leb (q + 1) v && ltb v (q + 1 + count)) ≡ false = ground arith in
      let inside : (leb q v && ltb v (q + suc count)) ≡ true = ground arith in
      let same : page ≡ page + (v - q) = ground arith in
      rw (behind, first, inside) (ap (λ x. some (new_leaf x flags)) same)
  | inr other ↦ elim (Bool-cases (leb (q + 1) v && ltb v (q + 1 + count))) [
    | inl behind ↦
        let inside : (leb q v && ltb v (q + suc count)) ≡ true = ground arith in
        let same : page + 1 + (v - (q + 1)) ≡ page + (v - q) = ground arith in
        rw (behind, inside) (ap (λ x. some (new_leaf x flags)) same)
    | inr out ↦
        let outside : (leb q v && ltb v (q + suc count)) ≡ false = ground arith in
        rw (out, other, outside)
  ]
]

map-next :
    (count root va page flags : ℕ) (m m1 : Pages) (n : ℕ)
    → vpage_map root va page flags m ≡ some (ok n, m1)
    → map_pages (suc count) root va page flags m
      ≡ map_pages count root (va + 4096) (page + 1) flags m1
unfolding map_pages
map-next count root va page flags m m1 n e = rw (map_pages, e)

map_pages-MappedRange :
    (count root va page flags : ℕ) (place : Place) (m : Pages)
    → IsTree place root m
    → IsPages m
    → va + 4096 * count ≤ 2 ^ 39
    → is_a_next_lvl_ptr flags ≡ false
    → 2 * count ≤ length m.free_pages
    → MappedRange count root va page flags m (map_pages count root va page flags m)
unfolding map_pages
map_pages-MappedRange zero root va page flags place m tree w small access enough = record {
  after = m;
  place' = place;
  result = refl;
  tree = tree;
  pages = w;
  entries = λ va' h. range-zero (va / 4096) page flags (va' / 4096) (leaf_entry root va' m);
}
map_pages-MappedRange (suc count) root va page flags place m tree w small access enough =
    let k = vpage_map-Mapped place root va page flags m tree w (omega arith) access (omega arith) in
    let rest =
      map_pages-MappedRange count root (va + 4096) (page + 1) flags k.place' k.after k.tree k.pages
        (omega arith) access (omega (arith, k.left)) in
    let next : (va + 4096) / 4096 ≡ va / 4096 + 1 = omega arith in
    record {
      after = rest.after;
      place' = rest.place';
      result = map-next count root va page flags m k.after 0 k.result ∙ rest.result;
      tree = rest.tree;
      pages = rest.pages;
      entries = λ va' h.
          (rest.entries va' h
            ∙ ap
                (λ q.
                  range_entry count q (page + 1) flags (va' / 4096) (leaf_entry root va' k.after))
                next
            ∙ ap (range_entry count (va / 4096 + 1) (page + 1) flags (va' / 4096)) (k.entries va' h)
            ∙ range-suc count (va / 4096) page flags (va' / 4096) (leaf_entry root va' m));
    }

-- In a tree of tables, with two pages free for each page to map, `vpage_map_range` of a range of
-- Sv39 addresses, with flags that allow some access, does not panic and gives 0. The tables are a
-- tree again, in which the pages of the range are mapped one by one to the physical pages from the
-- given one on, and all other addresses to what they were mapped to before.
pub vpage_map_range-MappedRange :
    (place : Place) (root va page size flags : ℕ) (m : Pages)
    → IsTree place root m
    → IsPages m
    → va + 4096 * ((size + 4095) / 4096) ≤ 2 ^ 39
    → is_a_next_lvl_ptr flags ≡ false
    → 2 * ((size + 4095) / 4096) ≤ length m.free_pages
    → MappedRange
        ((size + 4095) / 4096)
        root
        va
        page
        flags
        m
        (vpage_map_range root va page size flags m)
unfolding vpage_map_range
vpage_map_range-MappedRange place root va page size flags m tree w small access enough =
    map_pages-MappedRange ((size + 4095) / 4096) root va page flags place m tree w small access
      enough
