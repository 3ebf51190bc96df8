-- ===== src/Vpages/Dangling.antt =====
-- What `vpage_map` leaves behind when there is no page for a table.
use rv_mini_os.Prelude.{
  ℕ, suc, ◌+◌, ◌-◌, ◌*◌, ◌≡◌, ◌≢◌, refl, ◌∙◌, ap, true, false, ◌&&◌, some, List, [], ◌∷◌, arith,
  ◌==◌, ==_refl, update, has, ltb,
}
use rv_mini_os.Err.{err, enomem}
use rv_mini_os.Pages.{Pages, page_alloc, page_put, push_free, page_get_ref_count}
use rv_mini_os.Pages.Counts.{IsPages}
use rv_mini_os.Vpages.{
  pte_v, has_flag, set_word, get_va_vpn, walk_alloc, release_tables, finish_map, vpage_map,
}
use rv_mini_os.Vpages.Grow.{link_next}
use rv_mini_os.Vpages.NewTable.{taken, page_alloc-taken}
use rv_mini_os.Vpages.Alloc.{alloc-grow}

alloc-fails :
    (lvl table va : ℕ) (allocated : List ℕ) (rc : ℕ → ℕ) (content : ℕ → ℕ → ℕ)
    → let m : Pages = record { free_pages = []; page_rc = rc; content = content } in
      has_flag (content table (get_va_vpn va (suc lvl))) pte_v ≡ false
      → walk_alloc (suc lvl) table va allocated m ≡ (err enomem, (allocated, m))
unfolding walk_alloc page_alloc
alloc-fails lvl table va allocated rc content f = rw f

put-last :
    (m : Pages) (n : ℕ)
    → m.page_rc n ≡ 1
    → page_put n m
      ≡ some (push_free n (record m { page_rc = update m.page_rc n (m.page_rc n - 1) }))
unfolding page_put page_get_ref_count
put-last m n e =
    let held : (m.page_rc n == 0) ≡ false = ground (arith, e) in
    let last : (m.page_rc n - 1 == 0) ≡ true = ground (arith, e) in rw (held, last)

-- the only table is given back
release-one : (m m' : Pages) (n : ℕ) → page_put n m ≡ some m' → release_tables (n ∷ []) m ≡ some m'
unfolding release_tables
release-one m m' n e = rw (release_tables, e)

-- With one free page only, and no table below the root for the address, `vpage_map` fails with
-- `ENOMEM`, and it gives the page back that it took for a table: the page is free again, but the
-- root's entry still names it as a valid table.
pub vpage_map-dangling :
    (root va page flags n : ℕ) (m : Pages)
    → m.free_pages ≡ n ∷ []
    → IsPages m
    → root ≢ n
    → has_flag (m.content root (get_va_vpn va 2)) pte_v ≡ false
    → (m' : Pages) × (vpage_map root va page flags m ≡ some (err enomem, m'))
      × (m'.free_pages ≡ n ∷ [])
      × (m'.content root (get_va_vpn va 2) ≡ n * 1024 + pte_v)
unfolding vpage_map push_free
vpage_map-dangling root va page flags n m free w ne f =
    let i = get_va_vpn va 2 in
    let m1 = set_word root i (n * 1024 + pte_v) (taken m n []) in
    let first : (has n (n ∷ []) && ltb 0 (m.page_rc n)) ≡ false = rw free at w.unheld n in
    let one : m1.page_rc n ≡ 1 = ground (arith, first, ==_refl n) in
    let empty : has_flag (m1.content n (get_va_vpn va 1)) pte_v ≡ false =
      ground (arith, ne, ==_refl n) in
    let walk : walk_alloc 2 root va [] m ≡ (err enomem, (n ∷ [], m1)) =
      alloc-grow 1 root va [] m n (taken m n []) f (page_alloc-taken m n [] free)
      ∙ ap (λ x. walk_alloc 1 x va (n ∷ []) m1) (link_next n)
      ∙ alloc-fails 0 n va (n ∷ []) m1.page_rc m1.content empty in
    let m' = push_free n (record m1 { page_rc = update m1.page_rc n (m1.page_rc n - 1) }) in
    (
      m',
      ap (finish_map va page flags) walk
          ∙ (rw (finish_map, release-one m1 m' n (put-last m1 n one))),
      refl,
      ground (arith, ==_refl root, ==_refl i),
    )
