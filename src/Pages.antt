-- ===== src/Pages.antt =====
-- The page allocator, src/kernel/core/memory/pages.c. A page is named by its physical number
-- (`page_get_num`), which is its `page_idx` plus that of the first page of the RAM; the free list is
-- the list of the free pages (Clist). A page holds 512 words of 64 bits. NULL is `none`, and so is a
-- panic. A masked section is one step. The node that the list keeps in a free page, which
-- `page_alloc` overwrites, and the check of the constant RAM_SIZE are left out.
pub mod Counts
mod Tests
use rv_mini_os.Prelude.{
  ℕ, zero, suc, ◌+◌, ◌-◌, ◌%◌, ◌^◌, Option, none, some, List, [], ◌∷◌, ◌==◌, if◌then◌else◌, update,
}

pub record Pages : Type 0 where
  pub free_pages : List ℕ
  pub page_rc : ℕ → ℕ
  pub content : ℕ → ℕ → ℕ

unfoldable pub push_free : ℕ → Pages → Pages
push_free page m = record m { free_pages = page ∷ m.free_pages }

unfoldable pub page_get_ref_count : ℕ → Pages → ℕ
page_get_ref_count page m = m.page_rc page

-- A count is a byte.
unfoldable pub page_get : ℕ → Pages → Pages
page_get page m = record m { page_rc = update m.page_rc page ((m.page_rc page + 1) % 2 ^ 8) }

-- the loop of `page_init` over `n` pages from `p` on
unfoldable pub push_all : (n p : ℕ) → Pages → Pages
push_all zero p m = m
push_all (suc n) p m = push_all n (p + 1) (push_free p m)

-- `page_init` for the `n` pages from `page_start` on
unfoldable pub page_init : (n page_start : ℕ) → Pages → Pages
page_init n page_start m = push_all n page_start (record m { free_pages = [] })

unfoldable pub page_alloc : Pages → Option ℕ × Pages
page_alloc m = elim m.free_pages [
  | [] ↦ (none, m)
  | page ∷ rest ↦
      let m1 = record m { free_pages = rest; content = update m.content page (λ i. 0) } in
      (some page, page_get page m1)
]

unfoldable pub page_put : ℕ → Pages → Option Pages
page_put page m =
    let rc = page_get_ref_count page m in
    let m1 = record m { page_rc = update m.page_rc page (rc - 1) } in
    if rc == 0 then none else some (if rc - 1 == 0 then push_free page m1 else m1)
