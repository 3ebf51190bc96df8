-- ===== src/Pages/Tests.antt =====
-- The page allocator with two free pages and one that is held twice.
use rv_mini_os.Prelude.{◌+◌, ◌≡◌, refl, false, some, [], ◌∷◌, arith, ◌==◌, if◌then◌else◌, has}
use rv_mini_os.Pages.{Pages, page_alloc, page_put}
use rv_mini_os.Pages.Counts.{IsPages, Allocated, page_alloc-IsPages, page_put-IsPages}

abbrev two_free : Pages
two_free = record {
  free_pages = 4 ∷ 5 ∷ [];
  page_rc = λ p. if p == 6 then 2 else 0;
  content = λ p i. 7;
}

two_free-IsPages : IsPages two_free
two_free-IsPages = record { once = (refl, (refl, tt)); unheld = λ p. ground arith }

page_alloc-IsPages_example :
    IsPages (page_alloc two_free).1 × Allocated two_free (page_alloc two_free)
page_alloc-IsPages_example = page_alloc-IsPages two_free two_free-IsPages

page_put-IsPages_example :
    (m' : Pages) × (page_put 6 two_free ≡ some m')
    × IsPages m'
    × (m'.page_rc 6 + 1 ≡ 2)
    × (has 6 m'.free_pages ≡ false)
page_put-IsPages_example = page_put-IsPages two_free 6 two_free-IsPages (omega arith)
