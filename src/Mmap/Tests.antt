-- ===== src/Mmap/Tests.antt =====
-- An address space that is made of five free pages.
use rv_mini_os.Prelude.{refl, [], ◌∷◌, arith}
use rv_mini_os.Pages.{Pages}
use rv_mini_os.Pages.Counts.{IsPages}
use rv_mini_os.Mmap.{Space}
use rv_mini_os.Mmap.Fresh.{Fresh, mmap_uspace-Fresh}

abbrev five_free : Pages
five_free = record { free_pages = 4 ∷ 5 ∷ 6 ∷ 7 ∷ 8 ∷ []; page_rc = λ p. 0; content = λ p i. 7 }

five_free-IsPages : IsPages five_free
five_free-IsPages = record {
  once = (refl, (refl, (refl, (refl, (refl, tt)))));
  unheld = λ p. ground arith;
}

abbrev no_space : Space
no_space = record { root_ptable = 0; tframe_pa = 0; tframe_va = 0 }

mmap_uspace-Fresh_example : Fresh no_space five_free
mmap_uspace-Fresh_example = mmap_uspace-Fresh no_space five_free five_free-IsPages (omega arith)
