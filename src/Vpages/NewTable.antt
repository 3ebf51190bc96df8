-- ===== src/Vpages/NewTable.antt =====
-- A page from `page_alloc`, linked in an empty entry, is a new table.
use rv_mini_os.Prelude.{
  ℕ, ◌+◌, ◌*◌, ◌%◌, ◌^◌, ◌≡◌, ◌≢◌, false, ◌&&◌, some, List, ◌∷◌, arith, ==_refl, ltb, update, has,
  Distinct,
}
use rv_mini_os.Pages.{Pages, page_alloc, page_get}
use rv_mini_os.Pages.Counts.{IsPages}
use rv_mini_os.Vpages.{pte_v, set_word}
use rv_mini_os.Vpages.Grow.{Grown}

-- the memory after `page_alloc` has taken the first free page `n`
abbrev pub taken : (m : Pages) (n : ℕ) (rest : List ℕ) → Pages
taken m n rest = record {
  free_pages = rest;
  page_rc = update m.page_rc n ((m.page_rc n + 1) % 2 ^ 8);
  content = update m.content n (λ i. 0);
}

pub page_alloc-taken :
    (m : Pages) (n : ℕ) (rest : List ℕ)
    → m.free_pages ≡ n ∷ rest
    → page_alloc m ≡ (some n, taken m n rest)
unfolding page_alloc page_get
page_alloc-taken m n rest e = rw e

pub free_once :
    (m : Pages) (n : ℕ) (rest : List ℕ)
    → m.free_pages ≡ n ∷ rest
    → IsPages m
    → (has n rest ≡ false) × Distinct rest
free_once m n rest e w = rw e at w.once

pub taken-IsPages :
    (m : Pages) (n : ℕ) (rest : List ℕ)
    → m.free_pages ≡ n ∷ rest
    → IsPages m
    → IsPages (taken m n rest)
taken-IsPages m n rest e w =
    let once : Distinct (n ∷ rest) = rw e at w.once in
    record {
      once = once.1;
      unheld = λ p.
          (let u : (has p (n ∷ rest) && ltb 0 (m.page_rc p)) ≡ false = rw e at w.unheld p in
            ground (arith, u, once.0));
    }

pub link-IsPages : (m : Pages) (t i v : ℕ) → IsPages m → IsPages (set_word t i v m)
link-IsPages m t i v w = record { once = w.once; unheld = w.unheld }

pub link-Grown :
    (m : Pages) (t i n : ℕ) (rest : List ℕ)
    → m.free_pages ≡ n ∷ rest
    → IsPages m
    → t ≢ n
    → Grown m (set_word t i (n * 1024 + pte_v) (taken m n rest)) t i n
link-Grown m t i n rest e w ne =
    let once : (has n rest ≡ false) × Distinct rest = free_once m n rest e w in
    record {
      entry = ground (arith, ==_refl t, ==_refl i);
      others = λ s j h other. ground arith;
      blank = λ j. ground (arith, ==_refl n);
      free_kept = λ s h other. (let f : has s (n ∷ rest) ≡ false = rw e at h in ground (arith, f));
      taken = once.0;
    }
