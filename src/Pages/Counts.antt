-- ===== src/Pages/Counts.antt =====
-- A page is in the free list, once, or it is counted as held.
use rv_mini_os.Prelude.{
  ℕ, ◌+◌, ◌-◌, ◌≡◌, ◌≢◌, refl, false, ◌&&◌, Option, none, some, List, [], ◌∷◌, arith, ◌==◌, ==_refl,
  ltb, update, has, Distinct, Bool-cases, inl, inr,
}
use rv_mini_os.Pages.{Pages, push_free, page_get, page_get_ref_count, page_alloc, page_put}

-- No page is twice in the free list, and no free page is held.
pub record IsPages (m : Pages) : Type 0 where
  pub once : Distinct m.free_pages
  pub unheld : (p : ℕ) → (has p m.free_pages && ltb 0 (m.page_rc p)) ≡ false

-- A new page is zero, held once, and no more free; there is none only if no page is free.
abbrev pub Allocated : Pages → Option ℕ × Pages → Type 0
Allocated m (none, m') = (m.free_pages ≡ []) × (m' ≡ m)
Allocated m (some p, m') =
    (m.free_pages ≡ p ∷ m'.free_pages)
    × (m'.page_rc p ≡ 1)
    × (has p m'.free_pages ≡ false)
    × ((i : ℕ) → m'.content p i ≡ 0)

alloc_lem :
    (free : List ℕ) (rc : ℕ → ℕ) (content : ℕ → ℕ → ℕ)
    → let m : Pages = record { free_pages = free; page_rc = rc; content = content } in
      IsPages m → IsPages (page_alloc m).1 × Allocated m (page_alloc m)
unfolding page_alloc page_get
alloc_lem [] rc content w = (w, (refl, refl))
alloc_lem (x ∷ xs) rc content w =
    let unused : rc x ≡ 0 = ground (arith, w.unheld x, ==_refl x) in
    (
      record { once = w.once.1; unheld = λ p. ground (arith, w.unheld p, w.once.0) },
      (refl, ground (arith, unused, ==_refl x), w.once.0, λ i. ground (arith, ==_refl x)),
    )

-- `page_alloc` gives NULL and changes nothing if no page is free; else it takes a page out of the
-- free list that is zero and held once. No page is then both free and held, or twice free, if none
-- was before.
pub page_alloc-IsPages :
    (m : Pages) → IsPages m → IsPages (page_alloc m).1 × Allocated m (page_alloc m)
page_alloc-IsPages m w = alloc_lem m.free_pages m.page_rc m.content w

-- `page_put` of a page that is held does not panic; it takes one reference back, and frees the page
-- if and only if it was the last, so that no page is both free and held.
pub page_put-IsPages :
    (m : Pages) (p : ℕ)
    → IsPages m
    → m.page_rc p ≢ 0
    → (m' : Pages) × (page_put p m ≡ some m')
      × IsPages m'
      × (m'.page_rc p + 1 ≡ m.page_rc p)
      × (has p m'.free_pages ≡ (m.page_rc p == 1))
unfolding page_put page_get_ref_count push_free
page_put-IsPages m p w held =
    let some_held : (m.page_rc p == 0) ≡ false = ground arith in
    let not_free : has p m.free_pages ≡ false = ground (arith, w.unheld p) in
    elim (Bool-cases (m.page_rc p - 1 == 0)) [
      | inl last ↦ (
        push_free p (record m { page_rc = update m.page_rc p (m.page_rc p - 1) }),
        rw (some_held, last),
        record { once = (not_free, w.once); unheld = λ q. ground (arith, w.unheld q, ==_refl p) },
        ground (arith, ==_refl p),
        ground (arith, ==_refl p),
      )
      | inr more ↦ (
        record m { page_rc = update m.page_rc p (m.page_rc p - 1) },
        rw (some_held, more),
        record { once = w.once; unheld = λ q. ground (arith, w.unheld q, not_free) },
        ground (arith, ==_refl p),
        ground (arith, not_free),
      )
    ]
