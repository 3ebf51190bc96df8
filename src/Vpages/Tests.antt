-- ===== src/Vpages/Tests.antt =====
-- An address space with one page that is shared copy-on-write, and memories that are nearly full.
use rv_mini_os.Prelude.{
  ℕ, zero, suc, ◌+◌, ◌*◌, ◌/◌, ◌%◌, ◌<◌, ◌≡◌, ◌≢◌, refl, ◌∙◌, ap, true, false, ◌||◌, Option, none,
  some, [], ◌∷◌, arith, ◌==◌, if◌then◌else◌, has, Bool-cases, inl, inr,
}
use rv_mini_os.Err.{err, enomem}
use rv_mini_os.Pages.{Pages}
use rv_mini_os.Pages.Counts.{IsPages}
use rv_mini_os.Vpages.{
  pte_v, pte_r, has_flag, get_va_vpn, get_next_lvl_pte, is_a_next_lvl_ptr, vpage_map,
  vpage_map_range, vpage_handle_cow, walk_from,
}
use rv_mini_os.Vpages.Tree.{Place, IsTree, leaf_entry, some-inj}
use rv_mini_os.Vpages.OffTree.{untouched-IsTree}
use rv_mini_os.Vpages.Range.{MappedRange, vpage_map_range-MappedRange}
use rv_mini_os.Vpages.Map.{Mapped, vpage_map-Mapped}
use rv_mini_os.Vpages.Unmap.{Unmapped, vpage_unmmap-Unmapped}
use rv_mini_os.Vpages.Cow.{Owned, vpage_handle_cow-Owned}
use rv_mini_os.Vpages.Dangling.{vpage_map-dangling}

-- Tables 1, 2 and 3; page 7 is mapped at 0x5000.
abbrev pub first_word : (word i : ℕ) → ℕ
first_word word zero = word
first_word word (suc i) = 0

abbrev pub words : ℕ → ℕ → ℕ
words zero i = 0
words (suc zero) i = first_word 2049 i
words (suc (suc zero)) i = first_word 3073 i
words (suc (suc (suc zero))) i = if i == 5 then 7507 else 0
words (suc (suc (suc (suc t)))) i = 0

abbrev pub places : Place
places zero = none
places (suc zero) = some (2, 0)
places (suc (suc zero)) = some (1, 0)
places (suc (suc (suc zero))) = some (0, 0)
places (suc (suc (suc (suc t)))) = none

abbrev pub space : Pages
space = record {
  free_pages = 10 ∷ 11 ∷ [];
  page_rc = λ p. if p == 7 then 2 else if p == 1 || p == 2 || p == 3 then 1 else 0;
  content = words;
}

pub space-IsPages : IsPages space
space-IsPages = record { once = (refl, (refl, tt)); unheld = λ p. ground arith }

empty_flag : has_flag 0 pte_v ≢ true
empty_flag f = ground arith

none-ne-some : {x : ℕ × ℕ} → none ≢ some x
none-ne-some e = cc

place-cases : (t l p : ℕ) → places t ≡ some (l, p) → (t + l ≡ 3) × (p ≡ 0) × (l < 3)
place-cases zero l p e = absurd (none-ne-some e)
place-cases (suc zero) l p e = let (f, g) = some-inj e in (omega arith, omega arith, omega arith)
place-cases (suc (suc zero)) l p e =
    let (f, g) = some-inj e in (omega arith, omega arith, omega arith)
place-cases (suc (suc (suc zero))) l p e =
    let (f, g) = some-inj e in (omega arith, omega arith, omega arith)
place-cases (suc (suc (suc (suc t)))) l p e = absurd (none-ne-some e)

next-down :
    (a l p : ℕ)
    → ◌≡◌ {A = Option (ℕ × ℕ)} (some (suc a, 0)) (some (suc l, p))
    → ◌≡◌ {A = Option (ℕ × ℕ)} (some (a, 0)) (some (l, p * 512 + 0))
next-down a l p e =
    let (f, g) = some-inj e in
    ap (λ x. some (x, 0)) (omega (arith, f)) ∙ ap (λ x. some (l, x)) (omega (arith, g))

down :
    (t l p i : ℕ)
    → places t ≡ some (suc l, p)
    → has_flag (words t i) pte_v ≡ true
    → (is_a_next_lvl_ptr (words t i) ≡ true)
      × (places (get_next_lvl_pte (words t i)) ≡ some (l, p * 512 + i))
unfolding is_a_next_lvl_ptr get_next_lvl_pte
down zero l p i e f = absurd (none-ne-some e)
down (suc zero) l p zero e f = (refl, next-down 1 l p e)
down (suc zero) l p (suc i) e f = absurd (empty_flag f)
down (suc (suc zero)) l p zero e f = (refl, next-down 0 l p e)
down (suc (suc zero)) l p (suc i) e f = absurd (empty_flag f)
down (suc (suc (suc zero))) l p i e f = absurd (omega (arith, (some-inj e).0))
down (suc (suc (suc (suc t)))) l p i e f = absurd (none-ne-some e)

above :
    (a l q : ℕ) → a ≡ l → 0 ≡ q → ◌≡◌ {A = Option (ℕ × ℕ)} (some (suc a, 0)) (some (suc l, q / 512))
above a l q f g = ap (λ x. some (suc x, 0)) f ∙ ap (λ x. some (suc l, x)) (omega (arith, g))

first-flag :
    (word q : ℕ)
    → has_flag word pte_v ≡ true
    → 0 ≡ q
    → has_flag (first_word word (q % 512)) pte_v ≡ true
first-flag word q f g =
    let i : q % 512 ≡ 0 = omega (arith, g) in ap (λ x. has_flag (first_word word x) pte_v) i ∙ f

linked :
    (t l q : ℕ)
    → places t ≡ some (l, q)
    → l < 2
    → (s : ℕ) × (places s ≡ some (suc l, q / 512)) × (has_flag (words s (q % 512)) pte_v ≡ true)
linked zero l q e h = absurd (none-ne-some e)
linked (suc zero) l q e h = absurd (omega (arith, (some-inj e).0))
linked (suc (suc zero)) l q e h =
    let (f, g) = some-inj e in (1, above 1 l q f g, first-flag 2049 q refl g)
linked (suc (suc (suc zero))) l q e h =
    let (f, g) = some-inj e in (2, above 0 l q f g, first-flag 3073 q refl g)
linked (suc (suc (suc (suc t)))) l q e h = absurd (none-ne-some e)

leaves :
    (t p i : ℕ)
    → places t ≡ some (0, p)
    → has_flag (words t i) pte_v ≡ true
    → is_a_next_lvl_ptr (words t i) ≡ false
unfolding is_a_next_lvl_ptr
leaves zero p i e f = absurd (none-ne-some e)
leaves (suc zero) p i e f = absurd (omega (arith, (some-inj e).0))
leaves (suc (suc zero)) p i e f = absurd (omega (arith, (some-inj e).0))
leaves (suc (suc (suc zero))) p i e f = elim (Bool-cases (i == 5)) [
  | inl leaf ↦ rw leaf
  | inr other ↦ absurd (empty_flag (rw other at f))
]
leaves (suc (suc (suc (suc t)))) p i e f = absurd (none-ne-some e)

in_use : (t l p : ℕ) → places t ≡ some (l, p) → has t (10 ∷ 11 ∷ []) ≡ false
in_use t l p e = let (a, b, c) = place-cases t l p e in ground arith

pub space-IsTree : IsTree places 1 space
space-IsTree = record {
  at_root = refl;
  one_table = λ s t l p e f.
      (let (a, b, c) = place-cases s l p e in
        let (a', b', c') = place-cases t l p f in omega (arith, a, a'));
  low = λ t l p e. (let (a, b, c) = place-cases t l p e in c);
  down = λ t l p i e h f. down t l p i e f;
  linked = linked;
  leaves = λ t p i e h f. leaves t p i e f;
  in_use = in_use;
}

pub leaf_5 : leaf_entry 1 20480 space ≡ some 7507
unfolding walk_from get_va_vpn is_a_next_lvl_ptr get_next_lvl_pte
leaf_5 = refl

-- Page 7 is held twice, and it is no table.
pub page_7 : (space.page_rc (get_next_lvl_pte 7507) ≡ 2) × (places (get_next_lvl_pte 7507) ≡ none)
unfolding get_next_lvl_pte
page_7 = (refl, refl)

readable : is_a_next_lvl_ptr pte_r ≡ false
unfolding is_a_next_lvl_ptr
readable = refl

vpage_map-Mapped_example : Mapped places 1 24576 8 pte_r space
vpage_map-Mapped_example =
    vpage_map-Mapped places 1 24576 8 pte_r space space-IsTree space-IsPages (omega arith) readable
      (omega arith)

abbrev roomy : Pages
roomy = record space { free_pages = 10 ∷ 11 ∷ 12 ∷ 13 ∷ [] }

roomy-IsPages : IsPages roomy
roomy-IsPages = record { once = (refl, (refl, (refl, (refl, tt)))); unheld = λ p. ground arith }

roomy-IsTree : IsTree places 1 roomy
roomy-IsTree =
    untouched-IsTree places 1 space roomy space-IsTree (λ s j x e. refl)
      (λ t l p e. (let (a, b, c) = place-cases t l p e in ground arith))

vpage_map_range-MappedRange_example :
    MappedRange 2 1 24576 8 pte_r roomy (vpage_map_range 1 24576 8 8192 pte_r roomy)
vpage_map_range-MappedRange_example =
    vpage_map_range-MappedRange places 1 24576 8 8192 pte_r roomy roomy-IsTree roomy-IsPages
      (omega arith) readable (omega arith)

vpage_unmmap-Unmapped_example : Unmapped places 1 20480 7507 space
vpage_unmmap-Unmapped_example =
    vpage_unmmap-Unmapped places 1 20480 7507 space space-IsTree space-IsPages (omega arith) leaf_5
      (λ z. omega (arith, page_7.0)) page_7.1

vpage_handle_cow-Owned_example : Owned places 1 20480 7507 space (vpage_handle_cow 1 20480 space)
vpage_handle_cow-Owned_example =
    vpage_handle_cow-Owned places 1 20480 7507 space space-IsTree space-IsPages (omega arith) leaf_5
      refl (λ z. omega (arith, page_7.0)) page_7.1 (λ z. omega arith)

-- a root, and one free page
abbrev nearly_full : Pages
nearly_full = record {
  free_pages = 10 ∷ [];
  page_rc = λ p. if p == 1 then 1 else 0;
  content = λ t i. 0;
}

nearly_full-IsPages : IsPages nearly_full
nearly_full-IsPages = record { once = (refl, tt); unheld = λ p. ground arith }

vpage_map-dangling_example :
    (m' : Pages) × (vpage_map 1 24576 8 pte_r nearly_full ≡ some (err enomem, m'))
    × (m'.free_pages ≡ 10 ∷ [])
    × (m'.content 1 (get_va_vpn 24576 2) ≡ 10241)
vpage_map-dangling_example =
    vpage_map-dangling 1 24576 8 pte_r 10 nearly_full refl nearly_full-IsPages (omega arith) refl
