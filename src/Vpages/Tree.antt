-- ===== src/Vpages/Tree.antt =====
-- When the tables of an address space form an Sv39 tree, and what the tree maps.
use rv_mini_os.Prelude.{
  ℕ, zero, suc, ◌+◌, ◌*◌, ◌/◌, ◌%◌, ◌^◌, ◌<◌, ◌≡◌, refl, sym, ◌∙◌, ap, true, false, Option, none,
  some, arith, has, Bool-cases, inl, inr,
}
use rv_mini_os.Pages.{Pages}
use rv_mini_os.Vpages.{
  pte_v, has_flag, get_va_vpn, get_next_lvl_pte, is_a_next_lvl_ptr, walk_from, levels,
}

-- the part of an address above the bits of the levels below `lvl`
abbrev pub prefix : (va lvl : ℕ) → ℕ
prefix va lvl = va / 2 ^ (12 + 9 * lvl)

-- A table stands at a level, and for the addresses with one prefix above it.
abbrev pub Place : Type 0
Place = ℕ → Option (ℕ × ℕ)

pub record IsTree (place : Place) (root : ℕ) (m : Pages) : Type 0 where
  pub at_root : place root ≡ some (2, 0)
  pub one_table : (s t l p : ℕ) → place s ≡ some (l, p) → place t ≡ some (l, p) → s ≡ t
  pub low : (t l p : ℕ) → place t ≡ some (l, p) → l < 3
  pub down :
      (t l p i : ℕ)
      → place t ≡ some (suc l, p)
      → i < 512
      → has_flag (m.content t i) pte_v ≡ true
      → (is_a_next_lvl_ptr (m.content t i) ≡ true)
        × (place (get_next_lvl_pte (m.content t i)) ≡ some (l, p * 512 + i))
  pub linked :
      (t l q : ℕ)
      → place t ≡ some (l, q)
      → l < 2
      → (s : ℕ) × (place s ≡ some (suc l, q / 512))
        × (has_flag (m.content s (q % 512)) pte_v ≡ true)
  pub leaves :
      (t p i : ℕ)
      → place t ≡ some (0, p)
      → i < 512
      → has_flag (m.content t i) pte_v ≡ true
      → is_a_next_lvl_ptr (m.content t i) ≡ false
  pub in_use : (t l p : ℕ) → place t ≡ some (l, p) → has t m.free_pages ≡ false

-- The entry of a leaf.
abbrev pub entry_at : Pages → Option (ℕ × ℕ) → Option ℕ
entry_at m none = none
entry_at m (some (t, i)) = some (m.content t i)

-- What an address space maps an address to: the leaf entry of its page.
abbrev pub leaf_entry : (root va : ℕ) → Pages → Option ℕ
leaf_entry root va m = entry_at m (walk_from levels root va m)

pub prefix-vpn : (va k : ℕ) → k < 3 → prefix va (suc k) * 512 + get_va_vpn va k ≡ prefix va k
unfolding get_va_vpn
prefix-vpn va zero h = omega arith
prefix-vpn va (suc zero) h = omega arith
prefix-vpn va (suc (suc zero)) h = omega arith
prefix-vpn va (suc (suc (suc k))) h = absurd (omega arith)

pub vpn_lt : (va k : ℕ) → get_va_vpn va k < 512
unfolding get_va_vpn
vpn_lt va k = omega arith

-- The top prefix of an address of Sv39 is 0.
pub prefix_top : (va : ℕ) → va < 2 ^ 39 → prefix va 3 ≡ 0
prefix_top va h = omega arith

pub some-inj :
    {a b c d : ℕ} → ◌≡◌ {A = Option (ℕ × ℕ)} (some (a, b)) (some (c, d)) → (a ≡ c) × (b ≡ d)
some-inj e = (cc, cc)

module _ (t va : ℕ) (m : Pages) where
  -- the steps of a walk
  pub walk-invalid :
      (k : ℕ)
      → has_flag (m.content t (get_va_vpn va k)) pte_v ≡ false
      → walk_from (suc k) t va m ≡ none
  unfolding walk_from
  walk-invalid k e = rw e

  pub walk-leaf :
      (k : ℕ)
      → has_flag (m.content t (get_va_vpn va k)) pte_v ≡ true
      → is_a_next_lvl_ptr (m.content t (get_va_vpn va k)) ≡ false
      → walk_from (suc k) t va m ≡ some (t, get_va_vpn va k)
  unfolding walk_from
  walk-leaf k e f = rw (e, f)

  pub walk-down :
      (k : ℕ)
      → has_flag (m.content t (get_va_vpn va k)) pte_v ≡ true
      → is_a_next_lvl_ptr (m.content t (get_va_vpn va k)) ≡ true
      → walk_from (suc k) t va m
        ≡ walk_from k (get_next_lvl_pte (m.content t (get_va_vpn va k))) va m
  unfolding walk_from
  walk-down k e f = rw (e, f)

pub no_level_left :
    (m m' : Pages) (t va : ℕ)
    → entry_at m' (walk_from zero t va m') ≡ entry_at m (walk_from zero t va m)
unfolding walk_from
no_level_left m m' t va = refl

-- Where an entry is the same in two memories, its address is mapped to the same, if it is so from
-- the next table.
pub step-same :
    (m m' : Pages) (t va k : ℕ)
    → m'.content t (get_va_vpn va k) ≡ m.content t (get_va_vpn va k)
    → (has_flag (m.content t (get_va_vpn va k)) pte_v ≡ true
        → is_a_next_lvl_ptr (m.content t (get_va_vpn va k)) ≡ true
        → entry_at m' (walk_from k (get_next_lvl_pte (m.content t (get_va_vpn va k))) va m')
          ≡ entry_at m (walk_from k (get_next_lvl_pte (m.content t (get_va_vpn va k))) va m))
    → entry_at m' (walk_from (suc k) t va m') ≡ entry_at m (walk_from (suc k) t va m)
step-same m m' t va k same next =
    let i = get_va_vpn va k in
    let flag : has_flag (m'.content t i) pte_v ≡ has_flag (m.content t i) pte_v =
      ap (λ x. has_flag x pte_v) same in
    let ptr : is_a_next_lvl_ptr (m'.content t i) ≡ is_a_next_lvl_ptr (m.content t i) =
      ap is_a_next_lvl_ptr same in
    elim (Bool-cases (has_flag (m.content t i) pte_v)) [
      | inr no_entry ↦
          ap (entry_at m') (walk-invalid t va m' k (flag ∙ no_entry))
          ∙ sym (ap (entry_at m) (walk-invalid t va m k no_entry))
      | inl valid ↦ elim (Bool-cases (is_a_next_lvl_ptr (m.content t i))) [
        | inr leaf ↦
            ap (entry_at m') (walk-leaf t va m' k (flag ∙ valid) (ptr ∙ leaf))
            ∙ ap some same
            ∙ sym (ap (entry_at m) (walk-leaf t va m k valid leaf))
        | inl link ↦
            ap (entry_at m') (walk-down t va m' k (flag ∙ valid) (ptr ∙ link))
            ∙ ap (λ x. entry_at m' (walk_from k (get_next_lvl_pte x) va m')) same
            ∙ next valid link
            ∙ sym (ap (entry_at m) (walk-down t va m k valid link))
      ]
    ]
