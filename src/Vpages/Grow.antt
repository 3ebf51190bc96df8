-- ===== src/Vpages/Grow.antt =====
-- A new table in an empty entry maps nothing, and the tables stay a tree.
use rv_mini_os.Prelude.{
  ℕ, zero, suc, ◌+◌, ◌*◌, ◌<◌, ◌≡◌, ◌≢◌, sym, ◌∙◌, ap, true, false, ◌&&◌, none, some, arith, ◌==◌,
  if◌then◌else◌, has, Bool-cases, inl, inr,
}
use rv_mini_os.Pages.{Pages}
use rv_mini_os.Vpages.{pte_v, has_flag, get_va_vpn, get_next_lvl_pte, is_a_next_lvl_ptr, walk_from}
use rv_mini_os.Vpages.Tree.{
  Place, IsTree, prefix, entry_at, prefix-vpn, vpn_lt, some-inj, walk-invalid, walk-down, step-same,
  no_level_left,
}

-- the place of a new table `n`
abbrev pub placed : Place → (n l p : ℕ) → Place
placed place n l p = λ s. if s == n then some (l, p) else place s

-- Memory `m'` is memory `m` with the new table `n` in entry `i` of table `t`.
pub record Grown (m m' : Pages) (t i n : ℕ) : Type 0 where
  pub entry : m'.content t i ≡ n * 1024 + pte_v
  pub others : (s j : ℕ) → s ≢ n → (s == t && j == i) ≡ false → m'.content s j ≡ m.content s j
  pub blank : (j : ℕ) → m'.content n j ≡ 0
  pub free_kept : (s : ℕ) → has s m.free_pages ≡ false → s ≢ n → has s m'.free_pages ≡ false
  pub taken : has n m'.free_pages ≡ false

pub link_flag : (n : ℕ) → has_flag (n * 1024 + pte_v) pte_v ≡ true
link_flag n = ground arith

pub link_ptr : (n : ℕ) → is_a_next_lvl_ptr (n * 1024 + pte_v) ≡ true
unfolding is_a_next_lvl_ptr
link_ptr n = ground arith

pub link_next : (n : ℕ) → get_next_lvl_pte (n * 1024 + pte_v) ≡ n
unfolding get_next_lvl_pte
link_next n = omega arith

pub zero_flag : (x : ℕ) → x ≡ 0 → has_flag x pte_v ≡ false
zero_flag x e = ground arith

module _ (place : Place) (root : ℕ) (m m' : Pages) (t i n l p : ℕ) (tree : IsTree place root m)
    (at : place t ≡ some (suc l, p)) (below : i < 512)
    (invalid : has_flag (m.content t i) pte_v ≡ false) (fresh : place n ≡ none)
    (g : Grown m m' t i n) where
  pub placed-ne : (s : ℕ) {x : ℕ × ℕ} → place s ≡ some x → s ≢ n
  placed-ne s e f = none-ne-some (sym fresh ∙ ap place (sym f) ∙ e)
    where
      none-ne-some : {x : ℕ × ℕ} → none ≢ some x
      none-ne-some c = cc

  -- The new entry leads to a table with no entries.
  dead_end : (k va : ℕ) → k ≡ suc l → walk_from k n va m' ≡ none
  dead_end zero va e = absurd (omega arith)
  dead_end (suc k) va e =
      walk-invalid n va m' k
        (zero_flag (m'.content n (get_va_vpn va k)) (g.blank (get_va_vpn va k)))

  at_entry :
      (k s va : ℕ)
      → place s ≡ some (k, prefix va (suc k))
      → s ≡ t
      → get_va_vpn va k ≡ i
      → entry_at m' (walk_from (suc k) s va m') ≡ entry_at m (walk_from (suc k) s va m)
  at_entry k s va e es ej =
      let j = get_va_vpn va k in
      let new : m'.content s j ≡ n * 1024 + pte_v =
        ap (λ x. m'.content x j) es ∙ ap (m'.content t) ej ∙ g.entry in
      let old : has_flag (m.content s j) pte_v ≡ false =
        ap (λ x. has_flag (m.content x j) pte_v) es
        ∙ ap (λ x. has_flag (m.content t x) pte_v) ej
        ∙ invalid in
      let ke : k ≡ suc l = (some-inj (sym e ∙ ap place es ∙ at)).0 in
      ap (entry_at m') (
        walk-down s va m' k (ap (λ x. has_flag x pte_v) new ∙ link_flag n)
          (ap is_a_next_lvl_ptr new ∙ link_ptr n)
        ∙ ap (λ x. walk_from k x va m') (ap get_next_lvl_pte new ∙ link_next n)
        ∙ dead_end k va ke)
      ∙ sym (ap (entry_at m) (walk-invalid s va m k old))

  -- Every address is mapped as before.
  pub grow-entries :
      (k s va : ℕ)
      → place s ≡ some (k, prefix va (suc k))
      → entry_at m' (walk_from (suc k) s va m') ≡ entry_at m (walk_from (suc k) s va m)
  grow-entries zero s va e = elim (Bool-cases (s == t && get_va_vpn va 0 == i)) [
    | inl here ↦ at_entry zero s va e (ground arith) (ground arith)
    | inr other ↦
        step-same m m' s va zero (g.others s (get_va_vpn va 0) (placed-ne s e) other)
          (λ f q. no_level_left m m' (get_next_lvl_pte (m.content s (get_va_vpn va 0))) va)
  ]
  grow-entries (suc k) s va e = elim (Bool-cases (s == t && get_va_vpn va (suc k) == i)) [
    | inl here ↦ at_entry (suc k) s va e (ground arith) (ground arith)
    | inr other ↦
        step-same m m' s va (suc k) (g.others s (get_va_vpn va (suc k)) (placed-ne s e) other)
          (λ f q. grow-entries k (get_next_lvl_pte (m.content s (get_va_vpn va (suc k)))) va (
            (tree.down s k (prefix va (suc (suc k))) (get_va_vpn va (suc k)) e (vpn_lt va (suc k))
              f).1
            ∙ ap (λ x. some (k, x))
                (prefix-vpn va (suc k) (tree.low s (suc k) (prefix va (suc (suc k))) e))))
  ]
