-- ===== src/Vpages/Reach.antt =====
-- A walk through a tree of tables gets to the table of level 0 that has the address's prefix.
use rv_mini_os.Prelude.{
  ℕ, zero, suc, ◌/◌, ◌%◌, ◌^◌, ◌<◌, ◌≡◌, ◌≢◌, refl, sym, ◌∙◌, ap, Bool, true, false, Option, none,
  some, arith, Bool-cases, inl, inr,
}
use rv_mini_os.Pages.{Pages}
use rv_mini_os.Vpages.{pte_v, has_flag, get_va_vpn, get_next_lvl_pte, walk_from, levels}
use rv_mini_os.Vpages.Tree.{
  Place, IsTree, prefix, prefix-vpn, prefix_top, vpn_lt, some-inj, walk-invalid, walk-leaf,
  walk-down,
}

pub true-ne-false : {b : Bool} → b ≡ true → b ≡ false → ⊥
true-ne-false e f = cc

pub none-ne-some : {x : ℕ × ℕ} → none ≢ some x
none-ne-some c = cc

some_eq : {a b c d : ℕ} → a ≡ c → b ≡ d → ◌≡◌ {A = Option (ℕ × ℕ)} (some (a, b)) (some (c, d))
some_eq e f = cc

-- The index in a table is the rest of the prefix below it, and the table's prefix is the quotient.
vpn-prefix : (va k : ℕ) → k < 3 → get_va_vpn va k ≡ prefix va k % 512
unfolding get_va_vpn
vpn-prefix va k h = refl

prefix_div : (va k : ℕ) → k < 3 → prefix va k / 512 ≡ prefix va (suc k)
prefix_div va zero h = omega arith
prefix_div va (suc zero) h = omega arith
prefix_div va (suc (suc zero)) h = omega arith
prefix_div va (suc (suc (suc k))) h = absurd (omega arith)

module _ (place : Place) (root : ℕ) (m : Pages) (tree : IsTree place root m) where
  -- the table above a table, on the way to an address
  above :
      (k x va : ℕ)
      → k < 2
      → place x ≡ some (k, prefix va (suc k))
      → (s : ℕ) × (place s ≡ some (suc k, prefix va (suc (suc k))))
        × (walk_from (suc (suc k)) s va m ≡ walk_from (suc k) x va m)
  above k x va h e =
      let (s, ps, fs) = tree.linked x k (prefix va (suc k)) e h in
      let i : prefix va (suc k) % 512 ≡ get_va_vpn va (suc k) =
        sym (vpn-prefix va (suc k) (omega arith)) in
      let pt : place s ≡ some (suc k, prefix va (suc (suc k))) =
        ps ∙ some_eq refl (prefix_div va (suc k) (omega arith)) in
      let f : has_flag (m.content s (get_va_vpn va (suc k))) pte_v ≡ true =
        sym (ap (λ z. has_flag (m.content s z) pte_v) i) ∙ fs in
      let d =
        tree.down s k (prefix va (suc (suc k))) (get_va_vpn va (suc k)) pt (vpn_lt va (suc k)) f in
      let next : get_next_lvl_pte (m.content s (get_va_vpn va (suc k))) ≡ x =
        tree.one_table (get_next_lvl_pte (m.content s (get_va_vpn va (suc k)))) x k
          (prefix va (suc k)) (d.1 ∙ some_eq refl (prefix-vpn va (suc k) (omega arith))) e in
      (s, pt, walk-down s va m (suc k) f d.0 ∙ ap (λ z. walk_from (suc k) z va m) next)

  -- The walk from the root goes through the table of level 0 that has the address's prefix.
  pub walk_through :
      (t va : ℕ)
      → place t ≡ some (0, prefix va 1)
      → va < 2 ^ 39
      → walk_from levels root va m ≡ walk_from 1 t va m
  walk_through t va e h =
      let (u, pu, eu) = above 0 t va (omega arith) e in
      let (r, pr, er) = above 1 u va (omega arith) pu in
      let same : r ≡ root =
        tree.one_table r root 2 0 (pr ∙ some_eq refl (prefix_top va h)) tree.at_root in
      ap (λ z. walk_from 3 z va m) (sym same) ∙ er ∙ eu

  -- A walk that comes to an entry has gone through entries that are valid.
  walk_valid :
      (k s va t i : ℕ)
      → walk_from (suc k) s va m ≡ some (t, i)
      → has_flag (m.content s (get_va_vpn va k)) pte_v ≡ true
  walk_valid k s va t i w = elim (Bool-cases (has_flag (m.content s (get_va_vpn va k)) pte_v)) [
    | inr no_entry ↦ absurd (none-ne-some (sym (walk-invalid s va m k no_entry) ∙ w))
    | inl valid ↦ valid
  ]

  -- A walk that comes to an entry comes to the address's leaf entry of level 0.
  pub walk_end :
      (k s va t i : ℕ)
      → place s ≡ some (k, prefix va (suc k))
      → walk_from (suc k) s va m ≡ some (t, i)
      → (place t ≡ some (0, prefix va 1))
        × (i ≡ get_va_vpn va 0)
        × (has_flag (m.content t i) pte_v ≡ true)
  walk_end zero s va t i e w =
      let valid = walk_valid 0 s va t i w in
      let leaf = tree.leaves s (prefix va 1) (get_va_vpn va 0) e (vpn_lt va 0) valid in
      let eq = some-inj (sym (walk-leaf s va m 0 valid leaf) ∙ w) in
      (
        sym (ap place eq.0) ∙ e,
        sym eq.1,
        sym (ap (λ x. has_flag (m.content x i) pte_v) eq.0)
            ∙ sym (ap (λ x. has_flag (m.content s x) pte_v) eq.1)
            ∙ valid,
      )
  walk_end (suc k) s va t i e w =
      let j = get_va_vpn va (suc k) in
      let valid = walk_valid (suc k) s va t i w in
      let d = tree.down s k (prefix va (suc (suc k))) j e (vpn_lt va (suc k)) valid in
      walk_end k (get_next_lvl_pte (m.content s j)) va t i
        (d.1
          ∙ some_eq refl (prefix-vpn va (suc k) (tree.low s (suc k) (prefix va (suc (suc k))) e)))
        (sym (walk-down s va m (suc k) valid d.0) ∙ w)
