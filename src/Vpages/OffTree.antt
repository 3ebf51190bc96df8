-- ===== src/Vpages/OffTree.antt =====
-- What is written to pages that are no tables changes no mapping.
use rv_mini_os.Prelude.{ℕ, zero, suc, ◌%◌, ◌^◌, ◌<◌, ◌≡◌, sym, ◌∙◌, ap, false, some, has}
use rv_mini_os.Pages.{Pages}
use rv_mini_os.Vpages.{pte_v, has_flag, get_va_vpn, get_next_lvl_pte, is_a_next_lvl_ptr, walk_from}
use rv_mini_os.Vpages.Tree.{
  Place, IsTree, prefix, entry_at, leaf_entry, prefix-vpn, prefix_top, vpn_lt, step-same,
  no_level_left,
}

module _ (place : Place) (root : ℕ) (m m' : Pages) (tree : IsTree place root m)
    (same : (s j : ℕ) (x : ℕ × ℕ) → place s ≡ some x → m'.content s j ≡ m.content s j) where
  pub untouched-IsTree :
      ((s l q : ℕ) → place s ≡ some (l, q) → has s m'.free_pages ≡ false) → IsTree place root m'
  untouched-IsTree used = record {
    at_root = tree.at_root;
    one_table = tree.one_table;
    low = tree.low;
    down = λ s l q j e h f.
        (let d = tree.down s l q j e h (sym (ap (λ x. has_flag x pte_v) (same s j _ e)) ∙ f) in
          (
            ap is_a_next_lvl_ptr (same s j _ e) ∙ d.0,
            ap (λ x. place (get_next_lvl_pte x)) (same s j _ e) ∙ d.1,
          ));
    linked = λ s l q e h.
        (let (u, pu, fu) = tree.linked s l q e h in
          (u, pu, ap (λ x. has_flag x pte_v) (same u (q % 512) _ pu) ∙ fu));
    leaves = λ s q j e h f.
        (ap is_a_next_lvl_ptr (same s j _ e)
          ∙ tree.leaves s q j e h (sym (ap (λ x. has_flag x pte_v) (same s j _ e)) ∙ f));
    in_use = used;
  }

  walk-same :
      (k s va : ℕ)
      → place s ≡ some (k, prefix va (suc k))
      → entry_at m' (walk_from (suc k) s va m') ≡ entry_at m (walk_from (suc k) s va m)
  walk-same zero s va e =
      step-same m m' s va zero (same s (get_va_vpn va 0) _ e)
        (λ f q. no_level_left m m' (get_next_lvl_pte (m.content s (get_va_vpn va 0))) va)
  walk-same (suc k) s va e =
      let i = get_va_vpn va (suc k) in
      let p = prefix va (suc (suc k)) in
      step-same m m' s va (suc k) (same s i _ e) (λ f q.
        walk-same k (get_next_lvl_pte (m.content s i)) va (
          (tree.down s k p i e (vpn_lt va (suc k)) f).1
          ∙ ap (λ x. some (k, x)) (prefix-vpn va (suc k) (tree.low s (suc k) p e))))

  pub untouched-entries : (va : ℕ) → va < 2 ^ 39 → leaf_entry root va m' ≡ leaf_entry root va m
  untouched-entries va h =
      walk-same 2 root va (tree.at_root ∙ ap (λ x. some (2, x)) (sym (prefix_top va h)))
