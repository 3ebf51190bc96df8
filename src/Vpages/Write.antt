-- ===== src/Vpages/Write.antt =====
-- What a new leaf entry changes: the address of its page, and no other.
use rv_mini_os.Prelude.{
  ℕ, zero, suc, ◌+◌, ◌*◌, ◌/◌, ◌%◌, ◌^◌, ◌<◌, ◌≡◌, ◌≢◌, sym, ◌∙◌, ap, true, false, ◌&&◌, Option,
  none, some, arith, ◌==◌, if◌then◌else◌, has, Bool-cases, inl, inr,
}
use rv_mini_os.Pages.{Pages}
use rv_mini_os.Vpages.{pte_v, has_flag, get_va_vpn, get_next_lvl_pte, is_a_next_lvl_ptr, walk_from}
use rv_mini_os.Vpages.Tree.{
  Place, IsTree, prefix, entry_at, leaf_entry, prefix-vpn, prefix_top, vpn_lt, some-inj,
  walk-invalid, walk-leaf, step-same, no_level_left,
}
use rv_mini_os.Vpages.Reach.{walk_through}

-- Memory `m'` is memory `m` with `v` in entry `i` of table `t`.
pub record Written (m m' : Pages) (t i v : ℕ) : Type 0 where
  pub entry : m'.content t i ≡ v
  pub others : (s j : ℕ) → (s == t && j == i) ≡ false → m'.content s j ≡ m.content s j

-- what an entry maps
abbrev pub mapping : ℕ → Option ℕ
mapping v = if has_flag v pte_v then some v else none

module _ (place : Place) (root : ℕ) (m m' : Pages) (t i v p : ℕ) (tree : IsTree place root m)
    (at : place t ≡ some (0, p)) (below : i < 512)
    (leaf : has_flag v pte_v ≡ true → is_a_next_lvl_ptr v ≡ false) (w : Written m m' t i v) where
  -- A table of another place is not changed.
  same_above : (s l q j : ℕ) → place s ≡ some (suc l, q) → m'.content s j ≡ m.content s j
  same_above s l q j e =
      let ne : s ≢ t = λ f. absurd (omega (arith, (some-inj (sym e ∙ ap place f ∙ at)).0)) in
      w.others s j (ground (arith, ne))

  write-leaves :
      (s q j : ℕ)
      → place s ≡ some (0, q)
      → j < 512
      → has_flag (m'.content s j) pte_v ≡ true
      → is_a_next_lvl_ptr (m'.content s j) ≡ false
  write-leaves s q j e h f = elim (Bool-cases (s == t && j == i)) [
    | inl here ↦
        let new : m'.content s j ≡ v =
          ap (λ x. m'.content x j) (ground arith) ∙ ap (m'.content t) (ground arith) ∙ w.entry in
        ap is_a_next_lvl_ptr new ∙ leaf (sym (ap (λ x. has_flag x pte_v) new) ∙ f)
    | inr other ↦
        let same = w.others s j other in
        ap is_a_next_lvl_ptr same
        ∙ tree.leaves s q j e h (sym (ap (λ x. has_flag x pte_v) same) ∙ f)
  ]

  pub write-IsTree :
      ((s l q : ℕ) → place s ≡ some (l, q) → has s m'.free_pages ≡ false) → IsTree place root m'
  write-IsTree used = record {
    at_root = tree.at_root;
    one_table = tree.one_table;
    low = tree.low;
    down = λ s l q j e h f.
        (let same = same_above s l q j e in
          let d = tree.down s l q j e h (sym (ap (λ x. has_flag x pte_v) same) ∙ f) in
          (ap is_a_next_lvl_ptr same ∙ d.0, ap (λ x. place (get_next_lvl_pte x)) same ∙ d.1));
    linked = λ s l q e h.
        (let (u, pu, fu) = tree.linked s l q e h in
          (u, pu, ap (λ x. has_flag x pte_v) (same_above u l (q / 512) (q % 512) pu) ∙ fu));
    leaves = write-leaves;
    in_use = used;
  }

  write-others :
      (k s va : ℕ)
      → place s ≡ some (k, prefix va (suc k))
      → prefix va 0 ≢ p * 512 + i
      → entry_at m' (walk_from (suc k) s va m') ≡ entry_at m (walk_from (suc k) s va m)
  write-others zero s va e ne = elim (Bool-cases (s == t && get_va_vpn va 0 == i)) [
    | inr other ↦
        step-same m m' s va zero (w.others s (get_va_vpn va 0) other)
          (λ f q. no_level_left m m' (get_next_lvl_pte (m.content s (get_va_vpn va 0))) va)
    | inl here ↦
        let st : s ≡ t = ground arith in
        let ji : get_va_vpn va 0 ≡ i = ground arith in
        absurd (
          ne (
            sym (prefix-vpn va 0 (omega arith))
            ∙ omega (arith, (some-inj (sym e ∙ ap place st ∙ at)).1, ji)))
  ]
  write-others (suc k) s va e ne =
      step-same m m' s va (suc k)
        (same_above s k (prefix va (suc (suc k))) (get_va_vpn va (suc k)) e)
        (λ f q.
          write-others k (get_next_lvl_pte (m.content s (get_va_vpn va (suc k)))) va
            ((tree.down s k (prefix va (suc (suc k))) (get_va_vpn va (suc k)) e (vpn_lt va (suc k))
                f).1
              ∙ ap (λ x. some (k, x))
                  (prefix-vpn va (suc k) (tree.low s (suc k) (prefix va (suc (suc k))) e)))
            ne)

  write-here :
      (va : ℕ)
      → IsTree place root m'
      → va < 2 ^ 39
      → prefix va 0 ≡ p * 512 + i
      → leaf_entry root va m' ≡ mapping v
  write-here va tree' h e =
      let pq : prefix va 1 ≡ p = omega arith in
      let ji : get_va_vpn va 0 ≡ i = omega (arith, prefix-vpn va 0 (omega arith), vpn_lt va 0) in
      let through = walk_through place root m' tree' t va (at ∙ ap (λ x. some (0, x)) (sym pq)) h in
      let new : m'.content t (get_va_vpn va 0) ≡ v = ap (m'.content t) ji ∙ w.entry in
      elim (Bool-cases (has_flag v pte_v)) [
        | inl valid ↦
            ap (entry_at m') (
              through
              ∙ walk-leaf t va m' 0 (ap (λ x. has_flag x pte_v) new ∙ valid)
                  (ap is_a_next_lvl_ptr new ∙ leaf valid))
            ∙ ap some new
            ∙ sym (rw valid)
        | inr invalid ↦
            ap (entry_at m')
              (through ∙ walk-invalid t va m' 0 (ap (λ x. has_flag x pte_v) new ∙ invalid))
            ∙ sym (rw invalid)
      ]

  -- The page of the entry is mapped as the entry says, and all others as before.
  pub write-entries :
      (va : ℕ)
      → IsTree place root m'
      → va < 2 ^ 39
      → leaf_entry root va m'
        ≡ (if prefix va 0 == p * 512 + i then mapping v else leaf_entry root va m)
  write-entries va tree' h = elim (Bool-cases (prefix va 0 == p * 512 + i)) [
    | inl same ↦ write-here va tree' h (ground arith) ∙ sym (rw same)
    | inr other ↦
        write-others 2 root va (tree.at_root ∙ ap (λ x. some (2, x)) (sym (prefix_top va h)))
          (ground arith)
        ∙ sym (rw other)
  ]
