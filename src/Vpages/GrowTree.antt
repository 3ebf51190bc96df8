-- ===== src/Vpages/GrowTree.antt =====
-- The tables with a new one in an empty entry are a tree again.
use rv_mini_os.Prelude.{
  ℕ, suc, ◌+◌, ◌*◌, ◌/◌, ◌%◌, ◌<◌, ◌≡◌, ◌≢◌, sym, ◌∙◌, ap, Bool, true, false, ◌&&◌, none, some,
  arith, ◌==◌, ==_iff, ==_refl, has, Bool-cases, ◌⊎◌, inl, inr,
}
use rv_mini_os.Pages.{Pages}
use rv_mini_os.Vpages.{pte_v, has_flag, get_next_lvl_pte, is_a_next_lvl_ptr}
use rv_mini_os.Vpages.Tree.{Place, IsTree, some-inj}
use rv_mini_os.Vpages.Grow.{placed, Grown, link_flag, link_ptr, link_next, zero_flag, placed-ne}

true-ne-false : {b : Bool} → b ≡ true → b ≡ false → ⊥
true-ne-false e f = cc

module _ (place : Place) (root : ℕ) (m m' : Pages) (t i n l p : ℕ) (tree : IsTree place root m)
    (at : place t ≡ some (suc l, p)) (below : i < 512)
    (invalid : has_flag (m.content t i) pte_v ≡ false) (fresh : place n ≡ none)
    (g : Grown m m' t i n) where
  q : ℕ
  q = p * 512 + i

  ne : (s : ℕ) {x : ℕ × ℕ} → place s ≡ some x → s ≢ n
  ne s e = placed-ne place root m m' t i n l p tree at below invalid fresh g s e

  place' : Place
  place' = placed place n l (p * 512 + i)

  old : (s : ℕ) {x : ℕ × ℕ} → place s ≡ some x → placed place n l (p * 512 + i) s ≡ some x
  old s e = let other : (s == n) ≡ false = ground (arith, ne s e) in rw other e

  new : placed place n l (p * 512 + i) n ≡ some (l, p * 512 + i)
  new = rw (==_refl n)

  cases :
      (s l' p' : ℕ)
      → placed place n l (p * 512 + i) s ≡ some (l', p')
      → ((s ≡ n) × (l' ≡ l) × (p' ≡ p * 512 + i)) ⊎ ((s ≢ n) × (place s ≡ some (l', p')))
  cases s l' p' e = elim (Bool-cases (s == n)) [
    | inl same ↦ let eq = some-inj (rw same at e) in inl ((==_iff s n).0 same, sym eq.0, sym eq.1)
    | inr other ↦ inr (ground arith, rw other at e)
  ]

  -- No other table has the new place.
  vacant : (s : ℕ) → place s ≢ some (l, p * 512 + i)
  vacant s e =
      let (x, px, fx) = tree.linked s l (p * 512 + i) e (omega (arith, tree.low t (suc l) p at)) in
      let xt : x ≡ t =
        tree.one_table x t (suc l) p (px ∙ ap (λ z. some (suc l, z)) (omega arith)) at in
      let ji : (p * 512 + i) % 512 ≡ i = omega arith in
      true-ne-false fx (
        ap (λ z. has_flag (m.content z ((p * 512 + i) % 512)) pte_v) xt
        ∙ ap (λ z. has_flag (m.content t z) pte_v) ji
        ∙ invalid)

  one_table :
      (s u l' p' : ℕ)
      → placed place n l (p * 512 + i) s ≡ some (l', p')
      → placed place n l (p * 512 + i) u ≡ some (l', p')
      → s ≡ u
  one_table s u l' p' e f = elim (cases s l' p' e) [
    | inl (sn, ll, pp) ↦ elim (cases u l' p' f) [
      | inl (un, _, _) ↦ sn ∙ sym un
      | inr (un, pu) ↦ absurd (vacant u (pu ∙ ap (λ z. some (z, p')) ll ∙ ap (λ z. some (l, z)) pp))
    ]
    | inr (sn, ps) ↦ elim (cases u l' p' f) [
      | inl (un, ll, pp) ↦
          absurd (vacant s (ps ∙ ap (λ z. some (z, p')) ll ∙ ap (λ z. some (l, z)) pp))
      | inr (un, pu) ↦ tree.one_table s u l' p' ps pu
    ]
  ]

  down :
      (s l' p' j : ℕ)
      → placed place n l (p * 512 + i) s ≡ some (suc l', p')
      → j < 512
      → has_flag (m'.content s j) pte_v ≡ true
      → (is_a_next_lvl_ptr (m'.content s j) ≡ true)
        × (placed place n l (p * 512 + i) (get_next_lvl_pte (m'.content s j))
            ≡ some (l', p' * 512 + j))
  down s l' p' j e h f = elim (cases s (suc l') p' e) [
    | inl (sn, _, _) ↦
        absurd
          (true-ne-false f (zero_flag (m'.content s j) (ap (λ z. m'.content z j) sn ∙ g.blank j)))
    | inr (sn, ps) ↦ elim (Bool-cases (s == t && j == i)) [
      | inr other ↦
          let same : m'.content s j ≡ m.content s j = g.others s j sn other in
          let d = tree.down s l' p' j ps h (sym (ap (λ z. has_flag z pte_v) same) ∙ f) in
          (
            ap is_a_next_lvl_ptr same ∙ d.0,
            ap (λ z. placed place n l (p * 512 + i) (get_next_lvl_pte z)) same
                ∙ old (get_next_lvl_pte (m.content s j)) d.1,
          )
      | inl here ↦
          let st : s ≡ t = ground arith in
          let ji : j ≡ i = ground arith in
          let entry : m'.content s j ≡ n * 1024 + pte_v =
            ap (λ x. m'.content x j) st ∙ ap (m'.content t) ji ∙ g.entry in
          let eq = some-inj (sym ps ∙ ap place st ∙ at) in
          (
            ap is_a_next_lvl_ptr entry ∙ link_ptr n,
            ap (placed place n l (p * 512 + i)) (ap get_next_lvl_pte entry ∙ link_next n)
                ∙ new
                ∙ ap (λ z. some (l, z)) (omega (arith, eq, ji))
                ∙ ap (λ z. some (z, p' * 512 + j)) (omega (arith, eq)),
          )
    ]
  ]

  flag_kept :
      (s j : ℕ) {x : ℕ × ℕ}
      → place s ≡ some x
      → has_flag (m.content s j) pte_v ≡ true
      → has_flag (m'.content s j) pte_v ≡ true
  flag_kept s j e f = elim (Bool-cases (s == t && j == i)) [
    | inr other ↦ ap (λ z. has_flag z pte_v) (g.others s j (ne s e) other) ∙ f
    | inl here ↦
        let st : s ≡ t = ground arith in
        let ji : j ≡ i = ground arith in
        ap (λ z. has_flag z pte_v) (ap (λ x. m'.content x j) st ∙ ap (m'.content t) ji ∙ g.entry)
        ∙ link_flag n
  ]

  linked :
      (s l' q' : ℕ)
      → placed place n l (p * 512 + i) s ≡ some (l', q')
      → l' < 2
      → (u : ℕ) × (placed place n l (p * 512 + i) u ≡ some (suc l', q' / 512))
        × (has_flag (m'.content u (q' % 512)) pte_v ≡ true)
  linked s l' q' e h = elim (cases s l' q' e) [
    | inl (sn, ll, qq) ↦
        let ji : q' % 512 ≡ i = omega arith in
        (
          t,
          old t at
              ∙ ap (λ z. some (suc l, z)) (omega arith)
              ∙ ap (λ z. some (suc z, q' / 512)) (sym ll),
          ap (λ z. has_flag (m'.content t z) pte_v) ji
              ∙ ap (λ z. has_flag z pte_v) g.entry
              ∙ link_flag n,
        )
    | inr (sn, ps) ↦
        let (u, pu, fu) = tree.linked s l' q' ps h in (u, old u pu, flag_kept u (q' % 512) pu fu)
  ]

  leaves :
      (s p' j : ℕ)
      → placed place n l (p * 512 + i) s ≡ some (0, p')
      → j < 512
      → has_flag (m'.content s j) pte_v ≡ true
      → is_a_next_lvl_ptr (m'.content s j) ≡ false
  leaves s p' j e h f = elim (cases s 0 p' e) [
    | inl (sn, _, _) ↦
        absurd
          (true-ne-false f (zero_flag (m'.content s j) (ap (λ z. m'.content z j) sn ∙ g.blank j)))
    | inr (sn, ps) ↦ elim (Bool-cases (s == t && j == i)) [
      | inl here ↦
          let st : s ≡ t = ground arith in
          absurd (omega (arith, (some-inj (sym ps ∙ ap place st ∙ at)).0))
      | inr other ↦
          let same : m'.content s j ≡ m.content s j = g.others s j sn other in
          ap is_a_next_lvl_ptr same
          ∙ tree.leaves s p' j ps h (sym (ap (λ z. has_flag z pte_v) same) ∙ f)
    ]
  ]

  in_use :
      (s l' p' : ℕ) → placed place n l (p * 512 + i) s ≡ some (l', p') → has s m'.free_pages ≡ false
  in_use s l' p' e = elim (cases s l' p' e) [
    | inl (sn, _, _) ↦ ap (λ z. has z m'.free_pages) sn ∙ g.taken
    | inr (sn, ps) ↦ g.free_kept s (tree.in_use s l' p' ps) sn
  ]

  low : (s l' p' : ℕ) → placed place n l (p * 512 + i) s ≡ some (l', p') → l' < 3
  low s l' p' e = elim (cases s l' p' e) [
    | inl (_, ll, _) ↦ omega (arith, tree.low t (suc l) p at)
    | inr (_, ps) ↦ tree.low s l' p' ps
  ]

  pub grow-IsTree : IsTree (placed place n l (p * 512 + i)) root m'
  grow-IsTree = record {
    at_root = old root tree.at_root;
    one_table = one_table;
    low = low;
    down = down;
    linked = linked;
    leaves = leaves;
    in_use = in_use;
  }
