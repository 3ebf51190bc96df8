-- ===== src/Clist/Search.antt =====
-- `clist_find` and `clist_find_rev` on a list of nodes.
use rv_mini_os.Prelude.{
  ℕ, zero, suc, ◌≡◌, ◌<◌, sym, ap, ◌∙◌, Bool, false, List, [], ◌∷◌, ◌++◌, arith, has, ==_refl,
  append_assoc, length, Option, none, some, find?, length-reverse_aux, has-reverse_aux,
}
use mathlib.Core.Path.{subst}
use mathlib.Core.List.{reverse, reverse-append, reverse-reverse}
use rv_mini_os.Clist.{Heap, null, find_loop, find, find_rev_loop, find_rev}
use rv_mini_os.Clist.Insert.{first_or}
use rv_mini_os.Clist.Ring.{Chain, IsClist, Chain-right}

-- NULL, or the node that is found
abbrev pub or_null : Option ℕ → ℕ
or_null none = null
or_null (some x) = x

pub next-first :
    (h : Heap) (head p : ℕ) (xs : List ℕ)
    → Chain h p (xs ++ head ∷ [])
    → h.next p ≡ first_or xs head
next-first h head p [] c = c.0
next-first h head p (x ∷ xs) c = c.0

module _ (h : Heap) (pred : ℕ → Bool) (head : ℕ) where
  find_loop_lem :
      (fuel p : ℕ) (xs : List ℕ)
      → length xs < fuel
      → has head xs ≡ false
      → Chain h p (xs ++ head ∷ [])
      → find_loop fuel pred head (h.next p) h ≡ some (or_null (find? pred xs))
  unfolding find_loop
  find_loop_lem zero p xs m out c = elim m [ ]
  find_loop_lem (suc fuel) p [] m out c = ground (arith, ==_refl head)
  find_loop_lem (suc fuel) p (x ∷ xs) m out c =
      ground (arith, find_loop_lem fuel x xs (omega arith) (ground arith) c.2, ==_refl x)

  -- With fuel for each node, `clist_find` on a well-formed list gives the first node that passes
  -- the test, or NULL.
  pub find-eq-find? :
      (fuel : ℕ) (xs : List ℕ)
      → IsClist h head xs
      → length xs < fuel
      → find fuel pred head h ≡ some (or_null (find? pred xs))
  unfolding find
  find-eq-find? fuel xs l m = find_loop_lem fuel head xs m l.apart l.chain

  find_rev_loop_lem :
      (fuel q : ℕ) (zs ys : List ℕ)
      → length zs < fuel
      → has head zs ≡ false
      → Chain h head (reverse zs ++ q ∷ ys)
      → find_rev_loop fuel pred head (h.prev q) h ≡ some (or_null (find? pred zs))
  unfolding find_rev_loop
  find_rev_loop_lem zero q zs ys m out c = elim m [ ]
  find_rev_loop_lem (suc fuel) q [] ys m out c = ground (arith, ==_refl head)
  find_rev_loop_lem (suc fuel) q (z ∷ zs) ys m out c =
      let c' : Chain h head (reverse zs ++ z ∷ q ∷ ys) =
        subst (Chain h head)
          (ap (λ ws. ws ++ q ∷ ys) (reverse-append (z ∷ []) zs)
            ∙ append_assoc (reverse zs) (z ∷ []) (q ∷ ys))
          c in
      ground (
        arith,
        find_rev_loop_lem fuel z zs (q ∷ ys) (omega arith) (ground arith) c',
        Chain-right h head (reverse zs) z (q ∷ ys) c',
        ==_refl z,
      )

  -- With fuel for each node, `clist_find_rev` on a well-formed list gives the last node that passes
  -- the test, or NULL.
  pub find_rev-eq-find? :
      (fuel : ℕ) (xs : List ℕ)
      → IsClist h head xs
      → length xs < fuel
      → find_rev fuel pred head h ≡ some (or_null (find? pred (reverse xs)))
  unfolding find_rev
  find_rev-eq-find? fuel xs l m =
      find_rev_loop_lem fuel head (reverse xs) [] (omega (arith, length-reverse_aux xs []))
        (ground (arith, has-reverse_aux head xs [], l.apart))
        (subst (λ ws. Chain h head (ws ++ head ∷ [])) (sym (reverse-reverse xs)) l.chain)
