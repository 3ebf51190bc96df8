-- ===== src/Clist/Remove.antt =====
-- `clist_remove` and `clist_pop_front` on a list of nodes.
use rv_mini_os.Prelude.{
  ℕ, ◌≡◌, ◌≢◌, refl, sym, ap, ◌∙◌, true, false, List, [], ◌∷◌, ◌++◌, arith, has, ==_refl, ◌==◌,
  if◌then◌else◌, append_assoc, Distinct-delete, not-has_of_Distinct, has-append,
}
use mathlib.Core.Path.{subst}
use rv_mini_os.Clist.{Heap, null, remove, pop_front}
use rv_mini_os.Clist.Insert.{first_or}
use rv_mini_os.Clist.Ring.{
  Chain, InList, IsClist, Chain-right, next-prev, Chain-keep, InList-keep, in_list_of_has,
}

-- a list without its first element
abbrev pub rest : List ℕ → List ℕ
rest [] = []
rest (x ∷ xs) = xs

module _ (h : Heap) (node : ℕ) (nn : node ≢ null) (busy : h.in_list node ≡ true) where
  next-remove :
      (a : ℕ)
      → h.prev node ≢ node
      → h.next node ≢ node
      → (remove node h).next a
        ≡ (if a == node then node else if a == h.prev node then h.next node else h.next a)
  unfolding remove
  next-remove a p n = ground arith

  prev-remove :
      (a : ℕ)
      → h.prev node ≢ node
      → h.next node ≢ node
      → (remove node h).prev a
        ≡ (if a == node then node else if a == h.next node then h.prev node else h.prev a)
  unfolding remove
  prev-remove a p n = ground arith

  in_list-remove : (a : ℕ) → (remove node h).in_list a ≡ (if a == node then false else h.in_list a)
  unfolding remove
  in_list-remove a = ground arith

  module _ (pn : h.prev node ≢ node) (nn' : h.next node ≢ node) (back : h.next (h.prev node) ≡ node)
      (ahead : h.prev (h.next node) ≡ node) where
    -- the links behind the successor
    keep_behind :
        (q : ℕ) (zs : List ℕ)
        → h.next node ≡ q
        → h.prev q ≡ node
        → has node (q ∷ zs) ≡ false
        → Chain h q zs
        → Chain (remove node h) q zs
    keep_behind q zs e f out c =
        Chain-keep (remove node h) h q zs
          (λ a b n r i j. ground (arith, next-remove a pn nn', prev-remove b pn nn')) c

    Chain-remove :
        (p : ℕ) (xs : List ℕ) (q : ℕ) (zs : List ℕ)
        → has node (p ∷ xs) ≡ false
        → has node (q ∷ zs) ≡ false
        → Chain h p (xs ++ node ∷ q ∷ zs)
        → Chain (remove node h) p (xs ++ q ∷ zs)
    Chain-remove p [] q zs out out' c = (
      ground (arith, next-remove p pn nn'),
      ground (arith, prev-remove q pn nn'),
      keep_behind q zs c.2.0 c.2.1 out' c.2.2,
    )
    Chain-remove p (x ∷ xs) q zs out out' c = (
      ground (arith, next-remove p pn nn'),
      ground (arith, prev-remove x pn nn'),
      Chain-remove x xs q zs (ground arith) out' c.2,
    )

  InList-remove :
      (xs ys : List ℕ)
      → has node (xs ++ ys) ≡ false
      → InList h (xs ++ node ∷ ys)
      → InList (remove node h) (xs ++ ys)
  InList-remove [] ys out f =
      InList-keep (remove node h) h ys (λ a i. ground (arith, in_list-remove a)) f.1
  InList-remove (x ∷ xs) ys out f =
      (ground (arith, in_list-remove x), InList-remove xs ys (ground arith) f.1)

-- the links on both sides of a node
record Between (h : Heap) (head node : ℕ) (xs : List ℕ) (q : ℕ) (zs : List ℕ) : Type 0 where
  chain : Chain h head (xs ++ node ∷ q ∷ zs)
  next_is : h.next node ≡ q
  ahead : h.prev (h.next node) ≡ node
  back : h.next (h.prev node) ≡ node

module _ (h : Heap) (head node : ℕ) where
  Between-of_Chain :
      (xs : List ℕ) (q : ℕ) (zs : List ℕ)
      → Chain h head (xs ++ node ∷ q ∷ zs)
      → Between h head node xs q zs
  Between-of_Chain xs q zs c = record {
    chain = c;
    next_is = (Chain-right h head xs node (q ∷ zs) c).0;
    ahead = ground (arith, Chain-right h head xs node (q ∷ zs) c);
    back = next-prev h head xs node (q ∷ zs) c;
  }

  IsClist-delete :
      (xs ys : List ℕ) (q : ℕ) (zs : List ℕ)
      → ys ++ head ∷ [] ≡ q ∷ zs
      → IsClist h head (xs ++ node ∷ ys)
      → has node (head ∷ xs) ≡ false
      → has node (q ∷ zs) ≡ false
      → IsClist (remove node h) head (xs ++ ys)
  IsClist-delete xs ys q zs e l out out' = record {
    chain =
        rw (append_assoc xs ys (head ∷ []), e)
          (Chain-remove h node nn busy pn nn' b.back b.ahead head xs q zs out out' b.chain);
    flags = InList-remove h node nn busy xs ys out_both l.flags;
    sentinel = ground (arith, in_list-remove h node nn busy head, l.sentinel);
    apart = ground (arith, has-append head xs (node ∷ ys), has-append head xs ys, l.apart);
    distinct = Distinct-delete xs ys node l.distinct;
    non_null = ground (arith, has-append null xs (node ∷ ys), has-append null xs ys, l.non_null);
  }
    where
      nn : node ≢ null
      nn = ground (arith, l.non_null, has-append null xs (node ∷ ys), ==_refl null)

      busy : h.in_list node ≡ true
      busy =
          in_list_of_has h (xs ++ node ∷ ys) node l.flags
            (ground (arith, has-append node xs (node ∷ ys), ==_refl node))

      b : Between h head node xs q zs
      b = Between-of_Chain xs q zs (
          subst (Chain h head)
            (append_assoc xs (node ∷ ys) (head ∷ []) ∙ ap (λ ws. xs ++ node ∷ ws) e) l.chain)

      nn' : h.next node ≢ node
      nn' = ground (arith, b.next_is, ==_refl q)

      pn : h.prev node ≢ node
      pn = ground (arith, b.back, nn')

      out_both : has node (xs ++ ys) ≡ false
      out_both = ground (arith, has-append node xs ys, not-has_of_Distinct xs ys node l.distinct)

  -- `clist_remove` of a node of a well-formed list takes it out, and the other nodes keep their
  -- order. The node then is in no list.
  pub remove-IsClist :
      (xs ys : List ℕ)
      → IsClist h head (xs ++ node ∷ ys)
      → IsClist (remove node h) head (xs ++ ys) × ((remove node h).in_list node ≡ false)
  unfolding remove
  remove-IsClist xs ys l = (
    kept ys l,
    ground (arith, ==_refl node, l.non_null, has-append null xs (node ∷ ys), ==_refl null),
  )
    where
      node-ne-head : (zs : List ℕ) → IsClist h head (xs ++ node ∷ zs) → node ≢ head
      node-ne-head zs k = ground (arith, k.apart, has-append head xs (node ∷ zs), ==_refl node)

      kept :
          (zs : List ℕ) → IsClist h head (xs ++ node ∷ zs) → IsClist (remove node h) head (xs ++ zs)
      kept [] k =
          IsClist-delete xs [] head [] refl k
            (ground (arith, node-ne-head [] k, not-has_of_Distinct xs [] node k.distinct))
            (ground (arith, node-ne-head [] k))
      kept (y ∷ zs) k =
          IsClist-delete xs (y ∷ zs) y (zs ++ head ∷ []) refl k
            (ground
              (arith, node-ne-head (y ∷ zs) k, not-has_of_Distinct xs (y ∷ zs) node k.distinct))
            (ground (
              arith,
              node-ne-head (y ∷ zs) k,
              not-has_of_Distinct xs (y ∷ zs) node k.distinct,
              has-append node zs (head ∷ []),
            ))

-- On a well-formed list, `clist_pop_front` gives NULL and changes nothing if it is empty; else it
-- takes out the first node and gives it.
pub pop_front-IsClist :
    (h : Heap) (head : ℕ) (xs : List ℕ)
    → IsClist h head xs
    → IsClist (pop_front head h).1 head (rest xs) × ((pop_front head h).0 ≡ first_or xs null)
unfolding pop_front
pop_front-IsClist h head [] l =
    let e : (h.next head == head) ≡ true = ground (arith, ==_refl head) in (rw e l, rw e)
pop_front-IsClist h head (x ∷ xs) l =
    let e : (h.next head == head) ≡ false = ground (arith, ==_refl x) in
    (
      rw e (
          subst (λ n. IsClist (remove n h) head xs) (sym l.chain.0)
            (remove-IsClist h head x [] xs l).0),
      rw e l.chain.0,
    )
