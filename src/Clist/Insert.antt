-- ===== src/Clist/Insert.antt =====
-- Insertion: `clist_insert_before`, `clist_insert_after` and what is built on them.
use rv_mini_os.Prelude.{
  ℕ, ◌≡◌, ◌≢◌, refl, ◌∙◌, true, false, List, [], ◌∷◌, ◌++◌, arith, has, has-append, ==_refl, ◌==◌,
  if◌then◌else◌, append_assoc, not-has_of_Distinct, Distinct-insert, ap,
}
use mathlib.Core.Path.{subst}
use rv_mini_os.Clist.{Heap, null, insert_before}
use rv_mini_os.Clist.Ring.{
  Chain, InList, IsClist, next-prev, Chain-keep, InList-keep, not-has_of_free,
}

module _ (h : Heap) (pos node : ℕ) (free : h.in_list node ≡ false) (ne : node ≢ pos) where
  next-insert_before :
      (a : ℕ)
      → (insert_before pos node h).next a
        ≡ (if a == h.prev pos then node else if a == node then pos else h.next a)
  unfolding insert_before
  next-insert_before a = ground arith

  prev-insert_before :
      (a : ℕ)
      → (insert_before pos node h).prev a
        ≡ (if a == pos then node else if a == node then h.prev pos else h.prev a)
  unfolding insert_before
  prev-insert_before a = ground arith

  in_list-insert_before :
      (a : ℕ) → (insert_before pos node h).in_list a ≡ (if a == node then true else h.in_list a)
  unfolding insert_before
  in_list-insert_before a = ground arith

  -- The links behind `pos` stay.
  keep_behind :
      (ys : List ℕ)
      → h.next (h.prev pos) ≡ pos
      → has pos ys ≡ false
      → has node ys ≡ false
      → Chain h pos ys
      → Chain (insert_before pos node h) pos ys
  keep_behind ys back out fresh c =
      Chain-keep (insert_before pos node h) h pos ys
        (λ a b n r i j. ground (arith, next-insert_before a, prev-insert_before b)) c

  -- The node comes to stand before `pos`.
  Chain-insert_before :
      (p : ℕ) (xs ys : List ℕ)
      → h.next (h.prev pos) ≡ pos
      → has pos xs ≡ false
      → has pos ys ≡ false
      → has node (p ∷ xs) ≡ false
      → has node ys ≡ false
      → Chain h p (xs ++ pos ∷ ys)
      → Chain (insert_before pos node h) p (xs ++ node ∷ pos ∷ ys)
  Chain-insert_before p [] ys back out out' fresh fresh' c = (
    ground (arith, next-insert_before p),
    ground (arith, prev-insert_before node),
    (
      ground (arith, next-insert_before node),
      ground (arith, prev-insert_before pos),
      keep_behind ys back out' fresh' c.2,
    ),
  )
  Chain-insert_before p (x ∷ xs) ys back out out' fresh fresh' c = (
    ground (arith, next-insert_before p),
    ground (arith, prev-insert_before x),
    Chain-insert_before x xs ys back (ground arith) out' (ground arith) fresh' c.2,
  )

  InList-insert_before :
      (xs ys : List ℕ) → InList h (xs ++ ys) → InList (insert_before pos node h) (xs ++ node ∷ ys)
  InList-insert_before [] ys f = (
    ground (arith, in_list-insert_before node, ==_refl node),
    InList-keep (insert_before pos node h) h ys
        (λ a i. ground (arith, in_list-insert_before a, not-has_of_free h ys node f free)) f,
  )
  InList-insert_before (x ∷ xs) ys f =
      (ground (arith, in_list-insert_before x), InList-insert_before xs ys f.1)

-- the node before which an element is put between `xs` and `ys`
abbrev pub first_or : List ℕ → ℕ → ℕ
first_or [] head = head
first_or (y ∷ ys) head = y

module _ (h : Heap) (head node : ℕ) (free : h.in_list node ≡ false) (ne : node ≢ head) where
  IsClist-insert :
      (xs ys : List ℕ) (pos : ℕ) (zs : List ℕ)
      → ys ++ head ∷ [] ≡ pos ∷ zs
      → IsClist h head (xs ++ ys)
      → node ≢ pos
      → node ≢ null
      → has pos xs ≡ false
      → has pos zs ≡ false
      → has node zs ≡ false
      → IsClist (insert_before pos node h) head (xs ++ node ∷ ys)
  IsClist-insert xs ys pos zs e l np nn out out' fresh = record {
    chain =
        rw (append_assoc xs (node ∷ ys) (head ∷ []), e)
          (Chain-insert_before h pos node free np head xs zs (next-prev h head xs pos zs chain) out
            out' (ground (arith, fresh_xs, has-append node xs ys)) fresh chain);
    flags = InList-insert_before h pos node free np xs ys l.flags;
    sentinel = ground (arith, in_list-insert_before h pos node free np head, l.sentinel);
    apart = ground (arith, has-append head xs (node ∷ ys), has-append head xs ys, l.apart);
    distinct = Distinct-insert xs ys node fresh_xs l.distinct;
    non_null = ground (arith, has-append null xs (node ∷ ys), has-append null xs ys, l.non_null);
  }
    where
      fresh_xs : has node (xs ++ ys) ≡ false
      fresh_xs = not-has_of_free h (xs ++ ys) node l.flags free

      chain : Chain h head (xs ++ pos ∷ zs)
      chain = subst (Chain h head) (append_assoc xs ys (head ∷ []) ∙ ap (λ ws. xs ++ ws) e) l.chain

  -- `clist_insert_before` puts a node that is in no list, not NULL and not the sentinel, between
  -- the two parts of a well-formed list, at the first node of the second part, or at the sentinel
  -- if there is none.
  pub insert_before-IsClist :
      (xs ys : List ℕ)
      → IsClist h head (xs ++ ys)
      → node ≢ null
      → IsClist (insert_before (first_or ys head) node h) head (xs ++ node ∷ ys)
  insert_before-IsClist xs [] l nn =
      IsClist-insert xs [] head [] refl l ne nn (ground (arith, has-append head xs [], l.apart))
        refl refl
  insert_before-IsClist xs (y ∷ ys) l nn =
      IsClist-insert xs (y ∷ ys) y (ys ++ head ∷ []) refl l
        (ground (arith, fresh, has-append node xs (y ∷ ys), ==_refl y)) nn
        (not-has_of_Distinct xs ys y l.distinct).0
        (ground (
          arith,
          not-has_of_Distinct xs ys y l.distinct,
          has-append y ys (head ∷ []),
          l.apart,
          has-append head xs (y ∷ ys),
          ==_refl y,
        ))
        (ground (arith, fresh, has-append node xs (y ∷ ys), has-append node ys (head ∷ [])))
    where
      fresh : has node (xs ++ y ∷ ys) ≡ false
      fresh = not-has_of_free h (xs ++ y ∷ ys) node l.flags free
