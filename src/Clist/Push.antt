-- ===== src/Clist/Push.antt =====
-- `clist_insert_after`, `clist_push_back` and `clist_push_front` on a list of nodes.
use rv_mini_os.Prelude.{
  ℕ, ◌≡◌, ◌≢◌, sym, true, false, List, [], ◌∷◌, ◌++◌, arith, has, ==_refl, if◌then◌else◌,
  append-nil, Bool-cases, inl, inr,
}
use mathlib.Core.Path.{subst}
use rv_mini_os.Clist.{Heap, null, insert_before, insert_after, push_back, push_front}
use rv_mini_os.Clist.Ring.{IsClist, not-has_of_free}
use rv_mini_os.Clist.Insert.{first_or, insert_before-IsClist}

Heap_ext :
    (g h : Heap)
    → ((a : ℕ) → g.next a ≡ h.next a)
    → ((a : ℕ) → g.prev a ≡ h.prev a)
    → ((a : ℕ) → g.in_list a ≡ h.in_list a)
    → g ≡ h
Heap_ext g h n p f = λ i. record { next = λ a. n a i; prev = λ a. p a i; in_list = λ a. f a i }

insert_before_busy :
    (h : Heap) (pos node : ℕ) → h.in_list node ≡ true → insert_before pos node h ≡ h
unfolding insert_before
insert_before_busy h pos node e = rw e

insert_after_busy : (h : Heap) (pos node : ℕ) → h.in_list node ≡ true → insert_after pos node h ≡ h
unfolding insert_after
insert_after_busy h pos node e = rw e

-- Where the links agree, inserting after a node is inserting before its successor.
insert_after-eq-insert_before :
    (h : Heap) (pos node : ℕ)
    → h.prev (h.next pos) ≡ pos
    → node ≢ pos
    → node ≢ h.next pos
    → insert_after pos node h ≡ insert_before (h.next pos) node h
unfolding insert_after insert_before
insert_after-eq-insert_before h pos node back ne ne' =
    Heap_ext (insert_after pos node h) (insert_before (h.next pos) node h) (λ a. ground arith)
      (λ a. ground arith) (λ a. ground arith)

next-head :
    (h : Heap) (head : ℕ) (xs : List ℕ)
    → IsClist h head xs
    → (h.next head ≡ first_or xs head) × (h.prev (h.next head) ≡ head)
next-head h head [] l = ground arith
next-head h head (x ∷ xs) l = ground arith

-- On a well-formed list, `clist_push_back` of a node that is neither NULL nor the sentinel makes it
-- the last one if it is in no list, and else leaves the list alone.
pub push_back-IsClist :
    (h : Heap) (head node : ℕ) (xs : List ℕ)
    → IsClist h head xs
    → node ≢ head
    → node ≢ null
    → IsClist (push_back head node h) head (if h.in_list node then xs else xs ++ node ∷ [])
unfolding push_back
push_back-IsClist h head node xs l ne nn = elim (Bool-cases (h.in_list node)) [
  | inl busy ↦ rw (busy, insert_before_busy h head node busy) l
  | inr free ↦ rw free (
      insert_before-IsClist h head node free ne xs []
        (subst (IsClist h head) (sym (append-nil xs)) l) nn)
]

-- On a well-formed list, `clist_push_front` of a node that is neither NULL nor the sentinel makes
-- it the first one if it is in no list, and else leaves the list alone.
pub push_front-IsClist :
    (h : Heap) (head node : ℕ) (xs : List ℕ)
    → IsClist h head xs
    → node ≢ head
    → node ≢ null
    → IsClist (push_front head node h) head (if h.in_list node then xs else node ∷ xs)
unfolding push_front
push_front-IsClist h head node xs l ne nn = elim (Bool-cases (h.in_list node)) [
  | inl busy ↦ rw (busy, insert_after_busy h head node busy) l
  | inr free ↦
      rw
        (
          free,
          insert_after-eq-insert_before h head node (next-head h head xs l).1 ne (
              ground (
                arith,
                next-head h head xs l,
                ne_first xs (not-has_of_free h xs node l.flags free),
              )),
          (next-head h head xs l).0,
        )
        (insert_before-IsClist h head node free ne [] xs l nn)
]
  where
    ne_first : (ys : List ℕ) → has node ys ≡ false → node ≢ first_or ys head
    ne_first [] f = ne
    ne_first (y ∷ ys) f = ground (arith, ==_refl y)
