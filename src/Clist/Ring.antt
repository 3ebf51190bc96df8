-- ===== src/Clist/Ring.antt =====
-- What a clist stands for: the list of its nodes, and how chains split and survive writes.
use rv_mini_os.Prelude.{ℕ, ◌≡◌, true, false, List, [], ◌∷◌, ◌++◌, arith, has, Distinct, ==_refl}
use rv_mini_os.Clist.{Heap, null}

-- From `p` the `next` fields lead through `xs`, and the `prev` fields lead back.
abbrev pub Chain : Heap → ℕ → List ℕ → Type 0
Chain h p [] = Unit
Chain h p (x ∷ xs) = (h.next p ≡ x) × (h.prev x ≡ p) × Chain h x xs

abbrev pub InList : Heap → List ℕ → Type 0
InList h [] = Unit
InList h (x ∷ xs) = (h.in_list x ≡ true) × InList h xs

-- `head` is the sentinel of a circular list of the nodes `xs`.
pub record IsClist (h : Heap) (head : ℕ) (xs : List ℕ) : Type 0 where
  pub chain : Chain h head (xs ++ head ∷ [])
  pub flags : InList h xs
  pub sentinel : h.in_list head ≡ false
  pub apart : has head xs ≡ false
  pub distinct : Distinct xs
  pub non_null : has null xs ≡ false

pub Chain-left :
    (h : Heap) (p : ℕ) (xs : List ℕ) (q : ℕ) (ys : List ℕ)
    → Chain h p (xs ++ q ∷ ys)
    → Chain h p (xs ++ q ∷ [])
Chain-left h p [] q ys c = (c.0, c.1, tt)
Chain-left h p (x ∷ xs) q ys c = (c.0, c.1, Chain-left h x xs q ys c.2)

pub Chain-right :
    (h : Heap) (p : ℕ) (xs : List ℕ) (q : ℕ) (ys : List ℕ) → Chain h p (xs ++ q ∷ ys) → Chain h q ys
Chain-right h p [] q ys c = c.2
Chain-right h p (x ∷ xs) q ys c = Chain-right h x xs q ys c.2

-- The predecessor of a node of the chain points back to it.
pub next-prev :
    (h : Heap) (p : ℕ) (xs : List ℕ) (q : ℕ) (ys : List ℕ)
    → Chain h p (xs ++ q ∷ ys)
    → h.next (h.prev q) ≡ q
next-prev h p [] q ys c = ground arith
next-prev h p (x ∷ xs) q ys c = next-prev h x xs q ys c.2

-- A chain survives a change that spares the `next` and `prev` fields of each of its links.
pub Chain-keep :
    (g h : Heap) (p : ℕ) (xs : List ℕ)
    → ((a b : ℕ)
        → h.next a ≡ b
        → h.prev b ≡ a
        → has a (p ∷ xs) ≡ true
        → has b xs ≡ true
        → (g.next a ≡ b) × (g.prev b ≡ a))
    → Chain h p xs
    → Chain g p xs
Chain-keep g h p [] same c = tt
Chain-keep g h p (x ∷ xs) same c = (
  (same p x c.0 c.1 (ground (arith, ==_refl p)) (ground (arith, ==_refl x))).0,
  (same p x c.0 c.1 (ground (arith, ==_refl p)) (ground (arith, ==_refl x))).1,
  Chain-keep g h x xs (λ a b n r j i. same a b n r (ground arith) (ground arith)) c.2,
)

pub InList-keep :
    (g h : Heap) (xs : List ℕ)
    → ((a : ℕ) → has a xs ≡ true → g.in_list a ≡ h.in_list a)
    → InList h xs
    → InList g xs
InList-keep g h [] same c = tt
InList-keep g h (x ∷ xs) same c = (
  ground (arith, same x (ground (arith, ==_refl x))),
  InList-keep g h xs (λ a i. same a (ground arith)) c.1,
)

pub in_list_of_has :
    (h : Heap) (xs : List ℕ) (a : ℕ) → InList h xs → has a xs ≡ true → h.in_list a ≡ true
in_list_of_has h [] a f i = absurd (ground arith)
in_list_of_has h (x ∷ xs) a f i = ground (arith, in_list_of_has h xs a f.1)

-- A node that is in no list is not among the nodes of a clist.
pub not-has_of_free :
    (h : Heap) (xs : List ℕ) (a : ℕ) → InList h xs → h.in_list a ≡ false → has a xs ≡ false
not-has_of_free h xs a f e = ground (arith, in_list_of_has h xs a f)
