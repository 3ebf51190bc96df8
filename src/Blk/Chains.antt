-- ===== src/Blk/Chains.antt =====
-- The descriptors of the block driver's queue as a free list and chains in flight.
use rv_mini_os.Prelude.{
  ℕ, ◌%◌, ◌<◌, ◌≡◌, refl, sym, ap, true, false, List, [], ◌∷◌, ◌++◌, arith, ◌==◌, update, has,
  has-append, Distinct, Distinct-insert, Distinct-delete, not-has_of_Distinct,
}
use rv_mini_os.Blk.{Desc, Driver, Target}

-- The descriptors of a request in flight, from its head on.
pub record Chain : Type 0 where
  pub head : ℕ
  pub body : ℕ
  pub last : ℕ
  pub req : ℕ

abbrev pub taken : List Chain → List ℕ
taken [] = []
taken (c ∷ cs) = c.head ∷ c.body ∷ c.last ∷ taken cs

-- From `i` on, the `next` fields lead through `xs`.
abbrev pub Links : (ℕ → Desc) → ℕ → List ℕ → Type 0
Links desc i [] = Unit
Links desc i (x ∷ xs) = (i ≡ x) × Links desc (desc x).next xs

-- The three descriptors of a request, from its header to its status.
pub record IsChain (desc : ℕ → Desc) (inflight : ℕ → ℕ) (c : Chain) : Type 0 where
  pub head_goes_on : (desc c.head).flags % 2 ≡ 1
  pub body_goes_on : (desc c.body).flags % 2 ≡ 1
  pub last_ends : (desc c.last).flags % 2 ≡ 0
  pub head_next : (desc c.head).next ≡ c.body
  pub body_next : (desc c.body).next ≡ c.last
  pub hdr : (desc c.head).addr ≡ Target.hdr_of c.req
  pub status : (desc c.last).addr ≡ Target.status_of c.req
  pub known : inflight c.head ≡ c.req

abbrev pub Held : (ℕ → Desc) → (ℕ → ℕ) → List Chain → Type 0
Held desc inflight [] = Unit
Held desc inflight (c ∷ cs) = IsChain desc inflight c × Held desc inflight cs

-- The driver has the free descriptors `free`, in the order of the list, and the chains `busy` in
-- flight. No descriptor stands twice, and all are in the table.
pub record IsRing (d : Driver) (free : List ℕ) (busy : List Chain) : Type 0 where
  pub links : Links d.desc d.free_head_idx free
  pub held : Held d.desc d.inflight busy
  pub distinct : Distinct (free ++ taken busy)
  pub inside : (x : ℕ) → has x (free ++ taken busy) ≡ true → x < d.num

-- What is in a list is not what is out of it.
pub in-ne-out : (x a : ℕ) (xs : List ℕ) → has x xs ≡ true → has a xs ≡ false → (x == a) ≡ false
in-ne-out x a [] h g = absurd (ground arith)
in-ne-out x a (y ∷ ys) h g = ground (arith, in-ne-out x a ys)

abbrev pub Agree : (ℕ → Desc) → (ℕ → Desc) → List ℕ → Type 0
Agree f g xs = (x : ℕ) → has x xs ≡ true → f x ≡ g x

pub Agree-tail : (f g : ℕ → Desc) (y : ℕ) (ys : List ℕ) → Agree f g (y ∷ ys) → Agree f g ys
Agree-tail f g y ys h x i = h x (ground arith)

-- A write at a descriptor out of a list.
pub Agree-update :
    (f g : ℕ → Desc) (a : ℕ) (v : Desc) (xs : List ℕ)
    → has a xs ≡ false
    → Agree f g xs
    → Agree f (update g a v) xs
Agree-update f g a v xs out h x i = rw (in-ne-out x a xs i out) (h x i)

pub Agree-refl : (f : ℕ → Desc) (xs : List ℕ) → Agree f f xs
Agree-refl f xs x i = refl

pub Links-frame :
    (f g : ℕ → Desc) (i : ℕ) (xs : List ℕ) → Agree f g xs → Links f i xs → Links g i xs
Links-frame f g i [] h l = tt
Links-frame f g i (x ∷ xs) h l =
    (l.0, Links-frame f g (g x).next xs (Agree-tail f g x xs h) (rw (sym (h x (ground arith))) l.1))

IsChain-frame :
    (f g : ℕ → Desc) (u v : ℕ → ℕ) (c : Chain)
    → f c.head ≡ g c.head
    → f c.body ≡ g c.body
    → f c.last ≡ g c.last
    → u c.head ≡ v c.head
    → IsChain f u c
    → IsChain g v c
IsChain-frame f g u v c p q r s h = record {
  head_goes_on = rw (sym p) h.head_goes_on;
  body_goes_on = rw (sym q) h.body_goes_on;
  last_ends = rw (sym r) h.last_ends;
  head_next = rw (sym p) h.head_next;
  body_next = rw (sym q) h.body_next;
  hdr = rw (sym p) h.hdr;
  status = rw (sym r) h.status;
  known = rw (sym s) h.known;
}

-- Writes out of the chains do not change them.
pub Held-frame :
    (f g : ℕ → Desc) (u v : ℕ → ℕ) (cs : List Chain)
    → Agree f g (taken cs)
    → ((x : ℕ) → has x (taken cs) ≡ true → u x ≡ v x)
    → Held f u cs
    → Held g v cs
Held-frame f g u v [] a b h = tt
Held-frame f g u v (c ∷ cs) a b h = (
  IsChain-frame f g u v c (a c.head (ground arith)) (a c.body (ground arith))
      (a c.last (ground arith)) (b c.head (ground arith)) h.0,
  Held-frame f g u v cs (λ x i. a x (ground arith)) (λ x i. b x (ground arith)) h.1,
)

pub taken-append : (cs ds : List Chain) → taken (cs ++ ds) ≡ taken cs ++ taken ds
taken-append [] ds = refl
taken-append (c ∷ cs) ds = ap (λ l. c.head ∷ c.body ∷ c.last ∷ l) (taken-append cs ds)

pub Held-split :
    (f : ℕ → Desc) (u : ℕ → ℕ) (cs ds : List Chain) (c : Chain)
    → Held f u (cs ++ c ∷ ds)
    → IsChain f u c × Held f u (cs ++ ds)
Held-split f u [] ds c h = h
Held-split f u (b ∷ cs) ds c h =
    ((Held-split f u cs ds c h.1).0, (h.0, (Held-split f u cs ds c h.1).1))

module _ (a b c : ℕ) (xs ys : List ℕ) where
  -- Three elements behind a list, or before it.
  pub has-move : (x : ℕ) → has x (xs ++ a ∷ b ∷ c ∷ ys) ≡ has x (a ∷ b ∷ c ∷ (xs ++ ys))
  has-move x = ground (arith, has-append x xs (a ∷ b ∷ c ∷ ys), has-append x xs ys)

  pub Distinct-move : Distinct (a ∷ b ∷ c ∷ (xs ++ ys)) → Distinct (xs ++ a ∷ b ∷ c ∷ ys)
  Distinct-move d =
      let third = Distinct-insert xs ys c d.1.1.0 d.1.1.1 in
      let out_b : has b (xs ++ c ∷ ys) ≡ false =
        ground (arith, has-append b xs (c ∷ ys), has-append b xs ys, d.1.0) in
      let second = Distinct-insert xs (c ∷ ys) b out_b third in
      let out_a : has a (xs ++ b ∷ c ∷ ys) ≡ false =
        ground (arith, has-append a xs (b ∷ c ∷ ys), has-append a xs ys, d.0) in
      Distinct-insert xs (b ∷ c ∷ ys) a out_a second

  pub Distinct-back : Distinct (xs ++ a ∷ b ∷ c ∷ ys) → Distinct (a ∷ b ∷ c ∷ (xs ++ ys))
  Distinct-back d =
      let da = Distinct-delete xs (b ∷ c ∷ ys) a d in
      let db = Distinct-delete xs (c ∷ ys) b da in
      let na = not-has_of_Distinct xs (b ∷ c ∷ ys) a d in
      let nb = not-has_of_Distinct xs (c ∷ ys) b da in
      let nc = not-has_of_Distinct xs ys c db in
      (
        ground (arith, na, has-append a xs ys),
        (
          ground (arith, nb, has-append b xs ys),
          (ground (arith, nc, has-append c xs ys), Distinct-delete xs ys c db),
        ),
      )
