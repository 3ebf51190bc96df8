-- ===== src/Fs/Kept.antt =====
-- Changes of a block cache after which it shows of every block what it showed before.
use rv_mini_os.Prelude.{
  ℕ, ◌≡◌, ◌≢◌, inl, inr, refl, sym, ap, ◌∙◌, Bool, true, false, List, arith, ◌==◌, ==_iff, ==_refl,
  has, Bool-cases,
}
use rv_mini_os.Fs.Bcache.{Bytes, Cblk, Cache, no_blkno, set_cblk}
use rv_mini_os.Fs.Contents.{
  IsCache, Shows, NoBuffer, contents, block_on_disk, seen_in, contents-Shows, Shows-contents,
}

-- `c'` is a cache as well, and shows of every block what `c` shows.
pub record Kept (c c' : Cache) : Type 0 where
  pub well : IsCache c'
  pub same : (k : ℕ) (v : Bytes) → k ≢ no_blkno → Shows c k v → Shows c' k v

pub Kept-refl : (c : Cache) → IsCache c → Kept c c
Kept-refl c w = record { well = w; same = λ k v numbered s. s }

pub Kept-trans : {c c1 c2 : Cache} → Kept c c1 → Kept c1 c2 → Kept c c2
Kept-trans p q = record {
  well = q.well;
  same = λ k v numbered s. q.same k v numbered (p.same k v numbered s);
}

pub Kept-contents :
    {c c' : Cache} → Kept c c' → (k : ℕ) → k ≢ no_blkno → contents c' k ≡ contents c k
Kept-contents {c} {c'} p k numbered =
    Shows-contents k c' (contents c k) p.well numbered
      (p.same k (contents c k) numbered (contents-Shows k c))

-- A buffer that changes, but neither its block nor what it shows, keeps what the cache shows.
pub set_cblk-Kept :
    (c : Cache) (b : ℕ) (v : Cblk)
    → IsCache c
    → v.blkno ≡ (c.cblk b).blkno
    → seen_in (set_cblk b v c) b v.blkno ≡ seen_in c b v.blkno
    → (v.valid ≡ true → v.dirty ≡ false → v.buf ≡ block_on_disk c v.blkno)
    → Kept c (set_cblk b v c)
set_cblk-Kept c b v w numbers shows clean = record {
  well = record {
    unique = λ x y hx hy e numbered.
        w.unique x y hx hy (sym (blkno_of x) ∙ e ∙ blkno_of y) (λ z. numbered (blkno_of x ∙ z));
    clean = λ x hx valid settled. elim (Bool-cases (x == b)) [
      | inl at ↦ rw at (clean (rw at at valid) (rw at at settled))
      | inr other ↦ rw other (w.clean x hx (rw other at valid) (rw other at settled))
    ];
  };
  same = λ k u numbered s. elim s [
    | inl r ↦ inl (record {
      index = r.index;
      listed = r.listed;
      of_block = blkno_of r.index ∙ r.of_block;
      shows = shows_of r.index k r.of_block ∙ r.shows;
    })
    | inr (none_of, e) ↦ inr (λ x hx z. none_of x hx (sym (blkno_of x) ∙ z), e)
  ];
}
  where
    blkno_of : (x : ℕ) → ((set_cblk b v c).cblk x).blkno ≡ (c.cblk x).blkno
    blkno_of x = ground (arith, ==_iff x b)

    shows_of : (x k : ℕ) → (c.cblk x).blkno ≡ k → seen_in (set_cblk b v c) x k ≡ seen_in c x k
    shows_of x k e = elim (Bool-cases (x == b)) [
      | inl at ↦
          let same : x ≡ b = (==_iff x b).0 at in
          let number : k ≡ v.blkno = sym e ∙ ap (λ z. (c.cblk z).blkno) same ∙ sym numbers in
          rw (same, number) shows
      | inr other ↦ rw other
    ]

pub relist-Kept :
    (c : Cache) (bs : List ℕ)
    → IsCache c
    → ((x : ℕ) → has x bs ≡ has x c.buf_list)
    → Kept c (record c { buf_list = bs })
relist-Kept c bs w members = record {
  well = record {
    unique = λ x y hx hy. w.unique x y (sym (members x) ∙ hx) (sym (members y) ∙ hy);
    clean = λ x hx. w.clean x (sym (members x) ∙ hx);
  };
  same = λ k u numbered s. elim s [
    | inl r ↦ inl (record {
      index = r.index;
      listed = members r.index ∙ r.listed;
      of_block = r.of_block;
      shows = r.shows;
    })
    | inr (none_of, e) ↦ inr (λ x hx. none_of x (sym (members x) ∙ hx), e)
  ];
}

-- the change of a count of references or a mutex
pub touch-Kept :
    (c : Cache) (b counted : ℕ) (held : Bool)
    → IsCache c
    → has b c.buf_list ≡ true
    → Kept c (set_cblk b (record (c.cblk b) { refcnt = counted; held = held }) c)
touch-Kept c b counted held w listed =
    set_cblk-Kept c b (record (c.cblk b) { refcnt = counted; held = held }) w refl (rw (==_refl b))
      (w.clean b listed)

-- A buffer that no task uses and that is clean takes a block that has no buffer.
pub reassign-Kept :
    (c : Cache) (b n : ℕ)
    → IsCache c
    → has b c.buf_list ≡ true
    → (c.cblk b).dirty ≡ false
    → NoBuffer c n
    → Kept c (set_cblk b (record (c.cblk b) { blkno = n; valid = false }) c)
reassign-Kept c b n w listed settled none_of = record {
  well = record { unique = unique; clean = clean };
  same = λ k u numbered s. elim s [
    | inl r ↦ elim (Bool-cases (r.index == b)) [
      | inl at ↦
          let mine : r.index ≡ b = (==_iff r.index b).0 at in
          inr (
            dropped k numbered (rw mine at r.of_block),
            sym (on_disk k (rw mine at r.of_block)) ∙ (rw mine at r.shows),
          )
      | inr other ↦ inl (record {
        index = r.index;
        listed = r.listed;
        of_block = rw other r.of_block;
        shows = rw other r.shows;
      })
    ]
    | inr (none_k, e) ↦ elim (Bool-cases (k == n)) [
      | inl at ↦ inl (record {
        index = b;
        listed = listed;
        of_block = rw (==_refl b) (sym ((==_iff k n).0 at));
        shows = rw (==_refl b) e;
      })
      | inr other ↦ inr (λ x hx. still_none k other none_k x hx, e)
    ]
  ];
}
  where
    c' : Cache
    c' = set_cblk b (record (c.cblk b) { blkno = n; valid = false }) c

    unique :
        (x y : ℕ)
        → has x c.buf_list ≡ true
        → has y c.buf_list ≡ true
        → (c'.cblk x).blkno ≡ (c'.cblk y).blkno
        → (c'.cblk x).blkno ≢ no_blkno
        → x ≡ y
    unique x y hx hy e numbered = elim (Bool-cases (x == b)) [
      | inl at ↦ elim (Bool-cases (y == b)) [
        | inl at' ↦ (==_iff x b).0 at ∙ sym ((==_iff y b).0 at')
        | inr other ↦ absurd (none_of y hy (sym (rw (at, other) at e)))
      ]
      | inr other ↦ elim (Bool-cases (y == b)) [
        | inl at ↦ absurd (none_of x hx (rw (at, other) at e))
        | inr other' ↦ w.unique x y hx hy (rw (other, other') at e) (rw other at numbered)
      ]
    ]

    clean :
        (x : ℕ)
        → has x c.buf_list ≡ true
        → (c'.cblk x).valid ≡ true
        → (c'.cblk x).dirty ≡ false
        → (c'.cblk x).buf ≡ block_on_disk c (c'.cblk x).blkno
    clean x hx valid clear = elim (Bool-cases (x == b)) [
      | inl at ↦ ground (arith, rw at at valid)
      | inr other ↦ rw other (w.clean x hx (rw other at valid) (rw other at clear))
    ]

    on_disk : (k : ℕ) → (c.cblk b).blkno ≡ k → seen_in c b k ≡ block_on_disk c k
    on_disk k e = elim (Bool-cases (c.cblk b).valid) [
      | inl valid ↦ rw valid (w.clean b listed valid settled ∙ ap (block_on_disk c) e)
      | inr stale ↦ rw stale
    ]

    dropped : (k : ℕ) → k ≢ no_blkno → (c.cblk b).blkno ≡ k → NoBuffer c' k
    dropped k numbered e x hx z = elim (Bool-cases (x == b)) [
      | inl at ↦ none_of b listed (e ∙ sym (rw at at z))
      | inr other ↦
          let z' : (c.cblk x).blkno ≡ k = rw other at z in
          let mine : x == b ≡ true =
            (==_iff x b).1 (w.unique x b hx listed (z' ∙ sym e) (λ q. numbered (sym z' ∙ q))) in
          ground arith
    ]

    still_none : (k : ℕ) → k == n ≡ false → NoBuffer c k → NoBuffer c' k
    still_none k other none_k x hx z = elim (Bool-cases (x == b)) [
      | inl at ↦ ground (arith, rw at at z, ==_iff k n)
      | inr away ↦ none_k x hx (rw away at z)
    ]
