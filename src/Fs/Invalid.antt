-- ===== src/Fs/Invalid.antt =====
-- A block that is dropped from the block cache, and the release of a data block that does so.
use rv_mini_os.Prelude.{
  ℕ, ◌+◌, ◌*◌, ◌/◌, ◌%◌, ◌<◌, ◌≤◌, ◌≡◌, ◌≢◌, ◌∙◌, sym, ap, refl, inl, inr, true, false, some, arith,
  ◌==◌, ==_iff, if◌then◌else◌, has, Bool-cases, Option-cases,
}
use rv_mini_os.Err.{Result, ok, err}
use rv_mini_os.Fs.Bcache.{Bytes, Cache, Cblk, no_blkno, set_cblk, cache_request, bcache_invalidate}
use rv_mini_os.Fs.Bitmap.{get_bit}
use rv_mini_os.Fs.Balloc.{FsMeta, bits_per_blk, bfree}
use rv_mini_os.Fs.Contents.{IsCache, Shows, contents, request-hit, contents-Shows, Shows-contents}
use rv_mini_os.Fs.Used.{
  used, IsDisk, MapsOfBytes, OutsideMaps, map_blkno, in_map, used-SameContents, Returned, Freed,
}
use rv_mini_os.Fs.Freed.{bbm_free-Freed}

-- `c'` is a cache, and its contents are those of `c` but for block `n`.
pub record KeptBut (n : ℕ) (c c' : Cache) : Type 0 where
  pub well : IsCache c'
  pub kept : (k : ℕ) → k ≢ no_blkno → k ≢ n → contents c' k ≡ contents c k

abbrev dropped : Cblk → Cblk
dropped v = record v { dirty = false; valid = false; blkno = no_blkno }

dropped-IsCache : (b : ℕ) (c : Cache) → IsCache c → IsCache (set_cblk b (dropped (c.cblk b)) c)
dropped-IsCache b c w = record {
  unique = λ x y hx hy e num. elim (Bool-cases (x == b)) [
    | inl at ↦ absurd (num (rw at))
    | inr other ↦ elim (Bool-cases (y == b)) [
      | inl at ↦ absurd (num (rw other (rw (other, at) at e)))
      | inr other' ↦ w.unique x y hx hy (rw (other, other') at e) (rw other at num)
    ]
  ];
  clean = λ x hx valid clear. elim (Bool-cases (x == b)) [
    | inl at ↦ ground (arith, rw at at valid)
    | inr other ↦ rw other (w.clean x hx (rw other at valid) (rw other at clear))
  ];
}

dropped-Shows :
    (b k : ℕ) (v : Bytes) (c : Cache)
    → k ≢ no_blkno
    → k ≢ (c.cblk b).blkno
    → Shows c k v
    → Shows (set_cblk b (dropped (c.cblk b)) c) k v
dropped-Shows b k v c num away s = elim s [
  | inl r ↦ elim (Bool-cases (r.index == b)) [
    | inl at ↦ absurd (away (sym r.of_block ∙ ap (λ x. (c.cblk x).blkno) ((==_iff r.index b).0 at)))
    | inr other ↦ inl (record {
      index = r.index;
      listed = r.listed;
      of_block = rw other r.of_block;
      shows = rw other r.shows;
    })
  ]
  | inr (none_of, e) ↦ inr (λ x hx z. still_none none_of x hx z, e)
]
  where
    still_none :
        ((x : ℕ) → has x c.buf_list ≡ true → (c.cblk x).blkno ≢ k)
        → (x : ℕ) → has x c.buf_list ≡ true
        → ((set_cblk b (dropped (c.cblk b)) c).cblk x).blkno ≢ k
    still_none none_of x hx z = elim (Bool-cases (x == b)) [
      | inl at ↦ num (sym (rw at at z))
      | inr other ↦ none_of x hx (rw other at z)
    ]

bcache_invalidate-KeptBut : (n : ℕ) (c : Cache) → IsCache c → KeptBut n c (bcache_invalidate n c)
unfolding bcache_invalidate
bcache_invalidate-KeptBut n c w = elim (Option-cases (cache_request n c)) [
  | inl miss ↦ rw (miss, bcache_invalidate) (record { well = w; kept = λ k num away. refl })
  | inr (b, hit) ↦
      let c' = set_cblk b (dropped (c.cblk b)) c in
      let number : (c.cblk b).blkno ≡ n = (request-hit n b c hit).1 in
      rw (hit, bcache_invalidate)
        (record {
          well = dropped-IsCache b c w;
          kept = λ k num away. Shows-contents k c' (contents c k) (dropped-IsCache b c w) num (
              dropped-Shows b k (contents c k) c num (λ z. away (z ∙ number)) (contents-Shows k c));
        })
]

-- The bit of the block alone is cleared, or there is an error and no bit changes; the other blocks
-- outside of the bitmaps are as they were.
pub record BlockFreed (sb : FsMeta) (n : ℕ) (r : Result ℕ) (c c' : Cache) : Type 0 where
  pub well : IsCache c'
  pub bytes : MapsOfBytes sb c'
  pub returned : (m : ℕ) → r ≡ ok m → Returned sb n c c'
  pub others : (k : ℕ) → k ≢ no_blkno → k ≢ n → OutsideMaps sb k → contents c' k ≡ contents c k
  pub failed : (x e : ℕ) → r ≡ err x → e < sb.nb_dbm * bits_per_blk → used sb c' e ≡ used sb c e

-- of a block behind the bitmaps
module _ (sb : FsMeta) (n : ℕ) (c c1 : Cache) (disk : IsDisk sb)
    (behind : sb.dbm_start + sb.nb_dbm ≤ n) (p : KeptBut n c c1) where
  KeptBut-MapsOfBytes : MapsOfBytes sb c → MapsOfBytes sb c1
  KeptBut-MapsOfBytes bytes i j h =
      rw (p.kept (sb.dbm_start + i) (map_blkno sb i disk.layout h).1 (λ z. omega arith))
        (bytes i j h)

  used-KeptBut : (e : ℕ) → e < sb.nb_dbm * bits_per_blk → used sb c1 e ≡ used sb c e
  unfolding used
  used-KeptBut e h =
      ap (λ m. get_bit m (e % bits_per_blk))
        (p.kept (sb.dbm_start + e / bits_per_blk) (in_map sb e disk.layout h) (λ z. omega arith))

  used-failed :
      (c' : Cache) (e : ℕ)
      → ((k : ℕ) → k ≢ no_blkno → contents c' k ≡ contents c1 k)
      → e < sb.nb_dbm * bits_per_blk
      → used sb c' e ≡ used sb c e
  used-failed c' e same h = used-SameContents sb c1 c' e disk.layout h same ∙ used-KeptBut e h

-- On a disk whose layout is sound (IsDisk) and whose bitmaps hold bytes, a call of bfree for a
-- block behind the bitmaps that returns no error clears the bit of that block and no other; a
-- call that returns an error changes no bit. Either way the other blocks outside of the bitmaps
-- keep their contents.
pub bfree-BlockFreed :
    (sb : FsMeta) (n : ℕ) (r : Result ℕ) (c c' : Cache)
    → IsDisk sb
    → IsCache c
    → MapsOfBytes sb c
    → sb.dbm_start + sb.nb_dbm ≤ n
    → bfree sb n c ≡ some (r, c')
    → BlockFreed sb n r c c'
unfolding bfree
bfree-BlockFreed sb n r c c' disk w bytes behind e =
    let c1 = bcache_invalidate n c in
    let p : KeptBut n c c1 = bcache_invalidate-KeptBut n c w in
    let f : Freed sb n r c1 c' =
      bbm_free-Freed sb n r c1 c' disk p.well (KeptBut-MapsOfBytes sb n c c1 disk behind p bytes)
        e in
    record {
      well = f.well;
      bytes = f.bytes;
      returned = λ m z.
          let t = f.returned m z in
          record {
            d = t.d;
            number = t.number;
            bits = λ e h.
                t.bits e h
                ∙ ap (λ u. if e == t.d then false else u)
                    (used-KeptBut sb n c c1 disk behind p e h);
          };
      others = λ k num away out. f.others k num out ∙ p.kept k num away;
      failed = λ x e z h. used-failed sb n c c1 disk behind p c' e (f.failed x z) h;
    }
