-- ===== src/Fs/Synced.antt =====
-- The write of a buffer to the disk. Blocks below 2^29 have sectors of their own.
use rv_mini_os.Prelude.{
  ℕ, ◌^◌, ◌<◌, ◌≡◌, ◌≢◌, inl, inr, refl, sym, ◌∙◌, true, false, arith, ◌==◌, ==_iff, ==_refl,
  update, has, Bool-cases,
}
use rv_mini_os.Err.{Result, ok, err-ne-ok}
use rv_mini_os.Fs.Bcache.{Bytes, Cache, no_blkno, get_sector, set_cblk, bcache_sync}
use rv_mini_os.Fs.Contents.{
  IsCache, Shows, contents, block_on_disk, seen_in, contents-Shows, Shows-contents,
}

-- the number of blocks whose sectors are distinct
abbrev pub nb_reached : ℕ
nb_reached = 2 ^ 29

-- Valid buffers are of blocks that have a sector of their own.
abbrev pub InReach : Cache → Type 0
InReach c =
    (x : ℕ) → has x c.buf_list ≡ true → (c.cblk x).valid ≡ true → (c.cblk x).blkno < nb_reached

get_sector-inj : (k n : ℕ) → k < nb_reached → n < nb_reached → get_sector k ≡ get_sector n → k ≡ n
unfolding get_sector
get_sector-inj k n hk hn e = ground arith

-- the cache after a request of the device that is done
abbrev flushed : ℕ → Cache → Cache
flushed b c =
    set_cblk b (record (c.cblk b) { dirty = false })
      (record c { disk = update c.disk (get_sector (c.cblk b).blkno) (c.cblk b).buf })

module _ (b : ℕ) (c : Cache) (w : IsCache c) (reach : InReach c) (listed : has b c.buf_list ≡ true)
    (valid : (c.cblk b).valid ≡ true) where
  numbered : (c.cblk b).blkno ≢ no_blkno
  numbered e = let h = reach b listed valid in omega arith

  flushed-blkno : (x : ℕ) → ((flushed b c).cblk x).blkno ≡ (c.cblk x).blkno
  flushed-blkno x = ground (arith, ==_iff x b)

  -- Of the other blocks in reach, the disk is as it was.
  flushed-disk :
      (k : ℕ)
      → k < nb_reached
      → k ≢ (c.cblk b).blkno
      → block_on_disk (flushed b c) k ≡ block_on_disk c k
  flushed-disk k small away = elim (Bool-cases (get_sector k == get_sector (c.cblk b).blkno)) [
    | inl same ↦ absurd (
        away (
          get_sector-inj k (c.cblk b).blkno small (reach b listed valid)
            ((==_iff (get_sector k) (get_sector (c.cblk b).blkno)).0 same)))
    | inr other ↦ rw other
  ]

  other-blkno :
      (x : ℕ) → has x c.buf_list ≡ true → x == b ≡ false → (c.cblk x).blkno ≢ (c.cblk b).blkno
  other-blkno x hx other e =
      let mine : x == b ≡ true =
        (==_iff x b).1 (w.unique x b hx listed e (λ z. numbered (sym e ∙ z))) in
      ground arith

  flushed-IsCache : IsCache (flushed b c)
  flushed-IsCache = record {
    unique = λ x y hx hy e num.
        w.unique x y hx hy (sym (flushed-blkno x) ∙ e ∙ flushed-blkno y)
          (λ z. num (flushed-blkno x ∙ z));
    clean = λ x hx v d. elim (Bool-cases (x == b)) [
      | inl at ↦ rw (at, ==_refl (get_sector (c.cblk b).blkno))
      | inr other ↦ rw other (
          w.clean x hx (rw other at v) (rw other at d)
          ∙ sym
              (flushed-disk (c.cblk x).blkno (reach x hx (rw other at v)) (other-blkno x hx other)))
    ];
  }

  seen :
      (x : ℕ)
      → has x c.buf_list ≡ true
      → (k : ℕ) → k < nb_reached
      → (c.cblk x).blkno ≡ k
      → seen_in (flushed b c) x k ≡ seen_in c x k
  seen x hx k small e = elim (Bool-cases (x == b)) [
    | inl at ↦ rw (at, (==_iff x b).0 at, valid)
    | inr other ↦ rw (other, flushed-disk k small (λ z. other-blkno x hx other (e ∙ z)))
  ]

  flushed-Shows : (k : ℕ) (u : Bytes) → k < nb_reached → Shows c k u → Shows (flushed b c) k u
  flushed-Shows k u small s = elim s [
    | inl r ↦ inl (record {
      index = r.index;
      listed = r.listed;
      of_block = flushed-blkno r.index ∙ r.of_block;
      shows = seen r.index r.listed k small r.of_block ∙ r.shows;
    })
    | inr (none_of, e) ↦ inr (
      λ x hx z. none_of x hx (sym (flushed-blkno x) ∙ z),
      flushed-disk k small (λ z. none_of b listed (sym z)) ∙ e,
    )
  ]

  flushed-contents : (k : ℕ) → k < nb_reached → contents (flushed b c) k ≡ contents c k
  flushed-contents k small =
      Shows-contents k (flushed b c) (contents c k) flushed-IsCache (λ z. omega arith)
        (flushed-Shows k (contents c k) small (contents-Shows k c))

-- `c'` is a cache that shows of each block in reach what `c` shows; if the result is 0, the sectors
-- of buffer `b` hold its bytes, and it is clean.
pub record Synced (b : ℕ) (c : Cache) (r : Result ℕ) (c' : Cache) : Type 0 where
  pub well : IsCache c'
  pub kept : (k : ℕ) → k < nb_reached → contents c' k ≡ contents c k
  pub on_disk :
      r ≡ ok 0
      → (c'.disk (get_sector (c.cblk b).blkno) ≡ (c.cblk b).buf) × ((c'.cblk b).dirty ≡ false)

-- For a valid buffer in the list of a cache whose valid buffers are of blocks below 2^29,
-- bcache_sync, done or failed, leaves a cache with the same contents of all blocks below 2^29; if it
-- gives 0, the disk holds the bytes of the buffer at the sectors of its block, and it is not dirty.
pub bcache_sync-Synced :
    (b : ℕ) (c : Cache)
    → IsCache c
    → InReach c
    → has b c.buf_list ≡ true
    → (c.cblk b).valid ≡ true
    → Synced b c (bcache_sync b c).0 (bcache_sync b c).1
unfolding bcache_sync
bcache_sync-Synced b c w reach listed valid = elim (Bool-cases (c.cblk b).dirty) [
  | inr clear ↦
      rw (clear, bcache_sync)
        (record {
          well = w;
          kept = λ k small. refl;
          on_disk = λ r. (sym (w.clean b listed valid clear), clear);
        })
  | inl dirty ↦ elim (Bool-cases (c.fails (get_sector (c.cblk b).blkno))) [
    | inl fails ↦
        rw (dirty, fails, bcache_sync)
          (record { well = w; kept = λ k small. refl; on_disk = λ r. absurd (err-ne-ok r) })
    | inr works ↦
        rw (dirty, works, bcache_sync)
          (record {
            well = flushed-IsCache b c w reach listed valid;
            kept = flushed-contents b c w reach listed valid;
            on_disk = λ r. (rw (==_refl (get_sector (c.cblk b).blkno)), rw (==_refl b));
          })
  ]
]
