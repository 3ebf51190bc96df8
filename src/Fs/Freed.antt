-- ===== src/Fs/Freed.antt =====
-- A data block that is given back.
use rv_mini_os.Prelude.{
  ℕ, ◌+◌, ◌-◌, ◌*◌, ◌/◌, ◌%◌, ◌^◌, ◌<◌, ◌≤◌, ◌≡◌, ◌≢◌, ap, refl, inl, inr, false, true, some, none,
  arith, ◌==◌, ==_iff, if◌then◌else◌, leb, ltb, ◌||◌, Bool-cases, Option-cases, some-inj,
  none-ne-some,
}
use mathlib.Core.Path.{subst}
use rv_mini_os.Err.{ok-ne-err, err-ne-ok, Result, ok, err, eio, einval}
use rv_mini_os.Fs.Bcache.{Cache, bcache_read}
use rv_mini_os.Fs.Bitmap.{get_bit, bm_clear_bit}
use rv_mini_os.Fs.Bits.{clear_bit_lem, clear_bit-below}
use rv_mini_os.Fs.Balloc.{FsMeta, bits_per_blk, bbm_free, bm_blk_no_of, bit_idx_of}
use rv_mini_os.Fs.ReadBack.{written}
use rv_mini_os.Fs.Contents.{IsCache, contents}
use rv_mini_os.Fs.Transparent.{bcache_read-Read}
use rv_mini_os.Fs.Writes.{Updated, read_and_written-Updated}
use rv_mini_os.Fs.Used.{
  used, IsLayout, IsDisk, SameContents, OutsideMaps, MapsOfBytes, SameContents-MapsOfBytes,
  Updated-MapsOfBytes, Returned, Freed, in_map,
}

-- what the write of the map of `d` with its bit cleared means for the bits
Updated-Returned :
    (sb : FsMeta) (d : ℕ) (c c' : Cache)
    → IsLayout sb
    → ((j : ℕ) → contents c (sb.dbm_start + d / bits_per_blk) j < 256)
    → Updated
        (sb.dbm_start + d / bits_per_blk)
        (bm_clear_bit (contents c (sb.dbm_start + d / bits_per_blk)) (d % bits_per_blk))
        c
        c'
    → Returned sb (sb.data_start + d) c c'
unfolding used
Updated-Returned sb d c c' l bytes u = record {
  d = d;
  number = refl;
  bits = λ e h. elim (Bool-cases (e / bits_per_blk == d / bits_per_blk)) [
    | inl same ↦ in_this e ((==_iff (e / bits_per_blk) (d / bits_per_blk)).0 same)
    | inr other ↦ in_another e h other
  ];
}
  where
    in_this :
        (e : ℕ)
        → e / bits_per_blk ≡ d / bits_per_blk
        → used sb c' e ≡ (if e == d then false else used sb c e)
    in_this e same =
        let place : (e % bits_per_blk == d % bits_per_blk) ≡ (e == d) = ground arith in
        rw (
          same,
          u.stored,
          clear_bit_lem (contents c (sb.dbm_start + d / bits_per_blk)) (d % bits_per_blk)
              (e % bits_per_blk) (bytes (d % bits_per_blk / 8)),
          place,
        )

    in_another :
        (e : ℕ)
        → e < sb.nb_dbm * bits_per_blk
        → e / bits_per_blk == d / bits_per_blk ≡ false
        → used sb c' e ≡ (if e == d then false else used sb c e)
    in_another e h other =
        let apart : (e == d) ≡ false = ground arith in
        rw apart (
          ap (λ m. get_bit m (e % bits_per_blk))
            (u.kept (sb.dbm_start + e / bits_per_blk) (in_map sb e l h) (ground arith)))

as_returned :
    {sb : FsMeta} {n : ℕ} {r r' : Result ℕ} {c c1 c' : Cache}
    → ◌≡◌ {A = Result ℕ × Cache} (r, c1) (r', c')
    → Freed sb n r c c1
    → Freed sb n r' c c'
as_returned {sb} {n} {c} e a = subst (λ (p : Result ℕ × Cache). Freed sb n p.0 c p.1) e a

Freed-failed :
    (sb : FsMeta) (n x : ℕ) (c c' : Cache)
    → IsLayout sb
    → MapsOfBytes sb c
    → IsCache c'
    → SameContents c c'
    → Freed sb n (err x) c c'
Freed-failed sb n x c c' l bytes w same = record {
  well = w;
  bytes = SameContents-MapsOfBytes sb c c' l same bytes;
  returned = λ m f. absurd (err-ne-ok f);
  others = λ k num out. same k num;
  failed = λ y f. same;
}

-- the write of the bitmap
clear_bit-Freed :
    (sb : FsMeta) (d b : ℕ) (c c1 : Cache)
    → IsLayout sb
    → IsCache c
    → MapsOfBytes sb c
    → d < sb.nb_dbm * bits_per_blk
    → bcache_read (sb.dbm_start + d / bits_per_blk) c ≡ some (some b, c1)
    → Freed sb
        (sb.data_start + d)
        (ok 0)
        c
        (written b (bm_clear_bit (c1.cblk b).buf (d % bits_per_blk)) c1)
clear_bit-Freed sb d b c c1 l w bytes h e =
    let n = sb.dbm_start + d / bits_per_blk in
    let c' = written b (bm_clear_bit (c1.cblk b).buf (d % bits_per_blk)) c1 in
    let num = in_map sb d l h in
    let same : (c1.cblk b).buf ≡ contents c n =
      ((bcache_read-Read n (some b) c c1 w num e).given b refl).1 in
    let u : Updated n (bm_clear_bit (contents c n) (d % bits_per_blk)) c c' =
      subst (λ m. Updated n (bm_clear_bit m (d % bits_per_blk)) c c') same
        (read_and_written-Updated n b (bm_clear_bit (c1.cblk b).buf (d % bits_per_blk)) c c1 w num
          e) in
    record {
      well = u.well;
      bytes =
          Updated-MapsOfBytes sb (d / bits_per_blk) (bm_clear_bit (contents c n) (d % bits_per_blk))
            c c' l
            (clear_bit-below (contents c n) (d % bits_per_blk)
              (λ j. bytes (d / bits_per_blk) j (omega arith)))
            bytes u;
      returned =
          λ m f. Updated-Returned sb d c c' l (λ j. bytes (d / bits_per_blk) j (omega arith)) u;
      others = λ k num_k out. u.kept k num_k (not_this k out);
      failed = λ x f. absurd (ok-ne-err f);
    }
  where
    not_this : (k : ℕ) → OutsideMaps sb k → k ≢ sb.dbm_start + d / bits_per_blk
    not_this k (inl before) z = omega arith
    not_this k (inr behind) z = omega arith

-- A place among the data blocks that is an `int` is not negative.
place_lem :
    (sb : FsMeta) (d : ℕ)
    → d < 2 ^ 31
    → sb.dbm_start + d / bits_per_blk < 2 ^ 32
    → (bm_blk_no_of sb d ≡ sb.dbm_start + d / bits_per_blk)
      × (bit_idx_of d ≡ some (d % bits_per_blk))
unfolding bm_blk_no_of bit_idx_of
place_lem sb d small maps =
    let int : ltb d (2 ^ 31) ≡ true = ground arith in (rw int (omega arith), rw int)

-- On a disk whose layout is sound (IsDisk) and whose bitmaps hold bytes, a call of bbm_free that
-- returns no error clears the bit of its data block and no other and changes no block but the
-- bitmaps; a call that returns an error leaves the contents as they are.
pub bbm_free-Freed :
    (sb : FsMeta) (blkno : ℕ) (r : Result ℕ) (c c' : Cache)
    → IsDisk sb
    → IsCache c
    → MapsOfBytes sb c
    → bbm_free sb blkno c ≡ some (r, c')
    → Freed sb blkno r c c'
unfolding bbm_free
bbm_free-Freed sb blkno r c c' disk w bytes e =
    let d = blkno - sb.data_start in
    let l = disk.layout in
    let refused = ltb blkno sb.data_start || leb ((sb.data_start + sb.nb_dblk) % 2 ^ 32) blkno in
    elim (Bool-cases refused) [
      | inl bad ↦
          as_returned (some-inj (rw (bad, bbm_free) at e))
            (Freed-failed sb blkno einval c c l bytes w (λ k num. refl))
      | inr good ↦
          let counted = disk.counted in
          let ends = disk.ends in
          let behind : sb.data_start ≤ blkno = ground arith in
          let h : d < sb.nb_dbm * bits_per_blk = ground arith in
          let number : sb.data_start + d ≡ blkno = omega arith in
          let maps = l.maps in
          let places = disk.places in
          let (no_wrap, place) = place_lem sb d (ground arith) (omega arith) in
          let num = in_map sb d l h in
          elim (Option-cases (bcache_read (sb.dbm_start + d / bits_per_blk) c)) [
            | inl waits ↦ absurd (none-ne-some (rw (good, no_wrap, waits, bbm_free) at e))
            | inr ((none, c1), got) ↦
                let read = bcache_read-Read (sb.dbm_start + d / bits_per_blk) none c c1 w num got in
                as_returned (some-inj (rw (good, no_wrap, got, bbm_free) at e))
                  (Freed-failed sb blkno eio c c1 l bytes read.well read.kept)
            | inr ((some b, c1), got) ↦
                as_returned (some-inj (rw (good, no_wrap, got, place, bbm_free) at e)) (
                  subst
                    (λ n.
                      Freed sb n (ok 0) c
                        (written b (bm_clear_bit (c1.cblk b).buf (d % bits_per_blk)) c1))
                    number (clear_bit-Freed sb d b c c1 l w bytes h got))
          ]
    ]
