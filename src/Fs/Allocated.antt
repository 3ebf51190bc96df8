-- ===== src/Fs/Allocated.antt =====
-- The allocation of a data block never takes one that is in use.
use rv_mini_os.Prelude.{
  ℕ, zero, suc, ◌+◌, ◌*◌, ◌/◌, ◌%◌, ◌^◌, ◌<◌, ◌≤◌, ◌≡◌, ◌≢◌, ◌∙◌, sym, ap, refl, inl, inr, true,
  false, some, none, arith, ◌==◌, ==_iff, if◌then◌else◌, ltb, leb, Bool-cases, Option-cases,
  some-inj, none-ne-some,
}
use mathlib.Core.Path.{subst}
use rv_mini_os.Err.{ok-ne-err, ok-inj, Result, ok, eio, enospc}
use rv_mini_os.Fs.Bcache.{Bytes, Cache, no_blkno, bcache_read, bcache_release}
use rv_mini_os.Fs.Bitmap.{get_bit, bm_set_bit, bm_find_first_zero}
use rv_mini_os.Fs.Bits.{set_bit_lem, set_bit-below}
use rv_mini_os.Fs.FirstZero.{FirstZero, lowest-FirstZero}
use rv_mini_os.Fs.Balloc.{FsMeta, bits_per_blk, bit_to_blkno, bbm_alloc_loop, bbm_alloc}
use rv_mini_os.Fs.ReadBack.{written}
use rv_mini_os.Fs.Contents.{IsCache, contents}
use rv_mini_os.Fs.Kept.{Kept, Kept-contents}
use rv_mini_os.Fs.Transparent.{Read, bcache_read-Read, release-Kept}
use rv_mini_os.Fs.Writes.{Updated, read_and_written-Updated}
use rv_mini_os.Fs.Used.{
  used, IsLayout, SameContents, OutsideMaps, Taken, Allocated, MapsOfBytes,
  SameContents-MapsOfBytes, Updated-MapsOfBytes, map_blkno, in_map, Allocated-after,
  Allocated-failed,
}

-- the bit of a map that the scan finds
free_bit :
    (buf : Bytes) (bit : ℕ)
    → bm_find_first_zero buf bits_per_blk ≡ some bit
    → (bit < bits_per_blk) × (get_bit buf bit ≡ false)
free_bit buf bit e =
    let f : FirstZero buf 0 (512 * 64) (some bit) =
      subst (λ o. FirstZero buf 0 (512 * 64) o) e (lowest-FirstZero buf 512) in
    (f.1, f.2)

-- what the write of map `i` with one bit set means for the bits
Updated-Taken :
    (sb : FsMeta) (i bit : ℕ) (c c' : Cache)
    → IsLayout sb
    → i < sb.nb_dbm
    → ((j : ℕ) → contents c (sb.dbm_start + i) j < 256)
    → bit < bits_per_blk
    → get_bit (contents c (sb.dbm_start + i)) bit ≡ false
    → sb.data_start + (bit + i * bits_per_blk) < sb.nb_blk
    → Updated (sb.dbm_start + i) (bm_set_bit (contents c (sb.dbm_start + i)) bit) c c'
    → Taken sb (sb.data_start + (bit + i * bits_per_blk)) c c'
unfolding used
Updated-Taken sb i bit c c' l below bytes small free on_disk u = record {
  d = bit + i * bits_per_blk;
  number = refl;
  in_maps = omega arith;
  on_disk = on_disk;
  unused = rw (map_of_bit, place_of_bit) free;
  bits = λ e h. elim (Bool-cases (e / bits_per_blk == i)) [
    | inl same ↦ in_this e ((==_iff (e / bits_per_blk) i).0 same)
    | inr other ↦ in_another e h other
  ];
}
  where
    map_of_bit : (bit + i * bits_per_blk) / bits_per_blk ≡ i
    map_of_bit = omega arith

    place_of_bit : (bit + i * bits_per_blk) % bits_per_blk ≡ bit
    place_of_bit = omega arith

    in_this :
        (e : ℕ)
        → e / bits_per_blk ≡ i
        → used sb c' e ≡ (if e == bit + i * bits_per_blk then true else used sb c e)
    in_this e same =
        let place : (e % bits_per_blk == bit) ≡ (e == bit + i * bits_per_blk) = ground arith in
        rw (
          same,
          u.stored,
          set_bit_lem (contents c (sb.dbm_start + i)) bit (e % bits_per_blk) (bytes (bit / 8)),
          place,
        )

    in_another :
        (e : ℕ)
        → e < sb.nb_dbm * bits_per_blk
        → e / bits_per_blk == i ≡ false
        → used sb c' e ≡ (if e == bit + i * bits_per_blk then true else used sb c e)
    in_another e h other =
        let apart : (e == bit + i * bits_per_blk) ≡ false = ground arith in
        rw (apart) (
          ap (λ m. get_bit m (e % bits_per_blk))
            (u.kept (sb.dbm_start + e / bits_per_blk) (in_map sb e l h) (ground arith)))

release-Same :
    (n b : ℕ) (c c1 : Cache)
    → Read n (some b) c c1
    → IsCache (bcache_release b c1) × SameContents c (bcache_release b c1)
release-Same n b c c1 r =
    let p : Kept c1 (bcache_release b c1) = release-Kept b c1 r.well (r.given b refl).0 in
    (p.well, λ k num. Kept-contents p k num ∙ r.kept k num)

-- a round that reads bitmap `i` and finds a bit of a block of the disk
take_bit-Allocated :
    (sb : FsMeta) (i b bit : ℕ) (c c1 : Cache)
    → IsLayout sb
    → IsCache c
    → MapsOfBytes sb c
    → i < sb.nb_dbm
    → bcache_read (sb.dbm_start + i) c ≡ some (some b, c1)
    → bm_find_first_zero (c1.cblk b).buf bits_per_blk ≡ some bit
    → bit_to_blkno sb bit i < sb.nb_blk
    → Allocated sb (ok (bit_to_blkno sb bit i)) c (written b (bm_set_bit (c1.cblk b).buf bit) c1)
unfolding bit_to_blkno
take_bit-Allocated sb i b bit c c1 l w bytes below e found on_disk =
    let num : sb.dbm_start + i ≢ no_blkno = (map_blkno sb i l below).1 in
    let r : Read (sb.dbm_start + i) (some b) c c1 =
      bcache_read-Read (sb.dbm_start + i) (some b) c c1 w num e in
    let u =
      read_and_written-Updated (sb.dbm_start + i) b (bm_set_bit (c1.cblk b).buf bit) c c1 w num e in
    let same : (c1.cblk b).buf ≡ contents c (sb.dbm_start + i) = (r.given b refl).1 in
    let c' = written b (bm_set_bit (c1.cblk b).buf bit) c1 in
    let (small, free) = free_bit (c1.cblk b).buf bit found in
    let fits = l.blocks in
    let number : bit_to_blkno sb bit i ≡ sb.data_start + (bit + i * bits_per_blk) = omega arith in
    record {
      well = u.well;
      bytes =
          Updated-MapsOfBytes sb i (bm_set_bit (c1.cblk b).buf bit) c c' l
            (set_bit-below (c1.cblk b).buf bit (λ j. rw same (bytes i j below))) bytes u;
      taken = λ n f.
          subst (λ z. Taken sb z c c') (sym number ∙ ok-inj f)
            (Updated-Taken sb i bit c c' l below (λ j. bytes i j below) small
              (subst (λ m. get_bit m bit ≡ false) same free) (omega arith)
              (subst (λ m. Updated (sb.dbm_start + i) (bm_set_bit m bit) c c') same u));
      others = λ k num_k out. u.kept k num_k (not_this k out);
      failed = λ x f. absurd (ok-ne-err f);
    }
  where
    not_this : (k : ℕ) → OutsideMaps sb k → k ≢ sb.dbm_start + i
    not_this k (inl before) z = omega arith
    not_this k (inr behind) z = omega arith

as_returned :
    {sb : FsMeta} {r r' : Result ℕ} {c c1 c' : Cache}
    → ◌≡◌ {A = Result ℕ × Cache} (r, c1) (r', c')
    → Allocated sb r c c1
    → Allocated sb r' c c'
as_returned {sb} {r} {r'} {c} {c1} {c'} e a =
    subst (λ (p : Result ℕ × Cache). Allocated sb p.0 c p.1) e a

bbm_alloc_loop-Allocated :
    (sb : FsMeta) (rounds i : ℕ) (r : Result ℕ) (c c' : Cache)
    → IsLayout sb
    → IsCache c
    → MapsOfBytes sb c
    → i + rounds ≤ sb.nb_dbm
    → bbm_alloc_loop sb rounds i c ≡ some (r, c')
    → Allocated sb r c c'
unfolding bbm_alloc_loop
bbm_alloc_loop-Allocated sb zero i r c c' l w bytes le e =
    as_returned (some-inj e) (Allocated-failed sb enospc c c l bytes w (λ k num. refl))
bbm_alloc_loop-Allocated sb (suc rounds) i r c c' l w bytes le e =
    let n = sb.dbm_start + i in
    let (no_wrap, num) = map_blkno sb i l (omega arith) in
    elim (Option-cases (bcache_read n c)) [
      | inl waits ↦ absurd (none-ne-some (rw (no_wrap, waits, bbm_alloc_loop) at e))
      | inr ((none, c1), got) ↦
          let read : Read n none c c1 = bcache_read-Read n none c c1 w num got in
          as_returned (some-inj (rw (no_wrap, got, bbm_alloc_loop) at e))
            (Allocated-failed sb eio c c1 l bytes read.well read.kept)
      | inr ((some b, c1), got) ↦
          let (well, same) = release-Same n b c c1 (bcache_read-Read n (some b) c c1 w num got) in
          elim (Option-cases (bm_find_first_zero (c1.cblk b).buf bits_per_blk)) [
            | inl full ↦ Allocated-after sb r c (bcache_release b c1) c' l same (
                bbm_alloc_loop-Allocated sb rounds (i + 1) r (bcache_release b c1) c' l well
                  (SameContents-MapsOfBytes sb c (bcache_release b c1) l same bytes) (omega arith)
                  (rw (no_wrap, got, bbm_alloc_loop, full) at e))
            | inr (bit, found) ↦ elim (Bool-cases (leb sb.nb_blk (bit_to_blkno sb bit i))) [
              | inl beyond ↦
                  as_returned (some-inj (rw (no_wrap, got, bbm_alloc_loop, found, beyond) at e))
                    (Allocated-failed sb enospc c (bcache_release b c1) l bytes well same)
              | inr on_disk ↦
                  let numbers = l.numbers in
                  let not_negative : ltb (bit_to_blkno sb bit i) (2 ^ 31) ≡ true = ground arith in
                  as_returned
                    (some-inj
                      (rw (no_wrap, got, bbm_alloc_loop, found, on_disk, not_negative) at e))
                    (take_bit-Allocated sb i b bit c c1 l w bytes (omega arith) got found
                      (ground arith))
            ]
          ]
    ]

-- On a disk whose bitmaps hold bytes and whose blocks are below 2^31, a call of bbm_alloc
-- that returns takes a data block of the disk that no bit said is in use, sets its bit and no other
-- and changes no block but the bitmaps; or it gives an error and the contents stay as they are.
pub bbm_alloc-Allocated :
    (sb : FsMeta) (r : Result ℕ) (c c' : Cache)
    → IsLayout sb
    → IsCache c
    → MapsOfBytes sb c
    → bbm_alloc sb c ≡ some (r, c')
    → Allocated sb r c c'
unfolding bbm_alloc
bbm_alloc-Allocated sb r c c' l w bytes e =
    bbm_alloc_loop-Allocated sb sb.nb_dbm 0 r c c' l w bytes (omega arith) e
