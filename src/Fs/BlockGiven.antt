-- ===== src/Fs/BlockGiven.antt =====
-- A data block that is allocated, cleared, or given back when it cannot be read.
use rv_mini_os.Prelude.{
  ℕ, ◌+◌, ◌*◌, ◌/◌, ◌%◌, ◌<◌, ◌≤◌, ◌≡◌, ◌≢◌, ◌∙◌, sym, ap, refl, inl, inr, true, false, some, none,
  arith, ◌==◌, ==_iff, if◌then◌else◌, Bool-cases, Option-cases, some-inj, none-ne-some,
}
use mathlib.Core.Path.{subst}
use rv_mini_os.Err.{ok-ne-err, err-ne-ok, ok-inj, Result, ok, err, eio}
use rv_mini_os.Fs.Bcache.{Bytes, Cache, no_blkno, bcache_read}
use rv_mini_os.Fs.Bitmap.{get_bit}
use rv_mini_os.Fs.Balloc.{FsMeta, bits_per_blk, bbm_alloc, bbm_free, clear_block, balloc}
use rv_mini_os.Fs.ReadBack.{written}
use rv_mini_os.Fs.Contents.{IsCache, contents}
use rv_mini_os.Fs.Transparent.{bcache_read-Read}
use rv_mini_os.Fs.Writes.{Updated, read_and_written-Updated}
use rv_mini_os.Fs.Used.{
  used, IsLayout, IsDisk, SameContents, OutsideMaps, MapsOfBytes, SameContents-MapsOfBytes,
  map_blkno, in_map, used-SameContents, Taken, Allocated, Returned, Freed,
}
use rv_mini_os.Fs.Allocated.{bbm_alloc-Allocated}
use rv_mini_os.Fs.Freed.{bbm_free-Freed}

abbrev pub zeros : Bytes
zeros i = 0

-- A block that is zero is taken, and the other blocks outside of the bitmaps are as they were; or
-- there is an error, no such block changes and no block that was in use is not any more.
pub record BlockGiven (sb : FsMeta) (r : Result ℕ) (c c' : Cache) : Type 0 where
  pub well : IsCache c'
  pub bytes : MapsOfBytes sb c'
  pub given : (n : ℕ) → r ≡ ok n → Taken sb n c c' × (contents c' n ≡ zeros)
  pub others : (k : ℕ) → k ≢ no_blkno → OutsideMaps sb k → r ≢ ok k → contents c' k ≡ contents c k
  pub in_use :
      (x e : ℕ)
      → r ≡ err x
      → e < sb.nb_dbm * bits_per_blk
      → used sb c e ≡ true
      → used sb c' e ≡ true

as_returned :
    {sb : FsMeta} {r r' : Result ℕ} {c c1 c' : Cache}
    → ◌≡◌ {A = Result ℕ × Cache} (r, c1) (r', c')
    → BlockGiven sb r c c1
    → BlockGiven sb r' c c'
as_returned {sb} {c} e a = subst (λ (p : Result ℕ × Cache). BlockGiven sb p.0 c p.1) e a

-- A block behind the bitmaps that changes changes no bit.
used-Updated :
    (sb : FsMeta) (n e : ℕ) (v : Bytes) (c c' : Cache)
    → IsLayout sb
    → sb.dbm_start + sb.nb_dbm ≤ n
    → e < sb.nb_dbm * bits_per_blk
    → Updated n v c c'
    → used sb c' e ≡ used sb c e
unfolding used
used-Updated sb n e v c c' l behind h u =
    ap (λ m. get_bit m (e % bits_per_blk))
      (u.kept (sb.dbm_start + e / bits_per_blk) (in_map sb e l h) (λ z. omega arith))

-- the block that bbm_alloc gave, after its bytes are cleared
cleared-BlockGiven :
    (sb : FsMeta) (n : ℕ) (c c1 c' : Cache)
    → IsDisk sb
    → Allocated sb (ok n) c c1
    → Updated n zeros c1 c'
    → BlockGiven sb (ok n) c c'
cleared-BlockGiven sb n c c1 c' disk a u =
    let t = a.taken n refl in
    let behind : sb.dbm_start + sb.nb_dbm ≤ n =
      (let x = disk.behind in let y = t.number in omega arith) in
    record {
      well = u.well;
      bytes = λ i j h.
          rw (u.kept (sb.dbm_start + i) (map_blkno sb i disk.layout h).1 (λ z. omega arith))
            (a.bytes i j h);
      given = λ m f.
          subst (λ z. Taken sb z c c' × (contents c' z ≡ zeros)) (ok-inj f)
            (
              record {
                d = t.d;
                number = t.number;
                in_maps = t.in_maps;
                on_disk = t.on_disk;
                unused = t.unused;
                bits = λ e h. used-Updated sb n e zeros c1 c' disk.layout behind h u ∙ t.bits e h;
              },
              u.stored,
            );
      others = λ k num out other. u.kept k num (λ z. other (ap ok (sym z))) ∙ a.others k num out;
      in_use = λ x e f. absurd (ok-ne-err f);
    }

-- the error of a block that cannot be read: its bit is cleared again, if it can be
given_back-BlockGiven :
    (sb : FsMeta) (n : ℕ) (res : Result ℕ) (c c1 c2 c3 : Cache)
    → IsDisk sb
    → Allocated sb (ok n) c c1
    → SameContents c1 c2
    → Freed sb n res c2 c3
    → BlockGiven sb (err eio) c c3
given_back-BlockGiven sb n res c c1 c2 c3 disk a same f = record {
  well = f.well;
  bytes = f.bytes;
  given = λ m z. absurd (err-ne-ok z);
  others = λ k num out z. f.others k num out ∙ same k num ∙ a.others k num out;
  in_use = λ x e z h on.
      stays e h res f
        (used-SameContents sb c1 c2 e disk.layout h same ∙ (a.taken n refl).bits e h ∙ still e on)
        on;
}
  where
    t : Taken sb n c c1
    t = a.taken n refl

    still : (e : ℕ) → used sb c e ≡ true → (if e == t.d then true else used sb c e) ≡ true
    still e on = ground arith

    not_taken : (e : ℕ) {d : ℕ} → used sb c e ≡ true → d ≡ t.d → (e == d) ≡ false
    not_taken e {d} on same_block = elim (Bool-cases (e == d)) [
      | inl at ↦
          let mine : e ≡ t.d = (==_iff e d).0 at ∙ same_block in
          ground (arith, t.unused, ap (used sb c) mine)
      | inr away ↦ away
    ]

    stays :
        (e : ℕ)
        → e < sb.nb_dbm * bits_per_blk
        → (res : Result ℕ) → Freed sb n res c2 c3
        → used sb c2 e ≡ true
        → used sb c e ≡ true
        → used sb c3 e ≡ true
    stays e h (err x) f now on = used-SameContents sb c2 c3 e disk.layout h (f.failed x refl) ∙ now
    stays e h (ok m) f now on =
        let q : Returned sb n c2 c3 = f.returned m refl in
        let same_block : q.d ≡ t.d = (let x = q.number in let y = t.number in omega arith) in
        let away : (e == q.d) ≡ false = not_taken e on same_block in rw (q.bits e h, away) now

failed-BlockGiven :
    (sb : FsMeta) (x : ℕ) (c c' : Cache)
    → IsDisk sb
    → Allocated sb (err x) c c'
    → BlockGiven sb (err x) c c'
failed-BlockGiven sb x c c' disk a = record {
  well = a.well;
  bytes = a.bytes;
  given = λ m z. absurd (err-ne-ok z);
  others = λ k num out z. a.others k num out;
  in_use = λ y e z h on. used-SameContents sb c c' e disk.layout h (a.failed x refl) ∙ on;
}

blkno_lem : (sb : FsMeta) (n : ℕ) (c c' : Cache) → IsDisk sb → Taken sb n c c' → n ≢ no_blkno
blkno_lem sb n c c' disk t e = let x = t.on_disk in let y = disk.layout.numbers in omega arith

-- On a disk whose layout is sound (IsDisk) and whose bitmaps hold bytes, a call of balloc that
-- returns a block took one that no bit said is in use, and it is zero; its bit is set and no
-- other, and no other block behind the bitmaps changes. A call that returns an error changes no
-- block outside of the bitmaps and leaves each block in use that was.
pub balloc-BlockGiven :
    (sb : FsMeta) (r : Result ℕ) (c c' : Cache)
    → IsDisk sb
    → IsCache c
    → MapsOfBytes sb c
    → balloc sb c ≡ some (r, c')
    → BlockGiven sb r c c'
unfolding balloc clear_block
balloc-BlockGiven sb r c c' disk w bytes e = elim (Option-cases (bbm_alloc sb c)) [
  | inl waits ↦ absurd (none-ne-some (rw (waits, balloc) at e))
  | inr ((err x, c1), got) ↦
      let a = bbm_alloc-Allocated sb (err x) c c1 disk.layout w bytes got in
      as_returned (some-inj (rw (got, balloc) at e)) (failed-BlockGiven sb x c c1 disk a)
  | inr ((ok n, c1), got) ↦
      let a = bbm_alloc-Allocated sb (ok n) c c1 disk.layout w bytes got in
      let num : n ≢ no_blkno = blkno_lem sb n c c1 disk (a.taken n refl) in
      elim (Option-cases (bcache_read n c1)) [
        | inl waits ↦ absurd (none-ne-some (rw (got, waits, balloc) at e))
        | inr ((none, c2), stale) ↦
            let read = bcache_read-Read n none c1 c2 a.well num stale in
            elim (Option-cases (bbm_free sb n c2)) [
              | inl waits ↦ absurd (none-ne-some (rw (got, stale, balloc, waits, clear_block) at e))
              | inr ((res, c3), freed) ↦
                  let f =
                    bbm_free-Freed sb n res c2 c3 disk read.well
                      (SameContents-MapsOfBytes sb c1 c2 disk.layout read.kept a.bytes) freed in
                  as_returned (some-inj (rw (got, stale, balloc, freed, clear_block) at e))
                    (given_back-BlockGiven sb n res c c1 c2 c3 disk a read.kept f)
            ]
        | inr ((some b, c2), held) ↦
            as_returned (some-inj (rw (got, held, balloc, clear_block) at e)) (
              cleared-BlockGiven sb n c c1 (written b zeros c2) disk a
                (read_and_written-Updated n b zeros c1 c2 a.well num held))
      ]
]
