-- ===== src/Fs/Used.antt =====
-- Which data blocks are in use, as the bitmaps in the contents of a block cache say, and what an
-- allocation changes of that.
use rv_mini_os.Prelude.{
  ℕ, ◌+◌, ◌*◌, ◌/◌, ◌%◌, ◌^◌, ◌<◌, ◌≤◌, ◌⊎◌, ◌≡◌, ◌≢◌, ◌∙◌, sym, ap, inl, inr, Bool, true, false,
  arith, ◌==◌, ==_iff, Bool-cases, if◌then◌else◌,
}
use rv_mini_os.Err.{err-ne-ok, Result, ok, err}
use rv_mini_os.Fs.Bcache.{Bytes, Cache, no_blkno}
use rv_mini_os.Fs.Bitmap.{get_bit}
use rv_mini_os.Fs.Balloc.{FsMeta, bits_per_blk}
use rv_mini_os.Fs.Contents.{IsCache, contents}
use rv_mini_os.Fs.Writes.{Updated}

-- bit `d` of the bitmaps, which is for data block `d`
unfoldable pub used : FsMeta → Cache → ℕ → Bool
used sb c d = get_bit (contents c (sb.dbm_start + d / bits_per_blk)) (d % bits_per_blk)

-- The bitmaps and the numbers of the blocks that they stand for are below 2^32, and those of the blocks
-- of the disk are not negative as an `int32_t`.
pub record IsLayout (sb : FsMeta) : Type 0 where
  pub maps : sb.dbm_start + sb.nb_dbm < 2 ^ 32
  pub blocks : sb.data_start + sb.nb_dbm * bits_per_blk ≤ 2 ^ 32
  pub numbers : sb.nb_blk ≤ 2 ^ 31

-- The data blocks have bits and lie behind the bitmaps, their numbers fit into 32 bits, and their
-- places among the data blocks into an `int`.
pub record IsDisk (sb : FsMeta) : Type 0 where
  pub layout : IsLayout sb
  pub counted : sb.nb_dblk ≤ sb.nb_dbm * bits_per_blk
  pub ends : sb.data_start + sb.nb_dblk < 2 ^ 32
  pub behind : sb.dbm_start + sb.nb_dbm ≤ sb.data_start
  pub places : sb.nb_dblk ≤ 2 ^ 31

abbrev pub SameContents : Cache → Cache → Type 0
SameContents c c' = (k : ℕ) → k ≢ no_blkno → contents c' k ≡ contents c k

abbrev pub OutsideMaps : FsMeta → ℕ → Type 0
OutsideMaps sb k = (k < sb.dbm_start) ⊎ (sb.dbm_start + sb.nb_dbm ≤ k)

-- the bitmaps hold bytes
abbrev pub MapsOfBytes : FsMeta → Cache → Type 0
MapsOfBytes sb c = (i j : ℕ) → i < sb.nb_dbm → contents c (sb.dbm_start + i) j < 256

-- Block `n` is data block `d`, which was not in use and now is; all other bits are as they were.
pub record Taken (sb : FsMeta) (n : ℕ) (c c' : Cache) : Type 0 where
  pub d : ℕ
  pub number : n ≡ sb.data_start + d
  pub in_maps : d < sb.nb_dbm * bits_per_blk
  pub on_disk : n < sb.nb_blk
  pub unused : used sb c d ≡ false
  pub bits :
      (e : ℕ) → e < sb.nb_dbm * bits_per_blk → used sb c' e ≡ (if e == d then true else used sb c e)

-- Block `n` is data block `d`, which is not in use any more; all other bits are as they were.
pub record Returned (sb : FsMeta) (n : ℕ) (c c' : Cache) : Type 0 where
  pub d : ℕ
  pub number : n ≡ sb.data_start + d
  pub bits :
      (e : ℕ)
      → e < sb.nb_dbm * bits_per_blk
      → used sb c' e ≡ (if e == d then false else used sb c e)

-- A block is taken and no block but those of the bitmaps changes, or there is an error and no change.
pub record Allocated (sb : FsMeta) (r : Result ℕ) (c c' : Cache) : Type 0 where
  pub well : IsCache c'
  pub bytes : MapsOfBytes sb c'
  pub taken : (n : ℕ) → r ≡ ok n → Taken sb n c c'
  pub others : (k : ℕ) → k ≢ no_blkno → OutsideMaps sb k → contents c' k ≡ contents c k
  pub failed : (x : ℕ) → r ≡ err x → SameContents c c'

-- A data block is returned and no block but those of the bitmaps changes, or there is an error and no change.
pub record Freed (sb : FsMeta) (n : ℕ) (r : Result ℕ) (c c' : Cache) : Type 0 where
  pub well : IsCache c'
  pub bytes : MapsOfBytes sb c'
  pub returned : (m : ℕ) → r ≡ ok m → Returned sb n c c'
  pub others : (k : ℕ) → k ≢ no_blkno → OutsideMaps sb k → contents c' k ≡ contents c k
  pub failed : (x : ℕ) → r ≡ err x → SameContents c c'

pub in_map :
    (sb : FsMeta) (d : ℕ)
    → IsLayout sb
    → d < sb.nb_dbm * bits_per_blk
    → sb.dbm_start + d / bits_per_blk ≢ no_blkno
in_map sb d l h e = let m = l.maps in omega arith

pub map_blkno :
    (sb : FsMeta) (i : ℕ)
    → IsLayout sb
    → i < sb.nb_dbm
    → ((sb.dbm_start + i) % 2 ^ 32 ≡ sb.dbm_start + i) × (sb.dbm_start + i ≢ no_blkno)
map_blkno sb i l below = let m = l.maps in (omega arith, λ e. omega arith)

pub used-SameContents :
    (sb : FsMeta) (c c' : Cache) (d : ℕ)
    → IsLayout sb
    → d < sb.nb_dbm * bits_per_blk
    → SameContents c c'
    → used sb c' d ≡ used sb c d
unfolding used
used-SameContents sb c c' d l h same =
    ap (λ m. get_bit m (d % bits_per_blk))
      (same (sb.dbm_start + d / bits_per_blk) (in_map sb d l h))

pub SameContents-MapsOfBytes :
    (sb : FsMeta) (c c' : Cache)
    → IsLayout sb
    → SameContents c c'
    → MapsOfBytes sb c
    → MapsOfBytes sb c'
SameContents-MapsOfBytes sb c c' l same bytes i j h =
    rw (same (sb.dbm_start + i) (map_blkno sb i l h).1) (bytes i j h)

-- a bitmap that changes, but stays one of bytes
pub Updated-MapsOfBytes :
    (sb : FsMeta) (i : ℕ) (v : Bytes) (c c' : Cache)
    → IsLayout sb
    → ((j : ℕ) → v j < 256)
    → MapsOfBytes sb c
    → Updated (sb.dbm_start + i) v c c'
    → MapsOfBytes sb c'
Updated-MapsOfBytes sb i v c c' l small bytes u k j h = elim (Bool-cases (k == i)) [
  | inl same ↦ rw ((==_iff k i).0 same, u.stored) (small j)
  | inr other ↦
      rw (u.kept (sb.dbm_start + k) (map_blkno sb k l h).1 (λ z. ground arith)) (bytes k j h)
]

-- an allocation that follows steps that keep the contents
pub Allocated-after :
    (sb : FsMeta) (r : Result ℕ) (c c1 c' : Cache)
    → IsLayout sb
    → SameContents c c1
    → Allocated sb r c1 c'
    → Allocated sb r c c'
Allocated-after sb r c c1 c' l same a = record {
  well = a.well;
  bytes = a.bytes;
  taken = λ n f.
      let t = a.taken n f in
      record {
        d = t.d;
        number = t.number;
        in_maps = t.in_maps;
        on_disk = t.on_disk;
        unused = sym (used-SameContents sb c c1 t.d l t.in_maps same) ∙ t.unused;
        bits = λ e h.
            t.bits e h
            ∙ ap (λ u. if e == t.d then true else u) (used-SameContents sb c c1 e l h same);
      };
  others = λ k num out. a.others k num out ∙ same k num;
  failed = λ x f k num. a.failed x f k num ∙ same k num;
}

pub Allocated-failed :
    (sb : FsMeta) (x : ℕ) (c c' : Cache)
    → IsLayout sb
    → MapsOfBytes sb c
    → IsCache c'
    → SameContents c c'
    → Allocated sb (err x) c c'
Allocated-failed sb x c c' l bytes w same = record {
  well = w;
  bytes = SameContents-MapsOfBytes sb c c' l same bytes;
  taken = λ n f. absurd (err-ne-ok f);
  others = λ k num out. same k num;
  failed = λ y f. same;
}
