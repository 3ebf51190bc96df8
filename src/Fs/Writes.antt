-- ===== src/Fs/Writes.antt =====
-- What a write through the block cache changes of the contents.
use rv_mini_os.Prelude.{
  ℕ, ◌≡◌, ◌≢◌, inl, inr, refl, sym, ◌∙◌, true, some, arith, ◌==◌, ==_iff, ==_refl, has, Bool-cases,
}
use rv_mini_os.Fs.Bcache.{Bytes, Cache, no_blkno, bcache_read, bcache_mark_dirty}
use rv_mini_os.Fs.Balloc.{write_buf}
use rv_mini_os.Fs.ReadBack.{read-fields, written}
use rv_mini_os.Fs.Contents.{IsCache, Shows, contents, contents-Shows, Shows-contents}
use rv_mini_os.Fs.Kept.{Kept, Kept-contents}
use rv_mini_os.Fs.Transparent.{bcache_read-Read, release-Kept, shown}

-- `c'` is a cache, and its contents are those of `c` with `v` at block `n`.
pub record Updated (n : ℕ) (v : Bytes) (c c' : Cache) : Type 0 where
  pub well : IsCache c'
  pub stored : contents c' n ≡ v
  pub kept : (k : ℕ) → k ≢ no_blkno → k ≢ n → contents c' k ≡ contents c k

-- the buffer written and dirty, before its release
module _ (n b : ℕ) (v : Bytes) (c : Cache) (w : IsCache c) (number : (c.cblk b).blkno ≡ n) where
  marked : Cache
  marked = bcache_mark_dirty b (write_buf b v c)

  marked-blkno : (x : ℕ) → (marked.cblk x).blkno ≡ (c.cblk x).blkno
  unfolding bcache_mark_dirty marked
  marked-blkno x = elim (Bool-cases (x == b)) [
    | inl at ↦ rw (at, ==_refl b, (==_iff x b).0 at)
    | inr other ↦ rw other
  ]

  marked-IsCache : IsCache marked
  unfolding bcache_mark_dirty marked
  marked-IsCache = record {
    unique = λ x y hx hy e numbered.
        w.unique x y hx hy (sym (marked-blkno x) ∙ e ∙ marked-blkno y)
          (λ z. numbered (marked-blkno x ∙ z));
    clean = λ x hx valid clear. elim (Bool-cases (x == b)) [
      | inl at ↦ ground (arith, rw at at clear)
      | inr other ↦ rw other (w.clean x hx (rw other at valid) (rw other at clear))
    ];
  }

  marked-Shows : (k : ℕ) (u : Bytes) → k ≢ n → Shows c k u → Shows marked k u
  unfolding bcache_mark_dirty marked
  marked-Shows k u away s = elim s [
    | inl r ↦ elim (Bool-cases (r.index == b)) [
      | inl at ↦
          let same : r.index ≡ b = (==_iff r.index b).0 at in
          absurd (away (sym (rw same at r.of_block) ∙ number))
      | inr other ↦ inl (record {
        index = r.index;
        listed = r.listed;
        of_block = marked-blkno r.index ∙ r.of_block;
        shows = rw other r.shows;
      })
    ]
    | inr (none_of, e) ↦ inr (λ x hx z. none_of x hx (sym (marked-blkno x) ∙ z), e)
  ]

  marked-kept : (k : ℕ) → k ≢ no_blkno → k ≢ n → contents marked k ≡ contents c k
  marked-kept k numbered away =
      Shows-contents k marked (contents c k) marked-IsCache numbered
        (marked-Shows k (contents c k) away (contents-Shows k c))

  written-Updated :
      n ≢ no_blkno
      → has b c.buf_list ≡ true
      → (c.cblk b).valid ≡ true
      → Updated n v c (written b v c)
  unfolding bcache_mark_dirty marked
  written-Updated numbered listed valid =
      let released : Kept marked (written b v c) = release-Kept b marked marked-IsCache listed in
      let stored : contents marked n ≡ (marked.cblk b).buf =
        shown n b marked marked-IsCache numbered listed
          (marked-blkno b ∙ number, rw (==_refl b) valid) in
      record {
        well = released.well;
        stored = Kept-contents released n numbered ∙ stored ∙ rw (==_refl b);
        kept = λ k num away. Kept-contents released k num ∙ marked-kept k num away;
      }

-- A task that reads block `n` through a cache, writes `v` into the buffer, marks it dirty and
-- releases it leaves a cache whose contents are those from before the read, with `v` at block `n`.
pub read_and_written-Updated :
    (n b : ℕ) (v : Bytes) (c c1 : Cache)
    → IsCache c
    → n ≢ no_blkno
    → bcache_read n c ≡ some (some b, c1)
    → Updated n v c (written b v c1)
read_and_written-Updated n b v c c1 w numbered e =
    let r = bcache_read-Read n (some b) c c1 w numbered e in
    let (number, valid) = read-fields n b c c1 e in
    let u = written-Updated n b v c1 r.well number numbered (r.given b refl).0 valid in
    record {
      well = u.well;
      stored = u.stored;
      kept = λ k num away. u.kept k num away ∙ r.kept k num;
    }
