-- ===== src/Fs/ReadBack.antt =====
-- What a task writes into a block it reads again from the cache.
use rv_mini_os.Prelude.{
  ℕ, ◌+◌, ◌%◌, ◌^◌, ◌≡◌, refl, ◌∙◌, true, false, some, List, ◌∷◌, arith, ==_refl, find?-holds,
  Option-cases, some-inj, none-ne-some, inl, inr,
}
use rv_mini_os.Fs.Bcache.{
  Bytes, Cache, cache_request, match_blkno, find_reusable, take, reuse, bcache_getblk, fetch,
  bcache_read, bcache_release, bcache_mark_dirty, set_cblk,
}
use rv_mini_os.Task.{without}
use rv_mini_os.Fs.Balloc.{write_buf}

request-blkno : (n b : ℕ) (c : Cache) → cache_request n c ≡ some b → (c.cblk b).blkno ≡ n
unfolding cache_request match_blkno
request-blkno n b c e = ground (arith, find?-holds (match_blkno n c) b c.buf_list e)

take-blkno :
    (n x b : ℕ) (c c' : Cache)
    → (c.cblk x).blkno ≡ n
    → take x c ≡ some (b, c')
    → (c'.cblk b).blkno ≡ n
unfolding take
take-blkno n x b c c' h e = ground (arith, ==_refl x)

pub getblk-blkno :
    (n b : ℕ) (c c' : Cache) → bcache_getblk n c ≡ some (b, c') → (c'.cblk b).blkno ≡ n
unfolding bcache_getblk reuse
getblk-blkno n b c c' e = elim (Option-cases (cache_request n c)) [
  | inr (x, hit) ↦ take-blkno n x b c c' (request-blkno n x c hit) (rw (hit, bcache_getblk) at e)
  | inl miss ↦ elim (Option-cases (find_reusable c)) [
    | inl full ↦ absurd (none-ne-some (rw (miss, bcache_getblk, full, reuse) at e))
    | inr (x, spare) ↦
        take-blkno n x b (set_cblk x (record (c.cblk x) { blkno = n; valid = false }) c) c'
          (ground (arith, ==_refl x)) (rw (miss, bcache_getblk, spare, reuse) at e)
  ]
]

fetch-valid :
    (n x b : ℕ) (c c' : Cache)
    → (c.cblk x).blkno ≡ n
    → fetch n x c ≡ (some b, c')
    → ((c'.cblk b).blkno ≡ n) × ((c'.cblk b).valid ≡ true)
unfolding fetch
fetch-valid n x b c c' h e = ground (arith, ==_refl x)

pub read-fields :
    (n b : ℕ) (c c' : Cache)
    → bcache_read n c ≡ some (some b, c')
    → ((c'.cblk b).blkno ≡ n) × ((c'.cblk b).valid ≡ true)
unfolding bcache_read
read-fields n b c c' e = elim (Option-cases (bcache_getblk n c)) [
  | inl stuck ↦ absurd (none-ne-some (rw (stuck, bcache_read) at e))
  | inr ((x, c1), got) ↦
      fetch-valid n x b c1 c' (getblk-blkno n x c c1 got) (some-inj (rw (got, bcache_read) at e))
]

request-first :
    (n b : ℕ) (bs : List ℕ) (c : Cache)
    → c.buf_list ≡ b ∷ bs
    → (c.cblk b).blkno ≡ n
    → cache_request n c ≡ some b
unfolding cache_request match_blkno
request-first n b bs c l e = rw (l, e, ==_refl n)

-- A valid buffer that is free and the first of the list is read as it is.
read-first :
    (n b : ℕ) (bs : List ℕ) (c : Cache)
    → c.buf_list ≡ b ∷ bs
    → (c.cblk b).blkno ≡ n
    → (c.cblk b).valid ≡ true
    → (c.cblk b).held ≡ false
    → (c' : Cache) × (bcache_read n c ≡ some (some b, c')) × ((c'.cblk b).buf ≡ (c.cblk b).buf)
unfolding bcache_read bcache_getblk take fetch
read-first n b bs c l e valid free =
    let hit : cache_request n c ≡ some b = request-first n b bs c l e in
    (
      set_cblk b (record (c.cblk b) { refcnt = ((c.cblk b).refcnt + 1) % 2 ^ 32; held = true }) c,
      rw (hit, bcache_read, bcache_getblk, free, valid, ==_refl b, take, fetch),
      ground (arith, ==_refl b),
    )

-- the write of `v` into a buffer, and its release
abbrev pub written : ℕ → Bytes → Cache → Cache
written b v c = bcache_release b (bcache_mark_dirty b (write_buf b v c))

written-fields :
    (b : ℕ) (v : Bytes) (c : Cache)
    → ((written b v c).buf_list ≡ b ∷ without b c.buf_list)
      × (((written b v c).cblk b).blkno ≡ (c.cblk b).blkno)
      × (((written b v c).cblk b).valid ≡ (c.cblk b).valid)
      × (((written b v c).cblk b).held ≡ false)
      × (((written b v c).cblk b).buf ≡ v)
unfolding bcache_release bcache_mark_dirty
written-fields b v c = (refl, rw (==_refl b), rw (==_refl b), rw (==_refl b), rw (==_refl b))

-- A task that has read block `n`, written into its buffer, marked it dirty and released it reads
-- its bytes back: the next `bcache_read` does not wait or fail, and gives the same buffer with the
-- written bytes.
pub read-written :
    (n b : ℕ) (c c1 : Cache) (v : Bytes)
    → bcache_read n c ≡ some (some b, c1)
    → (c2 : Cache) × (bcache_read n (written b v c1) ≡ some (some b, c2)) × ((c2.cblk b).buf ≡ v)
read-written n b c c1 v e =
    let f = read-fields n b c c1 e in
    let w = written-fields b v c1 in
    let (c2, returns, kept) =
      read-first n b (without b c1.buf_list) (written b v c1) w.0 (w.1 ∙ f.0) (w.2 ∙ f.1) w.3 in
    (c2, returns, kept ∙ w.4)
