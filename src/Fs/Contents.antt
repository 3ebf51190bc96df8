-- ===== src/Fs/Contents.antt =====
-- What a block cache shows of its disk: a valid buffer, or else the disk.
use rv_mini_os.Prelude.{
  ℕ, ◌≡◌, ◌≢◌, ◌⊎◌, inl, inr, sym, ap, ◌∙◌, Bool, true, false, none, some, List, [], ◌∷◌, arith,
  ◌==◌, ==_iff, if◌then◌else◌, has, find?, find?-holds, Option-cases, Bool-cases,
}
use rv_mini_os.Fs.Bcache.{Bytes, Cache, no_blkno, get_sector, match_blkno, cache_request}

-- the bytes of a block on the disk
abbrev pub block_on_disk : Cache → ℕ → Bytes
block_on_disk c n = c.disk (get_sector n)

-- the bytes of a buffer, or those of the disk if it is not valid
abbrev pub seen_in : Cache → (b n : ℕ) → Bytes
seen_in c b n = if (c.cblk b).valid then (c.cblk b).buf else block_on_disk c n

unfoldable pub contents : Cache → ℕ → Bytes
contents c n = elim (cache_request n c) [ none ↦ block_on_disk c n | some b ↦ seen_in c b n ]

-- No two buffers are of one block, and a valid buffer that is not dirty is as the disk is.
pub record IsCache (c : Cache) : Type 0 where
  pub unique :
      (a b : ℕ)
      → has a c.buf_list ≡ true
      → has b c.buf_list ≡ true
      → (c.cblk a).blkno ≡ (c.cblk b).blkno
      → (c.cblk a).blkno ≢ no_blkno
      → a ≡ b
  pub clean :
      (b : ℕ)
      → has b c.buf_list ≡ true
      → (c.cblk b).valid ≡ true
      → (c.cblk b).dirty ≡ false
      → (c.cblk b).buf ≡ block_on_disk c (c.cblk b).blkno

abbrev pub NoBuffer : Cache → ℕ → Type 0
NoBuffer c n = (b : ℕ) → has b c.buf_list ≡ true → (c.cblk b).blkno ≢ n

-- a buffer of the block, with what it shows
pub record Buffer (c : Cache) (n : ℕ) (v : Bytes) : Type 0 where
  pub index : ℕ
  pub listed : has index c.buf_list ≡ true
  pub of_block : (c.cblk index).blkno ≡ n
  pub shows : seen_in c index n ≡ v

abbrev pub Shows : Cache → ℕ → Bytes → Type 0
Shows c n v = Buffer c n v ⊎ (NoBuffer c n × (block_on_disk c n ≡ v))

pub find?-has : (p : ℕ → Bool) (x : ℕ) (xs : List ℕ) → find? p xs ≡ some x → has x xs ≡ true
find?-has p x [] e = cc
find?-has p x (y ∷ ys) e = ground (arith, find?-has p x ys)

find?-none :
    (p : ℕ → Bool) (xs : List ℕ) → find? p xs ≡ none → (x : ℕ) → has x xs ≡ true → p x ≡ false
find?-none p [] e x h = absurd (ground arith)
find?-none p (y ∷ ys) e x h = elim (Bool-cases (x == y)) [
  | inl same ↦ ap p ((==_iff x y).0 same) ∙ ground arith
  | inr other ↦ find?-none p ys (ground arith) x (ground arith)
]

pub request-miss : (n : ℕ) (c : Cache) → cache_request n c ≡ none → NoBuffer c n
unfolding cache_request match_blkno
request-miss n c e b h f =
    ground (arith, find?-none (match_blkno n c) c.buf_list e b h, ==_iff (c.cblk b).blkno n)

pub request-hit :
    (n b : ℕ) (c : Cache)
    → cache_request n c ≡ some b
    → (has b c.buf_list ≡ true) × ((c.cblk b).blkno ≡ n)
unfolding cache_request match_blkno
request-hit n b c e = (
  find?-has (match_blkno n c) b c.buf_list e,
  (==_iff (c.cblk b).blkno n).0 (find?-holds (match_blkno n c) b c.buf_list e),
)

pub contents-Shows : (n : ℕ) (c : Cache) → Shows c n (contents c n)
unfolding contents
contents-Shows n c = elim (Option-cases (cache_request n c)) [
  | inl miss ↦ inr (request-miss n c miss, rw (miss, contents))
  | inr (b, hit) ↦ inl (record {
    index = b;
    listed = (request-hit n b c hit).0;
    of_block = (request-hit n b c hit).1;
    shows = rw (hit, contents);
  })
]

pub Shows-contents :
    (n : ℕ) (c : Cache) (v : Bytes) → IsCache c → n ≢ no_blkno → Shows c n v → contents c n ≡ v
unfolding contents
Shows-contents n c v w numbered s = elim (Option-cases (cache_request n c)) [
  | inl miss ↦ rw (miss, contents) (without_buffer s (request-miss n c miss))
  | inr (b, hit) ↦ rw (hit, contents) (with_buffer s b (request-hit n b c hit))
]
  where
    without_buffer : Shows c n v → NoBuffer c n → block_on_disk c n ≡ v
    without_buffer (inl r) none_of = absurd (none_of r.index r.listed r.of_block)
    without_buffer (inr r) none_of = r.1

    with_buffer :
        Shows c n v
        → (b : ℕ) → (has b c.buf_list ≡ true) × ((c.cblk b).blkno ≡ n)
        → seen_in c b n ≡ v
    with_buffer (inl r) b h =
        let same : b ≡ r.index =
          w.unique b r.index h.0 r.listed (h.1 ∙ sym r.of_block) (λ z. numbered (sym h.1 ∙ z)) in
        ap (λ x. seen_in c x n) same ∙ r.shows
    with_buffer (inr r) b h = absurd (r.0 b h.0 h.1)
