-- ===== src/Fs/Transparent.antt =====
-- The block cache as a view of the disk: what its operations change of the contents of the blocks.
use rv_mini_os.Prelude.{
  ℕ, ◌+◌, ◌-◌, ◌%◌, ◌^◌, ◌≡◌, ◌≢◌, inl, inr, refl, sym, ap, ◌∙◌, true, false, Option, some, List,
  [], ◌∷◌, arith, ◌==◌, ==_iff, ==_refl, has, has-reverse_aux, Option-cases, some-inj, none-ne-some,
  Bool-cases, find?-holds,
}
use mathlib.Core.List.{reverse}
use rv_mini_os.Fs.Bcache.{
  Cache, no_blkno, cache_request, get_sector, is_reusable, find_reusable, take, reuse,
  bcache_getblk, fetch, bcache_read, bcache_release, set_cblk,
}
use rv_mini_os.Task.{without}
use rv_mini_os.Fs.Contents.{
  IsCache, contents, block_on_disk, request-miss, request-hit, find?-has, Shows-contents,
}
use rv_mini_os.Sched.Block.{has-without}
use rv_mini_os.Fs.ReadBack.{read-fields, getblk-blkno}
use rv_mini_os.Fs.Kept.{
  Kept, Kept-refl, Kept-trans, Kept-contents, set_cblk-Kept, relist-Kept, touch-Kept, reassign-Kept,
}

moved-members :
    (b : ℕ) (bs : List ℕ) → has b bs ≡ true → (x : ℕ) → has x (b ∷ without b bs) ≡ has x bs
moved-members b bs listed x = elim (Bool-cases (x == b)) [
  | inl at ↦ rw (at, (==_iff x b).0 at) (sym listed)
  | inr other ↦ rw (other) (has-without b x bs ∙ rw other)
]

take-Kept :
    (b x : ℕ) (c c' : Cache)
    → IsCache c
    → has b c.buf_list ≡ true
    → take b c ≡ some (x, c')
    → Kept c c' × (has x c'.buf_list ≡ true)
unfolding take
take-Kept b x c c' w listed e = elim (Bool-cases (c.cblk b).held) [
  | inl busy ↦ absurd (none-ne-some (rw (busy, take) at e))
  | inr free ↦
      let taken =
        set_cblk b (record (c.cblk b) { refcnt = ((c.cblk b).refcnt + 1) % 2 ^ 32; held = true })
          c in
      let same : (b, taken) ≡ (x, c') = some-inj (rw (free, take) at e) in
      (
        rw (sym (ap (λ p. p.1) same))
            (touch-Kept c b (((c.cblk b).refcnt + 1) % 2 ^ 32) true w listed),
        rw (sym (ap (λ p. p.1) same), sym (ap (λ p. p.0) same)) listed,
      )
]

pub release-Kept :
    (b : ℕ) (c : Cache) → IsCache c → has b c.buf_list ≡ true → Kept c (bcache_release b c)
unfolding bcache_release
release-Kept b c w listed =
    let c1 = set_cblk b (record (c.cblk b) { held = false }) c in
    let first : Kept c c1 = touch-Kept c b (c.cblk b).refcnt false w listed in
    let counted = ((c1.cblk b).refcnt + 2 ^ 32 - 1) % 2 ^ 32 in
    let c2 = set_cblk b (record (c1.cblk b) { refcnt = counted }) c1 in
    let second : Kept c1 c2 = touch-Kept c1 b counted (c1.cblk b).held first.well listed in
    Kept-trans first (
      Kept-trans second
        (relist-Kept c2 (b ∷ without b c.buf_list) second.well (moved-members b c.buf_list listed)))

release-has : (b : ℕ) (c : Cache) → has b (bcache_release b c).buf_list ≡ true
unfolding bcache_release
release-has b c = rw (==_refl b)

reusable :
    (b : ℕ) (c : Cache)
    → find_reusable c ≡ some b
    → (has b c.buf_list ≡ true) × ((c.cblk b).dirty ≡ false)
unfolding find_reusable is_reusable
reusable b c e = (
  ground
      (arith, has-reverse_aux b c.buf_list [], find?-has (is_reusable c) b (reverse c.buf_list) e),
  ground (arith, find?-holds (is_reusable c) b (reverse c.buf_list) e),
)

getblk-Kept :
    (n x : ℕ) (c c' : Cache)
    → IsCache c
    → bcache_getblk n c ≡ some (x, c')
    → Kept c c' × (has x c'.buf_list ≡ true)
unfolding bcache_getblk reuse
getblk-Kept n x c c' w e = elim (Option-cases (cache_request n c)) [
  | inr (b, hit) ↦ take-Kept b x c c' w (request-hit n b c hit).0 (rw (hit, bcache_getblk) at e)
  | inl miss ↦ elim (Option-cases (find_reusable c)) [
    | inl full ↦ absurd (none-ne-some (rw (miss, bcache_getblk, full, reuse) at e))
    | inr (b, spare) ↦
        let (listed, settled) = reusable b c spare in
        let first = reassign-Kept c b n w listed settled (request-miss n c miss) in
        let (second, stays) =
          take-Kept b x (set_cblk b (record (c.cblk b) { blkno = n; valid = false }) c) c'
            first.well listed (rw (miss, bcache_getblk, spare, reuse) at e) in
        (Kept-trans first second, stays)
  ]
]

fetch-Kept :
    (n x : ℕ) (c : Cache)
    → IsCache c
    → has x c.buf_list ≡ true
    → (c.cblk x).blkno ≡ n
    → Kept c (fetch n x c).1 × (has x (fetch n x c).1.buf_list ≡ true)
unfolding fetch
fetch-Kept n x c w listed number = elim (Bool-cases (c.cblk x).valid) [
  | inl valid ↦ (rw (valid, fetch) (Kept-refl c w), rw (valid, fetch) listed)
  | inr stale ↦ elim (Bool-cases (c.fails (get_sector n))) [
    | inl fails ↦ (
      rw (stale, fails, fetch) (release-Kept x c w listed),
      rw (stale, fails, fetch) (release-has x c),
    )
    | inr works ↦ (
      rw (stale, works, fetch)
          (set_cblk-Kept c x (record (c.cblk x) { buf = block_on_disk c n; valid = true }) w refl
            (rw (==_refl x, stale) (sym (ap (block_on_disk c) number)))
            (λ v d. sym (ap (block_on_disk c) number))),
      rw (stale, works, fetch) listed,
    )
  ]
]

fetch-index : (n x b : ℕ) (c : Cache) → (fetch n x c).0 ≡ some b → x ≡ b
unfolding fetch
fetch-index n x b c e = ground arith

-- a buffer in the list that is of the block and valid
pub shown :
    (n b : ℕ) (c : Cache)
    → IsCache c
    → n ≢ no_blkno
    → has b c.buf_list ≡ true
    → ((c.cblk b).blkno ≡ n) × ((c.cblk b).valid ≡ true)
    → contents c n ≡ (c.cblk b).buf
shown n b c w numbered listed (number, valid) =
    Shows-contents n c (c.cblk b).buf w numbered
      (inl (record { index = b; listed = listed; of_block = number; shows = rw valid }))

-- `c'` is a cache with the contents of `c`, and the buffer `r`, if any, is in its list and holds those
-- of block `n`.
pub record Read (n : ℕ) (r : Option ℕ) (c c' : Cache) : Type 0 where
  pub well : IsCache c'
  pub kept : (k : ℕ) → k ≢ no_blkno → contents c' k ≡ contents c k
  pub given : (b : ℕ) → r ≡ some b → (has b c'.buf_list ≡ true) × ((c'.cblk b).buf ≡ contents c n)

-- A read that does not wait, whether the device fails or not, keeps the contents and gives them.
pub bcache_read-Read :
    (n : ℕ) (r : Option ℕ) (c c' : Cache)
    → IsCache c
    → n ≢ no_blkno
    → bcache_read n c ≡ some (r, c')
    → Read n r c c'
unfolding bcache_read
bcache_read-Read n r c c' w numbered e = elim (Option-cases (bcache_getblk n c)) [
  | inl stuck ↦ absurd (none-ne-some (rw (stuck, bcache_read) at e))
  | inr ((x, c1), got) ↦
      let (first, listed) = getblk-Kept n x c c1 w got in
      let (second, stays) = fetch-Kept n x c1 first.well listed (getblk-blkno n x c c1 got) in
      let result : fetch n x c1 ≡ (r, c') = some-inj (rw (got, bcache_read) at e) in
      let p : Kept c c' = rw (sym (ap (λ q. q.1) result)) (Kept-trans first second) in
      record {
        well = p.well;
        kept = λ k. Kept-contents p k;
        given = λ b f.
            let same : x ≡ b = fetch-index n x b c1 (ap (λ q. q.0) result ∙ f) in
            let listed : has b c'.buf_list ≡ true =
              rw (sym same, sym (ap (λ q. q.1) result)) stays in
            (
              listed,
              sym (shown n b c' p.well numbered listed (read-fields n b c c' (rw f at e)))
                  ∙ Kept-contents p n numbered,
            );
      }
]
