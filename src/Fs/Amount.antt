-- ===== src/Fs/Amount.antt =====
-- How much a read or a write of a file transfers, and that its loop ends.
use rv_mini_os.Prelude.{
  ℕ, zero, suc, ◌+◌, ◌-◌, ◌/◌, ◌%◌, ◌^◌, ◌≤◌, ◌<◌, ◌≡◌, refl, sym, ap, true, false, Option, none,
  some, arith, ◌==◌, ltb, leb, Bool-cases, inl, inr,
}
use rv_mini_os.Err.{Result, ok, err}
use rv_mini_os.Fs.Inode.{Fs, Call, read_blk, blk_buf, release_blk}
use rv_mini_os.Fs.Blocks.{get_data}
use rv_mini_os.Fs.ReadWrite.{
  Buffer, Copied, on_call, read_copied, blk_size, part, bytes_from, read_round, read_loop, read_end,
  inode_read,
}

module _ {M : Type 0} (buffer : Buffer M) where
  part_lem :
      (offset count done : ℕ)
      → done < count
      → (0 < part buffer offset count done) × (done + part buffer offset count done ≤ count)
  part_lem offset count done h = (ground arith, ground arith)

  -- a property of how a read ends holds if it holds for a wait, an error and the rounds that follow
  module _ (Q : Copied buffer → Type 0) (done : ℕ) (waits : Q none)
      (fails : (e : ℕ) (w : Fs × M) → Q (some ((done, err e), w))) where
    on_call-ind :
        (m : M) (c : Call) (f : ℕ → Fs → Copied buffer)
        → ((n : ℕ) (s : Fs) → Q (f n s))
        → Q (on_call buffer done m c f)
    on_call-ind m none f h = waits
    on_call-ind m (some (err e, s)) f h = fails e (s, m)
    on_call-ind m (some (ok n, s)) f h = h n s

    read_copied-ind :
        (b : ℕ) (s : Fs) (r : Option (Result ℕ × M)) (next : Fs → M → Copied buffer)
        → ((s : Fs) (m : M) → Q (next s m))
        → Q (read_copied buffer done b s r next)
    read_copied-ind b s none next h = waits
    read_copied-ind b s (some (err e, m)) next h = fails e (release_blk b s, m)
    read_copied-ind b s (some (ok n, m)) next h = h (release_blk b s) m

    read_round-ind :
        (i offset size : ℕ) (next : Fs → M → Copied buffer) (s : Fs) (m : M)
        → ((s : Fs) (m : M) → Q (next s m))
        → Q (read_round buffer i offset done size next s m)
    unfolding read_round
    read_round-ind i offset size next s m h =
        let copied : ℕ → Fs → Option (Result ℕ × M) =
          λ b s2. buffer.store done (bytes_from size (offset % blk_size) (blk_buf b s2)) m in
        let with_block : ℕ → Fs → Copied buffer =
          λ b s2. read_copied buffer done b s2 (copied b s2) next in
        on_call-ind m (get_data i (offset / blk_size) s)
          (λ dblkno s1. on_call buffer done m (read_blk dblkno s1) with_block)
          (λ dblkno s1.
            on_call-ind m (read_blk dblkno s1) with_block
              (λ b s2. read_copied-ind b s2 (copied b s2) next h))

  -- A loop ends with all bytes, or with less at an error.
  abbrev pub End : (count : ℕ) → Copied buffer → Type 0
  End count none = Unit
  End count (some ((done, ok n), w)) = (done ≡ count) × (n ≡ 0)
  End count (some ((done, err e), w)) = done < count

  read_loop-End :
      (fuel i offset count done : ℕ) (s : Fs) (m : M)
      → done ≤ count
      → count - done ≤ fuel
      → End count (read_loop buffer fuel i offset count done s m)
  unfolding read_loop
  read_loop-End zero i offset count done s m h l = (omega arith, refl)
  read_loop-End (suc fuel) i offset count done s m h l = elim (Bool-cases (leb count done)) [
    | inl all ↦ rw all (ground arith, refl)
    | inr more ↦
        let size = part buffer offset count done in
        let (one, fits) = part_lem offset count done (ground arith) in
        rw more (
          read_round-ind (End count) done tt (λ e w. ground arith) i offset size
            (λ s1 m1. read_loop buffer fuel i ((offset + size) % 2 ^ 32) count (done + size) s1 m1)
            s m
            (λ s1 m1.
              read_loop-End fuel i ((offset + size) % 2 ^ 32) count (done + size) s1 m1 fits
                (omega arith)))
  ]

  -- What was transferred: as much as was asked for at most, and nothing only if that was asked for.
  abbrev pub Amount : (count : ℕ) → Option (Result ℕ × (Fs × M)) → Type 0
  Amount count none = Unit
  Amount count (some (ok n, w)) = (n ≤ count) × (n ≡ 0 → count ≡ 0)
  Amount count (some (err e, w)) = Unit

  read_end-Amount : (count : ℕ) (c : Copied buffer) → End count c → Amount count (read_end buffer c)
  read_end-Amount count none h = tt
  read_end-Amount count (some ((zero, ok n), w)) h = (omega (arith, h.1), λ e. sym h.0)
  read_end-Amount count (some ((suc done, ok n), w)) h =
      let some_done : (suc done == 0) ≡ false = ground arith in
      rw some_done (omega (arith, h.0), λ e. absurd (omega arith))
  read_end-Amount count (some ((zero, err e), w)) h = tt
  read_end-Amount count (some ((suc done, err e), w)) h =
      let some_done : (suc done == 0) ≡ false = ground arith in
      rw some_done (omega arith, λ z. absurd (omega arith))

  -- A call of `inode_read` that returns a number of bytes returns `count` at most, and 0 only if
  -- `count` is 0.
  pub inode_read-Amount :
      (i offset count : ℕ) (s : Fs) (m : M) → Amount count (inode_read buffer i offset count s m)
  unfolding inode_read
  inode_read-Amount i offset count s m =
      elim (Bool-cases (ltb (s.inode i).content.size ((offset + count) % 2 ^ 64))) [
        | inl outside ↦ rw outside tt
        | inr inside ↦ rw inside (
            read_end-Amount count (read_loop buffer count i offset count 0 s m)
              (read_loop-End count i offset count 0 s m (omega arith) (omega arith)))
      ]

  same-round :
      (i offset done size : ℕ) (next next' : Fs → M → Copied buffer) (s : Fs) (m : M)
      → ((s : Fs) (m : M) → next s m ≡ next' s m)
      → read_round buffer i offset done size next s m
        ≡ read_round buffer i offset done size next' s m
  same-round i offset done size next next' s m h =
      ap (λ n. read_round buffer i offset done size n s m) (λ j s1 m1. h s1 m1 j)

  read_loop-all :
      (fuel i offset count done : ℕ) (s : Fs) (m : M)
      → leb count done ≡ true
      → read_loop buffer fuel i offset count done s m ≡ some ((done, ok 0), (s, m))
  unfolding read_loop
  read_loop-all zero i offset count done s m h = refl
  read_loop-all (suc fuel) i offset count done s m h = rw h

  -- Fuel for the bytes that are left is enough for the loop of `inode_read`: each round makes some
  -- progress, so more fuel gives the same.
  pub read_loop-enough_fuel :
      (fuel fuel' i offset count done : ℕ) (s : Fs) (m : M)
      → count - done ≤ fuel
      → count - done ≤ fuel'
      → read_loop buffer fuel i offset count done s m
        ≡ read_loop buffer fuel' i offset count done s m
  unfolding read_loop
  read_loop-enough_fuel zero fuel' i offset count done s m l l' =
      sym (read_loop-all fuel' i offset count done s m (ground arith))
  read_loop-enough_fuel (suc fuel) zero i offset count done s m l l' =
      read_loop-all (suc fuel) i offset count done s m (ground arith)
  read_loop-enough_fuel (suc fuel) (suc fuel') i offset count done s m l l' =
      elim (Bool-cases (leb count done)) [
        | inl all ↦ rw all
        | inr left ↦
            let size = part buffer offset count done in
            let (one, fits) = part_lem offset count done (ground arith) in
            rw left (
              same-round i offset done size
                (λ s1 m1.
                  read_loop buffer fuel i ((offset + size) % 2 ^ 32) count (done + size) s1 m1)
                (λ s1 m1.
                  read_loop buffer fuel' i ((offset + size) % 2 ^ 32) count (done + size) s1 m1)
                s m
                (λ s1 m1.
                  read_loop-enough_fuel fuel fuel' i ((offset + size) % 2 ^ 32) count (done + size)
                    s1 m1 (omega arith) (omega arith)))
      ]
