-- ===== src/Files/Errors.antt =====
-- What a read of a file returns, and how it moves the offset.
use rv_mini_os.Prelude.{
  ℕ, ◌≢◌, ap, ◌+◌, ◌%◌, ◌^◌, ◌≤◌, ◌≡◌, refl, true, Option, none, some, arith, ==_refl, none-ne-some,
}
use rv_mini_os.Err.{Result, ok, err, eio, ok-ne-err}
use rv_mini_os.Vpages.{has_flag}
use rv_mini_os.Fs.Inode.{Fs, Call, inode_lock, inode_unlock}
use rv_mini_os.Fs.ReadWrite.{Buffer, inode_read}
use rv_mini_os.Fs.Amount.{Amount, inode_read-Amount}
use rv_mini_os.Files.{Files, Io, file_op, o_r, set_fs, on_lock, after_read, file_reader, file_read}

module _ {M : Type 0} (buffer : Buffer M) where
  abbrev result_or : Result ℕ → Io buffer → Result ℕ
  result_or d none = d
  result_or d (some (r, s)) = r

  -- The offset moves by the bytes that are read, `count` at most; the only error is EIO, with which
  -- it stays.
  abbrev pub Reads : (f count off : ℕ) → Io buffer → Type 0
  Reads f count off none = Unit
  Reads f count off (some (ok n, (w, m))) = (n ≤ count) × ((w.ftable f).off ≡ off + n)
  Reads f count off (some (err e, (w, m))) = (e ≡ eio) × ((w.ftable f).off ≡ off)

  after_read-Reads :
      (f count : ℕ) (w : Files) (r : Option (Result ℕ × (Fs × M)))
      → Amount buffer count r
      → Reads f count (w.ftable f).off (after_read buffer f w r)
  after_read-Reads f count w none h = tt
  after_read-Reads f count w (some (err e, (s, m))) h = (omega arith, omega arith)
  after_read-Reads f count w (some (ok n, (s, m))) h = (h.0, ground (arith, ==_refl f))

  on_lock-Reads :
      (f count : ℕ) (w : Files) (m : M) (c : Call) (next : Files → Io buffer)
      → ((s : Fs) → Reads f count (w.ftable f).off (next (set_fs w s)))
      → Reads f count (w.ftable f).off (on_lock buffer w m c next)
  on_lock-Reads f count w m none next h = tt
  on_lock-Reads f count w m (some (err e, s)) next h = (refl, refl)
  on_lock-Reads f count w m (some (ok n, s)) next h = h s

  file_reader-Reads :
      (f count : ℕ) (w : Files) (m : M)
      → Reads f count (w.ftable f).off (file_reader buffer f count w m)
  unfolding file_reader
  file_reader-Reads f count w m =
      on_lock-Reads f count w m (inode_lock (w.ftable f).i w.fs)
        (λ w1.
          after_read buffer f w1
            (inode_read buffer (w.ftable f).i ((w.ftable f).off % 2 ^ 32) count w1.fs m))
        (λ s.
          after_read-Reads f count (set_fs w s)
            (inode_read buffer (w.ftable f).i ((w.ftable f).off % 2 ^ 32) count s m)
            (inode_read-Amount buffer (w.ftable f).i ((w.ftable f).off % 2 ^ 32) count s m))

  after_read-no_err :
      (f e : ℕ) (w w' : Files) (m' : M) (r : Option (Result ℕ × (Fs × M)))
      → after_read buffer f w r ≢ some (err e, (w', m'))
  after_read-no_err f e w w' m' none z = cc
  after_read-no_err f e w w' m' (some (err x, (s, m))) z = ok-ne-err (ap (result_or (ok 0)) z)
  after_read-no_err f e w w' m' (some (ok n, (s, m))) z = ok-ne-err (ap (result_or (ok 0)) z)

  on_lock-of_lock :
      (f e count : ℕ) (w w' : Files) (m m' : M) (c : Call)
      → on_lock buffer w m c (λ w1.
        after_read buffer f w1
          (inode_read buffer (w.ftable f).i ((w.ftable f).off % 2 ^ 32) count w1.fs m))
        ≡ some (err e, (w', m'))
      → (x : ℕ) × (s : Fs) × (c ≡ some (err x, s))
  on_lock-of_lock f e count w w' m m' none z = absurd (none-ne-some z)
  on_lock-of_lock f e count w w' m m' (some (err x, s)) z = (x, s, refl)
  on_lock-of_lock f e count w w' m m' (some (ok n, s)) z = absurd (
      after_read-no_err f e (set_fs w s) w' m'
        (inode_read buffer (w.ftable f).i ((w.ftable f).off % 2 ^ 32) count s m) z)

  -- What a read returns, and what it makes of an error of `inode_read`: the result 0, the offset as it
  -- was and the inode unlocked.
  pub record ReadOf (f count : ℕ) (w : Files) (m : M) (r : Io buffer) : Type 0 where
    pub returns : Reads f count (w.ftable f).off r
    pub of_lock :
        (e : ℕ) (w' : Files) (m' : M)
        → r ≡ some (err e, (w', m'))
        → (x : ℕ) × (s : Fs) × (inode_lock (w.ftable f).i w.fs ≡ some (err x, s))
    pub swallows :
        (n e : ℕ) (s s1 : Fs) (m1 : M)
        → inode_lock (w.ftable f).i w.fs ≡ some (ok n, s)
        → inode_read buffer (w.ftable f).i ((w.ftable f).off % 2 ^ 32) count s m
          ≡ some (err e, (s1, m1))
        → r ≡ some (ok 0, (set_fs w (inode_unlock (w.ftable f).i s1), m1))

  -- A read of a file that is open for reading and is no device moves the offset by the number
  -- of bytes that it returns, which is `count` at most. The only error is EIO, with which the
  -- offset stays, and it comes only from an error of `inode_lock`. An error of `inode_read` is
  -- not passed on: the result is 0, with the state that `inode_read` left, in which the inode
  -- is unlocked.
  pub file_read-Reads :
      (device : (callback f count : ℕ) → Files → M → Io buffer) (f count : ℕ) (w : Files) (m : M)
      → has_flag (w.ftable f).mode o_r ≡ true
      → (w.ftable f).r_op ≡ file_op
      → ReadOf f count w m (file_read buffer device f count w m)
  unfolding file_read file_reader
  file_read-Reads device f count w m readable regular =
      rw (readable, regular)
        (record {
          returns = file_reader-Reads f count w m;
          of_lock =
              λ e w' m' z. on_lock-of_lock f e count w w' m m' (inode_lock (w.ftable f).i w.fs) z;
          swallows = λ n e s s1 m1 locked failed. rw (locked, failed);
        })
