-- ===== src/Err.antt =====
-- Results of calls: a value, or the error -Exxx (src/include/lib/err.h).
use rv_mini_os.Prelude.{ℕ, ◌≡◌, ◌≢◌, Bool, true, false}

-- `err e` stands for the return value -e, and `ok n` for a value that is not negative.
pub data Result {ℓ} (A : Type ℓ) : Type ℓ where
  ok : A → Result A
  err : ℕ → Result A

abbrev pub is_err {ℓ} : {A : Type ℓ} → Result A → Bool
is_err (ok _) = false
is_err (err _) = true

abbrev pub enoent : ℕ
enoent = 2

abbrev pub eio : ℕ
eio = 5

abbrev pub e2big : ℕ
e2big = 7

abbrev pub enoexec : ℕ
enoexec = 8

abbrev pub ebadf : ℕ
ebadf = 9

abbrev pub eagain : ℕ
eagain = 11

abbrev pub enomem : ℕ
enomem = 12

abbrev pub efault : ℕ
efault = 14

abbrev pub ebusy : ℕ
ebusy = 16

abbrev pub enodev : ℕ
enodev = 19

abbrev pub enotdir : ℕ
enotdir = 20

abbrev pub einval : ℕ
einval = 22

abbrev pub enfile : ℕ
enfile = 23

abbrev pub emfile : ℕ
emfile = 24

abbrev pub efbig : ℕ
efbig = 27

abbrev pub enospc : ℕ
enospc = 28

abbrev pub enametoolong : ℕ
enametoolong = 36

module _ {ℓ} {A : Type ℓ} where
  pub ok-ne-err : {a : A} {e : ℕ} → ◌≢◌ {A = Result A} (ok a) (err e)
  ok-ne-err z = cc

  pub err-ne-ok : {e : ℕ} {a : A} → ◌≢◌ {A = Result A} (err e) (ok a)
  err-ne-ok z = cc

  pub ok-inj : {a b : A} → ◌≡◌ {A = Result A} (ok a) (ok b) → a ≡ b
  ok-inj z = cc
