-- ===== src/Arith/Div.antt =====
-- The shift-and-subtract division of src/lib/stdfct.c is division with remainder.
use native.Mathlib.Nat.{
  mod-eq_of_lt, pow-suc, mul_comm, mul_assoc, add-mul, one-le-pow, div-eq_of_lt, div-eq_of_lt-le,
  pow-le-pow_right,
}
use mathlib.Core.Path.{subst}
use rv_mini_os.Prelude.{
  ℕ, zero, suc, ◌+◌, ◌-◌, ◌*◌, ◌/◌, ◌%◌, ◌^◌, ◌≤◌, ◌<◌, ◌≡◌, ◌≢◌, refl, sym, ◌∙◌, ap, true, false,
  Option, some, ◌==◌, ltb, leb, arith, Bool-cases, inl, inr, ==_iff,
}
use rv_mini_os.Arith.{align_loop, divide_loop, divide}

-- The result is the quotient and the remainder by `d` of what is left, with the sum so far.
abbrev pub Divides : (d total : ℕ) → Option (ℕ × ℕ) → Type 0
Divides d total r = (q : ℕ) × (m : ℕ) × (r ≡ some (q, m)) × (q * d + m ≡ total) × (m < d)

stop_zero :
    (w fuel d x y aux acc : ℕ)
    → x ≡ 0
    → 0 < d
    → Divides d (acc * d + x) (divide_loop w fuel x y aux acc)
unfolding divide_loop
stop_zero w zero d x y aux acc e h = (acc, x, ground arith, refl, omega arith)
stop_zero w (suc fuel) d x y aux acc e h = (acc, x, ground arith, refl, omega arith)

stop_aux :
    (w fuel d x y aux acc : ℕ)
    → aux ≡ 0
    → x < d
    → Divides d (acc * d + x) (divide_loop w fuel x y aux acc)
unfolding divide_loop
stop_aux w zero d x y aux acc e h = (acc, x, ground arith, refl, h)
stop_aux w (suc fuel) d x y aux acc e h = (acc, x, ground arith, refl, h)

even_pow : (k d : ℕ) → d * 2 ^ suc k ≡ 2 * (d * 2 ^ k)
even_pow k d =
    ap (λ z. d * z) (pow-suc 2 k ∙ mul_comm (2 ^ k) 2)
    ∙ sym (mul_assoc d 2 (2 ^ k))
    ∙ ap (λ z. z * 2 ^ k) (mul_comm d 2)
    ∙ mul_assoc 2 d (2 ^ k)

half_even : (k d : ℕ) → d * 2 ^ suc k / 2 ≡ d * 2 ^ k
half_even k d = omega (arith, even_pow k d)

half_pow : (k : ℕ) → 2 ^ suc k / 2 ≡ 2 ^ k
half_pow k = omega (arith, pow-suc 2 k)

module _ (w d : ℕ) (pos : 0 < d) where
  -- the rest of the loop after the round of 2 ^ k
  next_lem :
      (fuel : ℕ)
      → ((k x acc : ℕ)
          → k < fuel
          → x < 2 * (d * 2 ^ k)
          → acc + 2 * 2 ^ k ≤ 2 ^ w
          → Divides d (acc * d + x) (divide_loop w fuel x (d * 2 ^ k) (2 ^ k) acc))
      → (k x acc : ℕ) → k ≤ fuel
      → x < d * 2 ^ k
      → acc + 2 ^ k ≤ 2 ^ w
      → Divides d (acc * d + x) (divide_loop w fuel x (d * 2 ^ k / 2) (2 ^ k / 2) acc)
  next_lem fuel ih zero x acc f h b =
      stop_aux w fuel d x (d * 2 ^ 0 / 2) (2 ^ 0 / 2) acc refl (omega arith)
  next_lem fuel ih (suc k) x acc f h b =
      rw (half_even k d, half_pow k)
        (ih k x acc (omega arith) (omega (arith, even_pow k d)) (omega (arith, pow-suc 2 k)))

  -- one round from an `aux` of 2 ^ k
  pow_pos : (k : ℕ) → 0 < 2 ^ k
  pow_pos k = one-le-pow k 2 (omega arith)

  positive : (k : ℕ) → (2 ^ k == 0) ≡ false
  positive k = ground (arith, pow_pos k)

  no_wrap : (k acc : ℕ) → acc + 2 * 2 ^ k ≤ 2 ^ w → acc + 2 ^ k < 2 ^ w
  no_wrap k acc b = omega (arith, pow_pos k)

  total : (k x acc : ℕ) → d * 2 ^ k ≤ x → (acc + 2 ^ k) * d + (x - d * 2 ^ k) ≡ acc * d + x
  total k x acc h = omega (arith, add-mul acc (2 ^ k) d, mul_comm (2 ^ k) d)

  round_lem :
      (fuel k x acc : ℕ)
      → k < fuel
      → x < 2 * (d * 2 ^ k)
      → acc + 2 * 2 ^ k ≤ 2 ^ w
      → Divides d (acc * d + x) (divide_loop w fuel x (d * 2 ^ k) (2 ^ k) acc)
  unfolding divide_loop
  round_lem zero k x acc f h b = absurd (omega arith)
  round_lem (suc fuel) k x acc f h b = elim (Bool-cases (x == 0)) [
    | inl none_left ↦
        stop_zero w (suc fuel) d x (d * 2 ^ k) (2 ^ k) acc ((==_iff x 0).0 none_left) pos
    | inr some_left ↦ elim (Bool-cases (leb (d * 2 ^ k) x)) [
      | inl fits ↦
          rw (some_left, positive k, fits, mod-eq_of_lt (no_wrap k acc b))
            (subst
              (λ t.
                Divides d t
                  (divide_loop w fuel (x - d * 2 ^ k) (d * 2 ^ k / 2) (2 ^ k / 2) (acc + 2 ^ k)))
              (total k x acc (ground arith))
              (next_lem fuel (round_lem fuel) k (x - d * 2 ^ k) (acc + 2 ^ k) (omega arith)
                (omega arith) (omega arith)))
      | inr too_big ↦
          rw (some_left, positive k, too_big)
            (next_lem fuel (round_lem fuel) k x acc (omega arith) (ground arith)
              (omega (arith, pow_pos k)))
    ]
  ]

top_clear : (p y : ℕ) → 0 < p → y < 2 * p → (y / p % 2 == 0) ≡ true → y < p
top_clear p y pos h e = elim (Bool-cases (leb p y)) [
  | inr less ↦ ground arith
  | inl more ↦ absurd (one-ne-even (ap (λ n. n % 2 == 0) (sym (one_quotient (ground arith))) ∙ e))
]
  where
    one-ne-even : (1 % 2 == 0) ≢ true
    one-ne-even c = cc

    one_quotient : p ≤ y → y / p ≡ 1
    one_quotient m = div-eq_of_lt-le {k = 1} p (omega arith) (omega arith)

top_set : (p y : ℕ) → (y / p % 2 == 0) ≡ false → p ≤ y
top_set p y e = elim (Bool-cases (leb p y)) [
  | inl more ↦ ground arith
  | inr less ↦
      absurd (true-ne-false (ap (λ n. n % 2 == 0) (sym (div-eq_of_lt {n = y} (ground arith))) ∙ e))
]
  where
    true-ne-false : true ≢ false
    true-ne-false c = cc

le_mul : (d n : ℕ) → 0 < d → n ≤ d * n
le_mul zero n h = absurd (omega arith)
le_mul (suc d) n h = omega (arith, add-mul 1 d n, ap (λ z. z * n) (suc-one d))
  where
    suc-one : (d : ℕ) → suc d ≡ 1 + d
    suc-one d = omega arith

double_pow : (v : ℕ) → 2 ^ suc v ≡ 2 * 2 ^ v
double_pow v = omega (arith, pow-suc 2 v)

below_top : (v : ℕ) → 2 ^ (suc v - 1) ≡ 2 ^ v
below_top v = ap (λ n. 2 ^ n) (plain v)
  where
    plain : (v : ℕ) → suc v - 1 ≡ v
    plain v = omega arith

-- The divisor is shifted until it may be subtracted at most once.
align_lem :
    (v x d fuel k : ℕ)
    → 0 < d
    → x < 2 ^ suc v
    → k + fuel ≡ suc v
    → d * 2 ^ k < 2 ^ suc v
    → (j : ℕ) × (j < suc v)
      × (align_loop (suc v) fuel x (d * 2 ^ k) (2 ^ k) ≡ some (2 ^ j, d * 2 ^ j))
      × (x < 2 * (d * 2 ^ j))
unfolding align_loop
align_lem v x d zero k pos hx e hy =
    absurd (omega (arith, le_mul d (2 ^ k) pos, ap (λ n. 2 ^ n) (plain e)))
  where
    plain : k + 0 ≡ suc v → k ≡ suc v
    plain c = omega arith
align_lem v x d (suc fuel) k pos hx e hy = elim (Bool-cases (ltb (d * 2 ^ k) x)) [
  | inr big ↦ (
    k,
    omega arith,
    rw big refl,
    ground (arith, le_mul d (2 ^ k) pos, one-le-pow k 2 (omega arith)),
  )
  | inl small ↦ elim (Bool-cases (d * 2 ^ k / 2 ^ (suc v - 1) % 2 == 0)) [
    | inr top ↦ (
      k,
      omega arith,
      rw (small, top) refl,
      omega (arith, top_set (2 ^ (suc v - 1)) (d * 2 ^ k) top, below_top v, double_pow v),
    )
    | inl clear ↦
        let low : d * 2 ^ k < 2 ^ (suc v - 1) =
          top_clear (2 ^ (suc v - 1)) (d * 2 ^ k) (one-le-pow (suc v - 1) 2 (omega arith))
            (omega (arith, below_top v, double_pow v)) clear in
        let next : d * 2 ^ suc k < 2 ^ suc v =
          omega (arith, low, below_top v, double_pow v, even_pow k d) in
        let shifted : d * 2 ^ k * 2 % 2 ^ suc v ≡ d * 2 ^ suc k =
          ap (λ n. n % 2 ^ suc v) (omega (arith, even_pow k d)) ∙ mod-eq_of_lt next in
        let aux : 2 ^ k * 2 % 2 ^ suc v ≡ 2 ^ suc k =
          ap (λ n. n % 2 ^ suc v) (sym (pow-suc 2 k))
          ∙ mod-eq_of_lt (omega (arith, le_mul d (2 ^ suc k) pos, next)) in
        rw (small, clear, shifted, aux) (align_lem v x d fuel (suc k) pos hx (omega arith) next)
  ]
]

-- For words of `suc v` bits and a divisor that is not 0, the loops of `__udiv_umod_di3` and
-- `__udiv_umod_si3` end, and give the quotient and the remainder.
pub divide-Divides :
    (v x d : ℕ) → x < 2 ^ suc v → d < 2 ^ suc v → 0 < d → Divides d x (divide (suc v) x d)
unfolding divide
divide-Divides v x d hx hd pos =
    let (j, jl, aligned, below) = align_lem v x d (suc v) 0 pos hx (omega arith) (omega arith) in
    let start : align_loop (suc v) (suc v) x d 1 ≡ some (2 ^ j, d * 2 ^ j) =
      ap (λ y. align_loop (suc v) (suc v) x y 1) (times_one d) ∙ aligned in
    rw (start, divide)
      (subst (λ t. Divides d t (divide_loop (suc v) (suc v + 1) x (d * 2 ^ j) (2 ^ j) 0))
        (omega arith)
        (round_lem (suc v) d pos (suc v + 1) j x 0 (omega arith) below (
          omega (
            arith,
            double_pow j,
            pow-le-pow_right {n = 2} (omega arith) {i = suc j} {j = suc v} (omega arith),
          ))))
  where
    times_one : (d : ℕ) → d ≡ d * 1
    times_one d = omega arith
