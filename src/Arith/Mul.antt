-- ===== src/Arith/Mul.antt =====
-- The shift-and-add multiplication of src/lib/stdfct.c is multiplication modulo 2 ^ w.
use native.Mathlib.Nat.{
  mod-add-mod, add-mod-mod, div-add-mod, mul-add-mod_self_left, mod-eq_of_lt, pow-suc, mul_comm,
  mul_assoc, add-mul, mul-add, mod-lt, one-le-pow,
}
use rv_mini_os.Prelude.{
  ℕ, zero, suc, ◌+◌, ◌*◌, ◌/◌, ◌%◌, ◌^◌, ◌<◌, ◌≡◌, sym, ◌∙◌, ap, true, some, ◌==◌, ltb, arith,
  Bool-cases, inl, inr,
}
use rv_mini_os.Arith.{umul_loop, umul}

mul-split : (m q r y : ℕ) → (m * q + r) * y ≡ m * (q * y) + r * y
mul-split m q r y = add-mul (m * q) r y ∙ ap (λ z. z + r * y) (mul_assoc m q y)

mod-mul-mod : (m x y : ℕ) → (x % m * y) % m ≡ (x * y) % m
mod-mul-mod m x y = sym (
    ap (λ z. (z * y) % m) (sym (div-add-mod x m))
    ∙ ap (λ z. z % m) (mul-split m (x / m) (x % m) y)
    ∙ mul-add-mod_self_left m (x / m * y) (x % m * y))

add-mul-mod : (m a x y : ℕ) → (a + x % m * y) % m ≡ (a + x * y) % m
add-mul-mod m a x y =
    sym (add-mod-mod a (x % m * y) m)
    ∙ ap (λ z. (a + z) % m) (mod-mul-mod m x y)
    ∙ add-mod-mod a (x * y) m

double : (x h : ℕ) → x * 2 * h ≡ x * (2 * h)
double x h = mul_assoc x 2 h

halves : (y : ℕ) → 2 * (y / 2) + y % 2 ≡ y
halves y = div-add-mod y 2

odd_sum : (acc x z y : ℕ) → y ≡ z + 1 → acc + x + x * z ≡ acc + x * y
odd_sum acc x z y e = omega (arith, mul-add x z 1, ap (λ n. x * n) e)

-- One round of the loop leaves the result the same.
round_even : (m x y acc : ℕ) → y % 2 ≡ 0 → (acc + x * 2 % m * (y / 2)) % m ≡ (acc + x * y) % m
round_even m x y acc e =
    add-mul-mod m acc (x * 2) (y / 2)
    ∙ ap (λ z. (acc + z) % m) (double x (y / 2) ∙ ap (λ z. x * z) (omega (arith, halves y, e)))

round_odd :
    (m x y acc : ℕ) → y % 2 ≡ 1 → ((acc + x) % m + x * 2 % m * (y / 2)) % m ≡ (acc + x * y) % m
round_odd m x y acc e =
    mod-add-mod (acc + x) m (x * 2 % m * (y / 2))
    ∙ add-mul-mod m (acc + x) (x * 2) (y / 2)
    ∙ ap (λ z. z % m)
        (ap (λ z. acc + x + z) (double x (y / 2))
          ∙ odd_sum acc x (2 * (y / 2)) y (omega (arith, halves y, e)))

pow-pos : (w : ℕ) → 0 < 2 ^ w
pow-pos w = one-le-pow w 2 (omega arith)

-- No factor is left.
stop : (m x y acc : ℕ) → y ≡ 0 → acc < m → (acc + x * y) % m ≡ acc
stop m x y acc e b = ap (λ z. z % m) (omega (arith, ap (λ n. x * n) e)) ∙ mod-eq_of_lt b

half_lt : (fuel y : ℕ) → y < 2 ^ suc fuel → y / 2 < 2 ^ fuel
half_lt fuel y h = omega (arith, pow-suc 2 fuel, halves y, h)

-- The loop ends and adds the product to the sum.
umul_loop_lem :
    (w fuel x y acc : ℕ)
    → y < 2 ^ fuel
    → acc < 2 ^ w
    → umul_loop w fuel x y acc ≡ some ((acc + x * y) % 2 ^ w)
unfolding umul_loop
umul_loop_lem w zero x y acc h b =
    let e : (y == 0) ≡ true = ground arith in
    rw (e, umul_loop) (ap some (sym (stop (2 ^ w) x y acc (omega arith) b)))
umul_loop_lem w (suc fuel) x y acc h b = elim (Bool-cases (y == 0)) [
  | inl e ↦ rw e (ap some (sym (stop (2 ^ w) x y acc (ground arith) b)))
  | inr ne ↦ elim (Bool-cases (y % 2 == 1)) [
    | inl odd ↦
        rw (ne, odd)
          (umul_loop_lem w fuel (x * 2 % 2 ^ w) (y / 2) ((acc + x) % 2 ^ w) (half_lt fuel y h)
              (mod-lt (acc + x) (pow-pos w))
            ∙ ap some (round_odd (2 ^ w) x y acc (ground arith)))
    | inr even ↦
        rw (ne, even)
          (umul_loop_lem w fuel (x * 2 % 2 ^ w) (y / 2) acc (half_lt fuel y h) b
            ∙ ap some (round_even (2 ^ w) x y acc (ground arith)))
  ]
]

-- For words of `w` bits, the shift-and-add loop of `__umuldi3` and `__umulsi3` ends and gives the
-- product modulo 2 ^ w.
pub umul_lem : (w x y : ℕ) → x < 2 ^ w → y < 2 ^ w → umul w x y ≡ some (x * y % 2 ^ w)
unfolding umul
umul_lem w x y hx hy = elim (Bool-cases (ltb x y)) [
  | inl less ↦ rw less (
      umul_loop_lem w w y x 0 hx (pow-pos w)
      ∙ ap (λ z. some (z % 2 ^ w)) (omega (arith, mul_comm x y)))
  | inr more ↦
      rw more (umul_loop_lem w w x y 0 hy (pow-pos w) ∙ ap (λ z. some (z % 2 ^ w)) (omega arith))
]
