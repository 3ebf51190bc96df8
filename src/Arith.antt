-- ===== src/Arith.antt =====
-- src/lib/stdfct.c: multiplication and division by shifts and additions, for words of `w` bits: 64
-- for the `di3` functions and 32 for the `si3` ones. A word is a number below 2 ^ w; shifts to the
-- left and sums wrap around. A loop runs on fuel, and an exhausted one is `none`.
pub mod Mul
pub mod Div
mod Tests
use rv_mini_os.Prelude.{
  ℕ, zero, suc, ◌+◌, ◌-◌, ◌*◌, ◌/◌, ◌%◌, ◌^◌, Bool, true, false, not, ◌&&◌, ◌||◌, Option, none,
  some, ◌==◌, ltb, leb, if◌then◌else◌,
}
use mathlib.Core.Bool.{xor}

-- `for (acc = 0; y; x <<= 1, y >>= 1) if (y & 1) acc += x;`
unfoldable pub umul_loop : (w fuel x y acc : ℕ) → Option ℕ
umul_loop w zero x y acc = if y == 0 then some acc else none
umul_loop w (suc fuel) x y acc =
    let rest =
      umul_loop w fuel (x * 2 % 2 ^ w) (y / 2) (if y % 2 == 1 then (acc + x) % 2 ^ w else acc) in
    if y == 0 then some acc else rest

-- The larger factor is shifted.
unfoldable pub umul : (w x y : ℕ) → Option ℕ
umul w x y = if ltb x y then umul_loop w w y x 0 else umul_loop w w x y 0

unfoldable pub umuldi3 : ℕ → ℕ → Option ℕ
umuldi3 x y = umul 64 x y

unfoldable pub umulsi3 : ℕ → ℕ → Option ℕ
umulsi3 x y = umul 32 x y

-- A word of `w` bits read as signed is negative, and its negation.
abbrev pub is_negative : (w x : ℕ) → Bool
is_negative w x = leb (2 ^ (w - 1)) x

abbrev pub negate : (w x : ℕ) → ℕ
negate w x = (2 ^ w - x) % 2 ^ w

abbrev pub magnitude : (w x : ℕ) → ℕ
magnitude w x = if is_negative w x then negate w x else x

abbrev pub with_sign : (w : ℕ) → Bool → Option ℕ → Option ℕ
with_sign w s none = none
with_sign w s (some acc) = some (if s then negate w acc else acc)

-- The words of signed factors and product.
unfoldable pub mul : (w x y : ℕ) → Option ℕ
mul w x y =
    with_sign w (xor (is_negative w x) (is_negative w y)) (umul w (magnitude w x) (magnitude w y))

unfoldable pub muldi3 : ℕ → ℕ → Option ℕ
muldi3 x y = mul 64 x y

unfoldable pub mulsi3 : ℕ → ℕ → Option ℕ
mulsi3 x y = mul 32 x y

-- `for (aux = 1; y < x && !(y & top_bit); aux <<= 1, y <<= 1);`, which gives `aux` and `y`
unfoldable pub align_loop : (w fuel x y aux : ℕ) → Option (ℕ × ℕ)
align_loop w zero x y aux = if ltb y x && (y / 2 ^ (w - 1) % 2 == 0) then none else some (aux, y)
align_loop w (suc fuel) x y aux =
    let rest = align_loop w fuel x (y * 2 % 2 ^ w) (aux * 2 % 2 ^ w) in
    if ltb y x && (y / 2 ^ (w - 1) % 2 == 0) then rest else some (aux, y)

-- `for (acc = 0; x && aux; aux >>= 1, y >>= 1) if (y <= x) x -= y, acc += aux;`, which gives `acc`
-- and `x`
unfoldable pub divide_loop : (w fuel x y aux acc : ℕ) → Option (ℕ × ℕ)
divide_loop w zero x y aux acc = if (x == 0) || (aux == 0) then some (acc, x) else none
divide_loop w (suc fuel) x y aux acc =
    let rest =
      divide_loop w fuel (if leb y x then x - y else x) (y / 2) (aux / 2)
        (if leb y x then (acc + aux) % 2 ^ w else acc) in
    if (x == 0) || (aux == 0) then some (acc, x) else rest

-- the quotient and the remainder
unfoldable pub divide : (w x y : ℕ) → Option (ℕ × ℕ)
divide w x y = elim (align_loop w w x y 1) [
  | none ↦ none
  | some (aux, y') ↦ divide_loop w (w + 1) x y' aux 0
]

unfoldable pub udiv_umod : (w x y : ℕ) (opt : Bool) → Option ℕ
udiv_umod w x y opt =
    if y == 0
    then some 0
    else (elim (divide w x y) [ none ↦ none | some (acc, x') ↦ some (if opt then acc else x') ])

unfoldable pub udiv_umod_di3 : ℕ → ℕ → Bool → Option ℕ
udiv_umod_di3 x y opt = udiv_umod 64 x y opt

unfoldable pub udivdi3 : ℕ → ℕ → Option ℕ
udivdi3 x y = udiv_umod_di3 x y true

unfoldable pub umoddi3 : ℕ → ℕ → Option ℕ
umoddi3 x y = udiv_umod_di3 x y false

unfoldable pub udiv_umod_si3 : ℕ → ℕ → Bool → Option ℕ
udiv_umod_si3 x y opt = udiv_umod 32 x y opt

unfoldable pub udivsi3 : ℕ → ℕ → Option ℕ
udivsi3 x y = udiv_umod_si3 x y true

unfoldable pub umodsi3 : ℕ → ℕ → Option ℕ
umodsi3 x y = udiv_umod_si3 x y false

-- Signed: a quotient has the sign of both, a remainder that of the dividend.
unfoldable pub div_mod : (w x y : ℕ) (opt : Bool) → Option ℕ
div_mod w x y opt =
    if y == 0
    then some 0
    else with_sign w (if opt then xor (is_negative w x) (is_negative w y) else is_negative w x)
        (udiv_umod w (magnitude w x) (magnitude w y) opt)

unfoldable pub div_mod_di3 : ℕ → ℕ → Bool → Option ℕ
div_mod_di3 x y opt = div_mod 64 x y opt

unfoldable pub divdi3 : ℕ → ℕ → Option ℕ
divdi3 x y = div_mod_di3 x y true

unfoldable pub moddi3 : ℕ → ℕ → Option ℕ
moddi3 x y = div_mod_di3 x y false

unfoldable pub div_mod_si3 : ℕ → ℕ → Bool → Option ℕ
div_mod_si3 x y opt = div_mod 32 x y opt

unfoldable pub divsi3 : ℕ → ℕ → Option ℕ
divsi3 x y = div_mod_si3 x y true

unfoldable pub modsi3 : ℕ → ℕ → Option ℕ
modsi3 x y = div_mod_si3 x y false
