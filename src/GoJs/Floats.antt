-- ===== src/GoJs/Floats.antt =====
-- gojs.go: what the value table does with a float64, on its bit pattern.
use wago_emscripten.Common.{
  ℕ, zero, suc, ◌+◌, ◌-◌, ◌*◌, ◌/◌, ◌%◌, ◌^◌, Bool, not, ◌&&◌, List, ltb, leb, ◌==◌, if◌then◌else◌,
}

abbrev pub exponent : ℕ → ℕ
exponent bits = bits / 2 ^ 52 % 2 ^ 11

abbrev pub fraction : ℕ → ℕ
fraction bits = bits % 2 ^ 52

-- `math.IsNaN`: all ones in the exponent, and a fraction.
unfoldable pub is_nan : ℕ → Bool
is_nan bits = exponent bits == 0x7ff && not (fraction bits == 0)

-- `== 0`, which 0 and -0 are.
unfoldable pub is_zero : ℕ → Bool
is_zero bits = bits % 2 ^ 63 == 0

-- `math.NaN()`
abbrev pub nan : ℕ
nan = 0x7ff8000000000001

abbrev pub minus_one_bits : ℕ
minus_one_bits = 0xbff0000000000000

-- Whether the sign bit is set; a NaN compares with nothing, and the callers ask only for numbers.
abbrev pub is_negative : ℕ → Bool
is_negative bits = leb (2 ^ 63) bits

-- The whole part of the magnitude of a finite number.
unfoldable pub magnitude : ℕ → ℕ
magnitude bits =
    let e = exponent bits in
    let m = fraction bits + 2 ^ 52 in
    if leb 1075 e then m * 2 ^ (e - 1075) else if leb 1022 e then m / 2 ^ (1075 - e) else 0

-- What Go leaves to the machine or the library: the conversion of a float64 that lies outside of the
-- integer type's range, and `fmt.Sprint` of a float64.
pub record Machine : Type 0 where
  pub wild_int : ℕ → ℕ
  pub wild_u32 : ℕ → ℕ
  pub wild_byte : ℕ → ℕ
  pub sprint : ℕ → List ℕ

-- The whole part as a word modulo `modulus`, for numbers from `-low` to `high`.
unfoldable pub to_word : (ℕ → ℕ) → ℕ → ℕ → ℕ → ℕ → ℕ
unfolding magnitude
to_word wild low high modulus bits =
    let m = magnitude bits in
    if exponent bits == 0x7ff
    then wild bits
    else if is_negative bits
    then if leb m low then (modulus - m) % modulus else wild bits
    else if leb m high
    then m
    else wild bits

-- `int(x)`, as its bit pattern, `uint32(x)` and `byte(x)`.
unfoldable pub to_int : Machine → ℕ → ℕ
unfolding to_word
to_int k bits = to_word k.wild_int (2 ^ 63) (2 ^ 63 - 1) (2 ^ 64) bits

unfoldable pub to_u32 : Machine → ℕ → ℕ
unfolding to_word
to_u32 k bits = to_word k.wild_u32 0 (2 ^ 32 - 1) (2 ^ 32) bits

unfoldable pub to_byte : Machine → ℕ → ℕ
unfolding to_word
to_byte k bits = to_word k.wild_byte 0 255 256 bits

-- log₂ by halving, on fuel.
unfoldable pub log2 : ℕ → ℕ → ℕ
log2 zero n = 0
log2 (suc fuel) n = let rest = log2 fuel (n / 2) in if ltb n 2 then 0 else suc rest

-- `float64(n)` of a count below 2^53, which is exact.
unfoldable pub of_nat : ℕ → ℕ
unfolding log2
of_nat n =
    let e = log2 53 n in if n == 0 then 0 else (1023 + e) * 2 ^ 52 + (n * 2 ^ (52 - e) - 2 ^ 52)
