-- ===== src/Wasm/Signed.antt =====
-- transform.go: signed LEB128, in which the wrappers write their constants.
use wago_emscripten.Common.{
  ℕ, zero, suc, ◌+◌, ◌-◌, ◌*◌, ◌/◌, ◌%◌, ◌^◌, ◌≤◌, ◌<◌, Bool, true, not, ◌&&◌, ◌||◌, ◌≡◌, ◌⊎◌, refl,
  ap, ◌∙◌, inl, inr, Option, some, none, List, [], ◌∷◌, ◌++◌, Bool-cases, ltb, ◌==◌, if◌then◌else◌,
  bit_and, bit_or, sign_bit, set_top_bit, ◌>>=◌, arith,
}

-- `value >>= 7` on an int32 that is kept as its bit pattern: the sign moves in from above.
abbrev pub shift_right_7 : ℕ → ℕ
shift_right_7 v = if ltb v (2 ^ 31) then v / 128 else v / 128 + (2 ^ 32 - 2 ^ 25)

-- The loop of `appendS32`, on fuel.
unfoldable pub s32_bytes : ℕ → ℕ → List ℕ
s32_bytes zero value = []
s32_bytes (suc fuel) value =
    let b = value % 128 in
    let rest = shift_right_7 value in
    let done =
      rest == 0 && bit_and b 0x40 == 0 || rest == 2 ^ 32 - 1 && not (bit_and b 0x40 == 0) in
    let more = s32_bytes fuel rest in if done then b ∷ [] else bit_or b 0x80 ∷ more

-- Five rounds take an int32 to its sign.
unfoldable pub append_s32 : List ℕ → ℕ → List ℕ
unfolding s32_bytes
append_s32 out value = out ++ s32_bytes 5 value

-- How WebAssembly reads a signed number, by the grammar of its binary format for `4 + 7 * fuel` bits:
-- the value modulo 2^32, and the bytes behind it. Where four bits are left, the byte must be the last
-- and its unused bits must repeat the sign.
unfoldable pub read_bits : ℕ → List ℕ → Option (ℕ × List ℕ)
read_bits fuel [] = none
read_bits zero (b ∷ bs) =
    if ltb b 8
    then some (b, bs)
    else if ltb 119 b && ltb b 128
    then some (b + (2 ^ 32 - 128), bs)
    else none
read_bits (suc fuel) (b ∷ bs) =
    let rest = read_bits fuel bs in
    if ltb b 64
    then some (b, bs)
    else if ltb b 128
    then some (b + (2 ^ 32 - 128), bs)
    else rest >>= λ r. some ((128 * r.0 + (b - 128)) % 2 ^ 32, r.1)

-- An i32 constant.
unfoldable pub read_signed : List ℕ → Option (ℕ × List ℕ)
unfolding read_bits
read_signed bs = read_bits 4 bs

-- How far from zero a number may lie for `suc fuel` rounds.
abbrev reach : ℕ → ℕ
reach zero = 8
reach (suc fuel) = 128 * reach fuel

is_done : ℕ → Bool
is_done v =
    let b = v % 128 in
    let rest = shift_right_7 v in
    rest == 0 && bit_and b 0x40 == 0 || rest == 2 ^ 32 - 1 && not (bit_and b 0x40 == 0)

-- The loop ends exactly at the numbers of one signed byte.
is_done_lem : (v : ℕ) → v < 2 ^ 32 → is_done v ≡ (ltb v 64 || ltb (2 ^ 32 - 65) v)
unfolding is_done
is_done_lem v h = rw (sign_bit (v % 128) (omega arith)) (ground arith)

s32_bytes-round :
    (fuel v : ℕ)
    → s32_bytes (suc fuel) v ≡ (
        if is_done v
        then v % 128 ∷ []
        else bit_or (v % 128) 0x80 ∷ s32_bytes fuel (shift_right_7 v))
unfolding s32_bytes is_done
s32_bytes-round fuel v = refl

read_bits-more :
    (fuel b w : ℕ) (bs rest : List ℕ)
    → b < 128
    → read_bits fuel bs ≡ some (w, rest)
    → read_bits (suc fuel) ((b + 128) ∷ bs) ≡ some ((128 * w + b) % 2 ^ 32, rest)
unfolding read_bits
read_bits-more fuel b w bs rest h e = rw (e, read_bits) (ground arith)

-- The shifted number is nearer to zero, and gives the number back with its low bits.
shift_right_7-back : (v : ℕ) → v < 2 ^ 32 → (128 * shift_right_7 v + v % 128) % 2 ^ 32 ≡ v
shift_right_7-back v h = ground arith

shift_right_7-nearer :
    (fuel v : ℕ)
    → v < 2 ^ 32
    → (v < reach (suc fuel)) ⊎ (2 ^ 32 ≤ v + reach (suc fuel))
    → (shift_right_7 v < 2 ^ 32)
      × ((shift_right_7 v < reach fuel) ⊎ (2 ^ 32 ≤ shift_right_7 v + reach fuel))
shift_right_7-nearer fuel v h near = elim (Bool-cases (ltb v (2 ^ 31))) [
  | inl low ↦ rw low (elim near [
    | inl a ↦ (omega arith, inl (omega arith))
    | inr b ↦ (omega arith, inl (ground arith))
  ])
  | inr high ↦ rw high (elim near [
    | inl a ↦ (omega arith, inr (ground arith))
    | inr b ↦ (omega arith, inr (omega arith))
  ])
]

done_early :
    (fuel v : ℕ) (bs : List ℕ)
    → v < 2 ^ 32
    → is_done v ≡ true
    → read_bits (suc fuel) (v % 128 ∷ bs) ≡ some (v, bs)
unfolding read_bits
done_early fuel v bs h done = ground (arith, is_done_lem v h)

-- The last round writes what is left: four bits and their sign.
last_byte :
    (v : ℕ) (bs : List ℕ)
    → v < 2 ^ 32
    → (v < 8) ⊎ (2 ^ 32 ≤ v + 8)
    → read_bits zero (s32_bytes 1 v ++ bs) ≡ some (v, bs)
unfolding read_bits
last_byte v bs h near = elim (Bool-cases (is_done v)) [
  | inl done ↦ rw (s32_bytes-round zero v) (rw done (ground arith))
  | inr more ↦ absurd (ground (arith, is_done_lem v h))
]

read_bits-s32_bytes :
    (fuel v : ℕ) (bs : List ℕ)
    → v < 2 ^ 32
    → (v < reach fuel) ⊎ (2 ^ 32 ≤ v + reach fuel)
    → read_bits fuel (s32_bytes (suc fuel) v ++ bs) ≡ some (v, bs)
read_bits-s32_bytes zero v bs h near = last_byte v bs h near
read_bits-s32_bytes (suc fuel) v bs h near =
    let (small, nearer) = shift_right_7-nearer fuel v h near in
    let tail = read_bits-s32_bytes fuel (shift_right_7 v) bs small nearer in
    elim (Bool-cases (is_done v)) [
      | inl done ↦ rw (s32_bytes-round (suc fuel) v) (rw done (done_early fuel v bs h done))
      | inr more ↦ rw (s32_bytes-round (suc fuel) v) (
          rw more (
            rw (set_top_bit (v % 128) (omega arith)) (
              read_bits-more fuel (v % 128) (shift_right_7 v)
                (s32_bytes (suc fuel) (shift_right_7 v) ++ bs) bs (omega arith) tail
              ∙ ap (λ w. some (w, bs)) (shift_right_7-back v h))))
    ]

-- An int32 that `appendS32` writes is what WebAssembly reads there as an i32 constant, whatever bytes
-- follow.
pub read_signed-append_s32 :
    (v : ℕ) (bs : List ℕ) → v < 2 ^ 32 → read_signed (append_s32 [] v ++ bs) ≡ some (v, bs)
unfolding append_s32 read_signed
read_signed-append_s32 v bs h = read_bits-s32_bytes 4 v bs h (ground arith)
