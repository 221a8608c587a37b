-- ===== src/Wasm/Numbers.antt =====
-- LEB128: what `appendU32` writes, `readU32` reads, and what the readers accept is in range.
use wago_emscripten.Common.{
  ℕ, zero, suc, ◌+◌, ◌*◌, ◌/◌, ◌%◌, ◌^◌, ◌≤◌, ◌<◌, false, not, ◌&&◌, ◌||◌, ◌≡◌, ◌⊎◌, refl, subst,
  inl, inr, some, List, [], ◌∷◌, ◌++◌, length, Bool-cases, ◌==◌, ltb, bit_and, low_bits, top_bit,
  high_nibble, set_top_bit, arith,
}
use native.Mathlib.Nat.{mod-lt}
use wago_emscripten.Wasm.{Leb, read_bytes, read_u32, read_u64, u32_bytes, append_u32}

abbrev leb32 : Leb
leb32 = record { most = 5; last_shift = 28; last_mask = 0xf0; modulus = 2 ^ 32 }

abbrev leb64 : Leb
leb64 = record { most = 10; last_shift = 63; last_mask = 0xfe; modulus = 2 ^ 64 }

-- A number in one byte, and the first byte of a longer one.
last_byte : (fuel v : ℕ) → v < 128 → u32_bytes (suc fuel) v ≡ v ∷ []
unfolding u32_bytes
last_byte fuel v h = ground arith

first_byte :
    (fuel v : ℕ) → 128 ≤ v → u32_bytes (suc fuel) v ≡ (v % 128 + 128) ∷ u32_bytes fuel (v / 128)
unfolding u32_bytes
first_byte fuel v h = ground (arith, set_top_bit (v % 128) (omega arith))

-- One byte read: the last, or one with more behind it.
read_last :
    (i value shift b : ℕ) (bs : List ℕ)
    → i < 5
    → b < 128
    → ((shift == 28) ≡ false) ⊎ (b < 16)
    → read_bytes leb32 i value shift (b ∷ bs) ≡ some ((value + b * 2 ^ shift) % 2 ^ 32, suc i)
unfolding read_bytes
read_last i value shift b bs hi hb top =
    let all : b % 128 ≡ b = omega arith in
    rw (low_bits b (omega arith), top_bit b (omega arith), high_nibble b (omega arith), all)
      (elim top [ inl away ↦ rw away (ground arith) | inr low ↦ ground arith ])

read_more :
    (i value shift b : ℕ) (bs : List ℕ)
    → i < 5
    → b < 128
    → (shift == 28) ≡ false
    → read_bytes leb32 i value shift ((b + 128) ∷ bs)
      ≡ read_bytes leb32 (suc i) ((value + b * 2 ^ shift) % 2 ^ 32) (shift + 7) bs
unfolding read_bytes
read_more i value shift b bs hi hb away =
    let all : (b + 128) % 128 ≡ b = omega arith in
    rw (low_bits (b + 128) (omega arith), top_bit (b + 128) (omega arith), all)
      (rw away (ground arith))

-- From byte `i` on, for a rest `v` of the number: the readings at the five places.
read_4 :
    (v acc : ℕ) (bs : List ℕ)
    → v < 16
    → acc < 2 ^ 28
    → read_bytes leb32 4 acc 28 (u32_bytes 1 v ++ bs)
      ≡ some (acc + v * 2 ^ 28, 4 + length (u32_bytes 1 v))
read_4 v acc bs h k =
    rw (last_byte 0 v (omega arith))
      (ground (arith, read_last 4 acc 28 v bs (omega arith) (omega arith) (inr h)))

read_3 :
    (v acc : ℕ) (bs : List ℕ)
    → v < 16 * 128
    → acc < 2 ^ 21
    → read_bytes leb32 3 acc 21 (u32_bytes 2 v ++ bs)
      ≡ some (acc + v * 2 ^ 21, 3 + length (u32_bytes 2 v))
read_3 v acc bs h k = elim (Bool-cases (ltb v 128)) [
  | inl short ↦
      rw (last_byte 1 v (ground arith))
        (ground (arith, read_last 3 acc 21 v bs (omega arith) (ground arith) (inl refl)))
  | inr long ↦ rw (first_byte 1 v (ground arith)) (
      ground (
        arith,
        read_more 3 acc 21 (v % 128) (u32_bytes 1 (v / 128) ++ bs) (omega arith) (omega arith) refl,
        read_4 (v / 128) (acc + v % 128 * 2 ^ 21) bs (omega arith) (omega arith),
      ))
]

read_2 :
    (v acc : ℕ) (bs : List ℕ)
    → v < 16 * 128 * 128
    → acc < 2 ^ 14
    → read_bytes leb32 2 acc 14 (u32_bytes 3 v ++ bs)
      ≡ some (acc + v * 2 ^ 14, 2 + length (u32_bytes 3 v))
read_2 v acc bs h k = elim (Bool-cases (ltb v 128)) [
  | inl short ↦
      rw (last_byte 2 v (ground arith))
        (ground (arith, read_last 2 acc 14 v bs (omega arith) (ground arith) (inl refl)))
  | inr long ↦ rw (first_byte 2 v (ground arith)) (
      ground (
        arith,
        read_more 2 acc 14 (v % 128) (u32_bytes 2 (v / 128) ++ bs) (omega arith) (omega arith) refl,
        read_3 (v / 128) (acc + v % 128 * 2 ^ 14) bs (omega arith) (omega arith),
      ))
]

read_1 :
    (v acc : ℕ) (bs : List ℕ)
    → v < 16 * 128 * 128 * 128
    → acc < 2 ^ 7
    → read_bytes leb32 1 acc 7 (u32_bytes 4 v ++ bs)
      ≡ some (acc + v * 2 ^ 7, 1 + length (u32_bytes 4 v))
read_1 v acc bs h k = elim (Bool-cases (ltb v 128)) [
  | inl short ↦
      rw (last_byte 3 v (ground arith))
        (ground (arith, read_last 1 acc 7 v bs (omega arith) (ground arith) (inl refl)))
  | inr long ↦ rw (first_byte 3 v (ground arith)) (
      ground (
        arith,
        read_more 1 acc 7 (v % 128) (u32_bytes 3 (v / 128) ++ bs) (omega arith) (omega arith) refl,
        read_2 (v / 128) (acc + v % 128 * 2 ^ 7) bs (omega arith) (omega arith),
      ))
]

read_0 :
    (v acc : ℕ) (bs : List ℕ)
    → v < 2 ^ 32
    → acc < 2 ^ 0
    → read_bytes leb32 0 acc 0 (u32_bytes 5 v ++ bs)
      ≡ some (acc + v * 2 ^ 0, 0 + length (u32_bytes 5 v))
read_0 v acc bs h k = elim (Bool-cases (ltb v 128)) [
  | inl short ↦
      rw (last_byte 4 v (ground arith))
        (ground (arith, read_last 0 acc 0 v bs (omega arith) (ground arith) (inl refl)))
  | inr long ↦ rw (first_byte 4 v (ground arith)) (
      ground (
        arith,
        read_more 0 acc 0 (v % 128) (u32_bytes 4 (v / 128) ++ bs) (omega arith) (omega arith) refl,
        read_1 (v / 128) (acc + v % 128 * 2 ^ 0) bs (omega arith) (omega arith),
      ))
]

-- Reading back what was written for a 32-bit number gives the number and the bytes it took, whatever
-- follows.
pub read_u32-u32_bytes :
    (v : ℕ) (bs : List ℕ)
    → v < 2 ^ 32
    → read_u32 (u32_bytes 5 v ++ bs) ≡ some (v, length (u32_bytes 5 v))
unfolding read_u32
read_u32-u32_bytes v bs h = ground (arith, read_0 v 0 bs h (omega arith))

-- `readU32` of what `appendU32` makes of a 32-bit number gives the number and the count of bytes that
-- were written, whatever follows them; so the five rounds write the whole number.
pub read_u32-append_u32 :
    (v : ℕ) (bs : List ℕ)
    → v < 2 ^ 32
    → read_u32 (append_u32 [] v ++ bs) ≡ some (v, length (append_u32 [] v))
unfolding append_u32
read_u32-append_u32 v bs h = read_u32-u32_bytes v bs h

pub length-u32_bytes : (fuel v : ℕ) → length (u32_bytes fuel v) ≤ fuel
unfolding u32_bytes
length-u32_bytes zero v = omega arith
length-u32_bytes (suc fuel) v = ground (arith, length-u32_bytes fuel (v / 128))

read_bytes-bounds :
    (k : Leb) (i value shift : ℕ) (bs : List ℕ) {v n : ℕ}
    → i ≤ k.most
    → 1 ≤ k.modulus
    → read_bytes k i value shift bs ≡ some (v, n)
    → (v < k.modulus) × (i < n) × (n ≤ i + length bs) × (n ≤ k.most)
unfolding read_bytes
read_bytes-bounds k i value shift [] hi hm e = absurd (ground arith)
read_bytes-bounds k i value shift (b ∷ bs) {v} {n} hi hm e =
    let value' : ℕ = (value + bit_and b 0x7f * 2 ^ shift) % k.modulus in
    elim (Bool-cases (i == k.most || shift == k.last_shift && not (bit_and b k.last_mask == 0))) [
      | inl stop ↦ absurd (ground arith)
      | inr go ↦ elim (Bool-cases (bit_and b 0x80 == 0)) [
        | inl end ↦
            let v_is : value' ≡ v = ground arith in
            let n_is : suc i ≡ n = ground arith in
            (
              subst (λ t. t < k.modulus) v_is (mod-lt _ (omega (arith, hm))),
              omega arith,
              omega arith,
              ground arith,
            )
        | inr more ↦
            let on : read_bytes k (suc i) value' (shift + 7) bs ≡ some (v, n) = ground arith in
            let (a, b', c, d) =
              read_bytes-bounds k (suc i) value' (shift + 7) bs (ground arith) hm on in
            (a, omega arith, omega arith, d)
      ]
    ]

-- A number that `readU32` accepts is below 2^32; it takes at least one byte, no more than there are,
-- and at most five.
pub read_u32-bounds :
    (bs : List ℕ) {v n : ℕ}
    → read_u32 bs ≡ some (v, n)
    → (v < 2 ^ 32) × (1 ≤ n) × (n ≤ length bs) × (n ≤ 5)
unfolding read_u32
read_u32-bounds bs e =
    let (below, some_bytes, there, few) =
      read_bytes-bounds leb32 0 0 0 bs (omega arith) (omega arith) e in
    (below, some_bytes, omega arith, few)

-- A number that `readU64` accepts is below 2^64; it takes at least one byte, no more than there are,
-- and at most ten.
pub read_u64-bounds :
    (bs : List ℕ) {v n : ℕ}
    → read_u64 bs ≡ some (v, n)
    → (v < 2 ^ 64) × (1 ≤ n) × (n ≤ length bs) × (n ≤ 10)
unfolding read_u64
read_u64-bounds bs e =
    let (below, some_bytes, there, few) =
      read_bytes-bounds leb64 0 0 0 bs (omega arith) (omega arith) e in
    (below, some_bytes, omega arith, few)
