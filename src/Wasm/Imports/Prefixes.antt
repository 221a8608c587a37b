-- ===== src/Wasm/Imports/Prefixes.antt =====
-- transform.go: a number is read from its own bytes, and an end lies behind its start.
use wago_emscripten.Common.{
  ℕ, zero, suc, ◌+◌, ◌*◌, ◌^◌, ◌%◌, ◌≤◌, ◌<◌, Bool, true, false, not, ◌&&◌, ◌||◌, ◌≡◌, sym, inl,
  inr, some, List, [], ◌∷◌, take, drop, Bool-cases, Option-cases, ◌==◌, bit_and, arith,
}
use wago_emscripten.Wasm.Imports.{behind_u32, behind_u64, behind_bound, limits_end}
use wago_emscripten.Wasm.{Leb, read_bytes, read_u32, read_u64}

-- A number ends behind the byte at which its reading starts.
read_bytes-later :
    (k : Leb) (i value shift : ℕ) (bs : List ℕ) {v n : ℕ}
    → read_bytes k i value shift bs ≡ some (v, n)
    → i < n
unfolding read_bytes
read_bytes-later k i value shift [] e = absurd (ground arith)
read_bytes-later k i value shift (b ∷ bs) {v} {n} e =
    let value' : ℕ = (value + bit_and b 0x7f * 2 ^ shift) % k.modulus in
    elim (Bool-cases (i == k.most || shift == k.last_shift && not (bit_and b k.last_mask == 0))) [
      | inl stop ↦ absurd (ground arith)
      | inr go ↦ elim (Bool-cases (bit_and b 0x80 == 0)) [
        | inl end ↦ let n_is : suc i ≡ n = ground arith in omega (arith, n_is)
        | inr more ↦
            let on : read_bytes k (suc i) value' (shift + 7) bs ≡ some (v, n) = ground arith in
            let later = read_bytes-later k (suc i) value' (shift + 7) bs on in omega (arith, later)
      ]
    ]

cons_inj : {x y : ℕ} {xs ys : List ℕ} → x ∷ xs ≡ y ∷ ys → (x ≡ y) × (xs ≡ ys)
cons_inj e = (cc, cc)

-- A number that ends within the first `m` bytes is the same in front of any others.
pub read_bytes_agreed :
    (k : Leb) (i value shift m : ℕ) (xs ys : List ℕ) {v n : ℕ}
    → take m xs ≡ take m ys
    → read_bytes k i value shift xs ≡ some (v, n)
    → n ≤ i + m
    → read_bytes k i value shift ys ≡ some (v, n)
unfolding read_bytes
read_bytes_agreed k i value shift zero xs ys same e h =
    let later = read_bytes-later k i value shift xs e in absurd (omega (arith, later, h))
read_bytes_agreed k i value shift (suc m) [] ys same e h = absurd (ground (arith, e))
read_bytes_agreed k i value shift (suc m) (x ∷ xs) [] same e h = absurd (ground (arith, same))
read_bytes_agreed k i value shift (suc m) (x ∷ xs) (y ∷ ys) {v} {n} same e h =
    let (head, tails) = cons_inj same in
    let value' : ℕ = (value + bit_and x 0x7f * 2 ^ shift) % k.modulus in
    rw (sym head)
      (elim (Bool-cases
        (i == k.most || shift == k.last_shift && not (bit_and x k.last_mask == 0))) [
          | inl stop ↦ absurd (ground arith)
          | inr go ↦ elim (Bool-cases (bit_and x 0x80 == 0)) [
            | inl end ↦ ground arith
            | inr more ↦
                let on : read_bytes k (suc i) value' (shift + 7) xs ≡ some (v, n) = ground arith in
                let back =
                  read_bytes_agreed k (suc i) value' (shift + 7) m xs ys tails on
                    (omega (arith, h)) in
                ground (arith, back)
          ]
        ])

-- A bound ends behind the position at which it starts.
module _ (a : List ℕ) where
  pub behind_u32-later : (o : ℕ) {e : ℕ} → behind_u32 a o ≡ some e → o ≤ e
  unfolding behind_u32 read_u32
  behind_u32-later o {e} h = elim (Option-cases (read_u32 (drop o a))) [
    | inl z ↦ absurd (ground arith)
    | inr ((v, n), z) ↦ let same : o + n ≡ e = ground arith in omega (arith, same)
  ]

  behind_u64-later : (o : ℕ) {e : ℕ} → behind_u64 a o ≡ some e → o ≤ e
  unfolding behind_u64 read_u64
  behind_u64-later o {e} h = elim (Option-cases (read_u64 (drop o a))) [
    | inl z ↦ absurd (ground arith)
    | inr ((v, n), z) ↦ let same : o + n ≡ e = ground arith in omega (arith, same)
  ]

  pub behind_bound-later : (is64 : Bool) (o : ℕ) {e : ℕ} → behind_bound is64 a o ≡ some e → o ≤ e
  unfolding behind_bound
  behind_bound-later true o h = behind_u64-later o h
  behind_bound-later false o h = behind_u32-later o h

  pub limits_end-later : (o : ℕ) (memory : Bool) {e : ℕ} → limits_end a o memory ≡ some e → o ≤ e
  unfolding limits_end
  limits_end-later o memory {e} h = elim (Option-cases (read_u32 (drop o a))) [
    | inl z ↦ absurd (ground arith)
    | inr ((flags, n), z) ↦
        let is64 : Bool = memory && not (bit_and flags 4 == 0) in
        elim (Option-cases (behind_bound is64 a (o + n))) [
          | inl y ↦ absurd (ground arith)
          | inr (next, y) ↦
              let on = behind_bound-later is64 (o + n) y in
              elim (Bool-cases (bit_and flags 1 == 0)) [
                | inl last ↦ let same : next ≡ e = ground arith in omega (arith, on, same)
                | inr more ↦
                    let second : behind_bound is64 a next ≡ some e = ground arith in
                    let later = behind_bound-later is64 next second in omega (arith, on, later)
              ]
        ]
  ]
