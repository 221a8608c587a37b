-- ===== src/Memory/Words.antt =====
-- What a write leaves in memory, and that words read back.
use wago_emscripten.Common.{
  ℕ, zero, suc, ◌+◌, ◌*◌, ◌/◌, ◌^◌, ◌≤◌, ◌<◌, ◌≡◌, refl, ap, List, [], ◌∷◌, length, take, drop, All,
  arith,
}
use native.Mathlib.Nat.{pow-suc}
use wago_emscripten.Memory.{write_at, le_bytes, of_le, slice}

pub length-write_at : (xs : List ℕ) (i : ℕ) (bs : List ℕ) → length (write_at xs i bs) ≡ length xs
unfolding write_at
length-write_at xs i [] = refl
length-write_at [] i (b ∷ bs) = refl
length-write_at (x ∷ xs) zero (b ∷ bs) = omega (arith, length-write_at xs zero bs)
length-write_at (x ∷ xs) (suc i) (b ∷ bs) = omega (arith, length-write_at xs i (b ∷ bs))

-- Bytes written in range are read back.
pub slice-write_at :
    (xs : List ℕ) (i : ℕ) (bs : List ℕ)
    → i + length bs ≤ length xs
    → slice (write_at xs i bs) i (length bs) ≡ bs
unfolding write_at
slice-write_at xs i [] h = refl
slice-write_at [] i (b ∷ bs) h = absurd (omega arith)
slice-write_at (x ∷ xs) zero (b ∷ bs) h = ap (λ t. b ∷ t) (slice-write_at xs zero bs (omega arith))
slice-write_at (x ∷ xs) (suc i) (b ∷ bs) h = slice-write_at xs i (b ∷ bs) (omega arith)

-- A write touches nothing before its start.
pub take-write_at : (xs : List ℕ) (i : ℕ) (bs : List ℕ) → take i (write_at xs i bs) ≡ take i xs
unfolding write_at
take-write_at xs i [] = refl
take-write_at [] i (b ∷ bs) = refl
take-write_at (x ∷ xs) zero (b ∷ bs) = refl
take-write_at (x ∷ xs) (suc i) (b ∷ bs) = ap (λ t. x ∷ t) (take-write_at xs i (b ∷ bs))

-- A write touches nothing behind its end.
pub drop-write_at :
    (xs : List ℕ) (i : ℕ) (bs : List ℕ)
    → drop (i + length bs) (write_at xs i bs) ≡ drop (i + length bs) xs
unfolding write_at
drop-write_at xs i [] = refl
drop-write_at [] i (b ∷ bs) = refl
drop-write_at (x ∷ xs) zero (b ∷ bs) =
    let e : 0 + suc (length bs) ≡ suc (0 + length bs) = omega arith in
    rw e (drop-write_at xs zero bs)
drop-write_at (x ∷ xs) (suc i) (b ∷ bs) =
    let e : suc i + suc (length bs) ≡ suc (i + suc (length bs)) = omega arith in
    rw e (drop-write_at xs i (b ∷ bs))

pub length-le_bytes : (n v : ℕ) → length (le_bytes n v) ≡ n
unfolding le_bytes
length-le_bytes zero v = refl
length-le_bytes (suc n) v = omega (arith, length-le_bytes n (v / 256))

pub le_bytes-IsByte : (n v : ℕ) → All (λ b. b < 256) (le_bytes n v)
unfolding le_bytes
le_bytes-IsByte zero v = tt
le_bytes-IsByte (suc n) v = (omega arith, le_bytes-IsByte n (v / 256))

pub of_le-le_bytes : (n v : ℕ) → v < 256 ^ n → of_le (le_bytes n v) ≡ v
unfolding of_le le_bytes
of_le-le_bytes zero v h = omega arith
of_le-le_bytes (suc n) v h =
    let h' : v < 256 ^ n * 256 = rw pow-suc at h in
    omega (arith, of_le-le_bytes n (v / 256) (omega arith))
