-- ===== src/Memory/Strings.antt =====
-- Strings that end at their NUL.
use wago_emscripten.Common.{
  ℕ, zero, suc, ◌+◌, ◌≤◌, false, ◌≡◌, refl, ap, ◌∙◌, some, List, [], ◌∷◌, ◌++◌, length, take, drop,
  arith,
}
use wago_emscripten.Memory.{write_at, until_nul}
use wago_emscripten.Paths.{has_byte}

-- A string with its NUL is read whole, whatever follows.
pub until_nul-string :
    (arg more : List ℕ) → has_byte 0 arg ≡ false → until_nul (arg ++ (0 ∷ more)) ≡ some arg
unfolding until_nul
until_nul-string [] more h = refl
until_nul-string (c ∷ cs) more h = ground (arith, until_nul-string cs more (ground arith))

pub has_byte-take : (b n : ℕ) (xs : List ℕ) → has_byte b xs ≡ false → has_byte b (take n xs) ≡ false
has_byte-take b zero xs h = refl
has_byte-take b (suc n) [] h = refl
has_byte-take b (suc n) (x ∷ xs) h = ground (arith, has_byte-take b n xs (ground arith))

-- From its start on, memory has the bytes written, then what it had.
pub drop-write_at_start :
    (xs : List ℕ) (i : ℕ) (bs : List ℕ)
    → i + length bs ≤ length xs
    → drop i (write_at xs i bs) ≡ bs ++ drop (i + length bs) xs
unfolding write_at
drop-write_at_start xs zero [] h = refl
drop-write_at_start [] zero (b ∷ bs) h = absurd (omega arith)
drop-write_at_start (x ∷ xs) zero (b ∷ bs) h =
    let next : 0 + suc (length bs) ≡ suc (0 + length bs) = omega arith in
    rw next (ap (λ t. b ∷ t) (drop-write_at_start xs zero bs (omega arith)))
drop-write_at_start [] (suc i) bs h = absurd (omega arith)
drop-write_at_start (x ∷ xs) (suc i) [] h =
    let next : suc i + 0 ≡ suc (i + 0) = omega arith in
    rw next (drop-write_at_start xs i [] (omega arith))
drop-write_at_start (x ∷ xs) (suc i) (b ∷ bs) h =
    let next : suc i + suc (length bs) ≡ suc (i + suc (length bs)) = omega arith in
    rw next (drop-write_at_start xs i (b ∷ bs) (omega arith))

write_at-step :
    (x : ℕ) (xs : List ℕ) (i : ℕ) (cs : List ℕ)
    → write_at (x ∷ xs) (suc i) cs ≡ x ∷ write_at xs i cs
unfolding write_at
write_at-step x xs i [] = refl
write_at-step x xs i (c ∷ cs) = refl

-- Two writes, one behind the other, are one.
pub write_at_twice :
    (xs : List ℕ) (i : ℕ) (bs cs : List ℕ)
    → write_at (write_at xs i bs) (i + length bs) cs ≡ write_at xs i (bs ++ cs)
unfolding write_at
write_at_twice xs i [] cs = ap (λ n. write_at xs n cs) (omega arith)
write_at_twice [] i (b ∷ bs) [] = refl
write_at_twice [] i (b ∷ bs) (c ∷ cs) = refl
write_at_twice (x ∷ xs) zero (b ∷ bs) cs =
    let next : 0 + suc (length bs) ≡ suc (0 + length bs) = omega arith in
    rw next (
      write_at-step b (write_at xs 0 bs) (0 + length bs) cs
      ∙ ap (λ t. b ∷ t) (write_at_twice xs 0 bs cs))
write_at_twice (x ∷ xs) (suc i) (b ∷ bs) cs =
    let next : suc i + suc (length bs) ≡ suc (i + suc (length bs)) = omega arith in
    rw next (
      write_at-step x (write_at xs i (b ∷ bs)) (i + suc (length bs)) cs
      ∙ ap (λ t. x ∷ t) (write_at_twice xs i (b ∷ bs) cs))
