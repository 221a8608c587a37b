-- ===== src/Common/Bits.antt =====
-- Masks on one byte as arithmetic: both sides are compared at every byte by evaluation.
use Prim.Native.Nat.{ℕ, zero, suc, ◌+◌, ◌*◌, ◌/◌, ◌%◌, ◌<◌, bit_and, bit_or}
use mathlib.Core.Path.{◌≡◌, refl, subst}
use mathlib.Core.Logic.{inl, inr}
use mathlib.Core.Bool.{Bool, true, ◌&&◌}
use native.Mathlib.Omega.{arith}
use wago_emscripten.Common.Tests.{◌==◌, ==→eq, Bool-cases}

-- Whether two functions agree on the first `bound` numbers.
agree : (ℕ → ℕ) → (ℕ → ℕ) → ℕ → Bool
agree f g zero = true
agree f g (suc bound) = agree f g bound && f bound == g bound

agree-at : (f g : ℕ → ℕ) (bound b : ℕ) → b < bound → agree f g bound ≡ true → f b ≡ g b
unfolding agree
agree-at f g zero b small same = absurd (omega arith)
agree-at f g (suc bound) b small same = elim (Bool-cases (bound == b)) [
  | inl last ↦
      let here : bound ≡ b = ==→eq bound b last in
      let equal : f bound ≡ g bound = ==→eq (f bound) (g bound) (ground arith) in
      subst (λ c. f c ≡ g c) here equal
  | inr earlier ↦ agree-at f g bound b (ground arith) (ground arith)
]

pub low_bits : (b : ℕ) → b < 256 → bit_and b 0x7f ≡ b % 128
unfolding agree
low_bits b small = agree-at (λ c. bit_and c 0x7f) (λ c. c % 128) 256 b small refl

pub top_bit : (b : ℕ) → b < 256 → bit_and b 0x80 ≡ b / 128 * 128
unfolding agree
top_bit b small = agree-at (λ c. bit_and c 0x80) (λ c. c / 128 * 128) 256 b small refl

pub high_nibble : (b : ℕ) → b < 256 → bit_and b 0xf0 ≡ b / 16 * 16
unfolding agree
high_nibble b small = agree-at (λ c. bit_and c 0xf0) (λ c. c / 16 * 16) 256 b small refl

pub set_top_bit : (b : ℕ) → b < 128 → bit_or b 0x80 ≡ b + 128
unfolding agree
set_top_bit b small = agree-at (λ c. bit_or c 0x80) (λ c. c + 128) 128 b small refl

pub sign_bit : (b : ℕ) → b < 128 → bit_and b 0x40 ≡ b / 64 * 64
unfolding agree
sign_bit b small = agree-at (λ c. bit_and c 0x40) (λ c. c / 64 * 64) 128 b small refl
