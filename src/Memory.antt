-- ===== src/Memory.antt =====
-- Guest memory as bytes: the little-endian words of encoding/binary, Go's `copy` into a slice, and
-- `cString` of filesystem.go.
pub mod Words
pub mod Strings
use wago_emscripten.Common.{
  ℕ, zero, suc, ◌+◌, ◌*◌, ◌/◌, ◌%◌, ◌^◌, Bool, ◌≡◌, Option, none, some, List, [], ◌∷◌, length,
  get_elem?, take, drop, ltb, leb, ◌==◌, if◌then◌else◌,
}
use mathlib.Core.Option

-- `copy(xs[i:], bs)`: bytes that would fall behind the end are not copied.
unfoldable pub write_at : List ℕ → ℕ → List ℕ → List ℕ
write_at xs i [] = xs
write_at [] i (b ∷ bs) = []
write_at (x ∷ xs) zero (b ∷ bs) = b ∷ write_at xs zero bs
write_at (x ∷ xs) (suc i) (b ∷ bs) = x ∷ write_at xs i (b ∷ bs)

-- `xs[i : i+n]`, for a range that the caller has checked.
abbrev pub slice : List ℕ → ℕ → ℕ → List ℕ
slice xs i n = take n (drop i xs)

-- The `n` bytes of a word, lowest first.
unfoldable pub le_bytes : ℕ → ℕ → List ℕ
le_bytes zero v = []
le_bytes (suc n) v = v % 256 ∷ le_bytes n (v / 256)

unfoldable pub of_le : List ℕ → ℕ
of_le [] = 0
of_le (b ∷ bs) = b + 256 * of_le bs

-- binary.LittleEndian.PutUint32 and PutUint64 into `mem[ptr:]`.
abbrev pub put_u32 : List ℕ → ℕ → ℕ → List ℕ
put_u32 mem ptr v = write_at mem ptr (le_bytes 4 v)

abbrev pub put_u64 : List ℕ → ℕ → ℕ → List ℕ
put_u64 mem ptr v = write_at mem ptr (le_bytes 8 v)

-- binary.LittleEndian.Uint32 and Uint64 of `mem[ptr:]`.
abbrev pub get_u32 : List ℕ → ℕ → ℕ
get_u32 mem ptr = of_le (slice mem ptr 4)

abbrev pub get_u64 : List ℕ → ℕ → ℕ
get_u64 mem ptr = of_le (slice mem ptr 8)

-- The scan of `cString`: the bytes before the first NUL, or none if the slice ends before it.
unfoldable pub until_nul : List ℕ → Option (List ℕ)
until_nul [] = none
until_nul (b ∷ bs) = if b == 0 then some [] else Option.map (λ s. b ∷ s) (until_nul bs)

unfoldable pub c_string : List ℕ → ℕ → Option (List ℕ)
unfolding until_nul
c_string mem ptr = if leb (length mem) ptr then none else until_nul (drop ptr mem)
