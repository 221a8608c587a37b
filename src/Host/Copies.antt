-- ===== src/Host/Copies.antt =====
-- What the memory calls leave in guest memory.
use wago_emscripten.Common.{
  ℕ, zero, suc, ◌+◌, ◌-◌, ◌^◌, ◌≤◌, ◌<◌, false, ◌||◌, ◌≡◌, refl, sym, ap, ◌∙◌, inl, inr, some, List,
  [], ◌∷◌, ◌++◌, append_assoc, length, take, drop, length-take, length-drop, length-append,
  Bool-cases, ltb, leb, ◌==◌, u32, arith,
}
use wago_emscripten.Memory.{write_at, slice, until_nul, c_string}
use wago_emscripten.Memory.Words.{length-write_at, slice-write_at, take-write_at, drop-write_at}
use wago_emscripten.Memory.Strings.{
  until_nul-string, has_byte-take, drop-write_at_start, write_at_twice,
}
use wago_emscripten.Paths.{has_byte}
use wago_emscripten.Host.{returned, memcpy_big, put_c_string, console}

-- A copy whose ranges lie in memory answers its destination; the destination then has the bytes that
-- the source had before, overlapping or not, and memory in front of it and behind it is untouched.
pub memcpy_big_lem :
    (mem : List ℕ) (dst src size : ℕ)
    → dst < 2 ^ 32
    → src < 2 ^ 32
    → size < 2 ^ 32
    → dst + size ≤ length mem
    → src + size ≤ length mem
    → ((memcpy_big mem dst src size).1 ≡ returned (dst ∷ []))
      × (slice (memcpy_big mem dst src size).0 dst size ≡ slice mem src size)
      × (take dst (memcpy_big mem dst src size).0 ≡ take dst mem)
      × (drop (dst + size) (memcpy_big mem dst src size).0 ≡ drop (dst + size) mem)
unfolding memcpy_big
memcpy_big_lem mem dst src size hd hs hz fd fs =
    let ed : u32 dst ≡ dst = omega arith in
    let es : u32 src ≡ src = omega arith in
    let ez : u32 size ≡ size = omega arith in
    let ok : ltb (length mem) (dst + size) || ltb (length mem) (src + size) ≡ false =
      ground arith in
    let whole : length (slice mem src size) ≡ size =
      omega (arith, length-take size (drop src mem), length-drop src mem) in
    let back : slice (write_at mem dst (slice mem src size)) dst size ≡ slice mem src size =
      ap (slice (write_at mem dst (slice mem src size)) dst) (sym whole)
      ∙ slice-write_at mem dst (slice mem src size) (omega (arith, whole)) in
    let behind : drop (dst + size) (write_at mem dst (slice mem src size)) ≡ drop (dst + size) mem =
      ap (λ n. drop (dst + n) (write_at mem dst (slice mem src size))) (sym whole)
      ∙ drop-write_at mem dst (slice mem src size)
      ∙ ap (λ n. drop (dst + n) mem) whole in
    rw (ed, es, ez) (rw ok (refl, back, take-write_at mem dst (slice mem src size), behind))

take_all : (n : ℕ) (xs : List ℕ) → length xs ≤ n → take n xs ≡ xs
take_all zero [] h = refl
take_all zero (x ∷ xs) h = absurd (omega arith)
take_all (suc n) [] h = refl
take_all (suc n) (x ∷ xs) h = ap (λ t. x ∷ t) (take_all n xs (omega arith))

-- What is put is the string, cut where it is too long, and its NUL.
put_c_string-written :
    (mem : List ℕ) (ptr : ℕ) (value : List ℕ) (limit : ℕ)
    → 1 ≤ limit
    → ptr + limit ≤ length mem
    → put_c_string mem ptr value limit ≡ write_at mem ptr (take (limit - 1) value ++ 0 ∷ [])
unfolding put_c_string
put_c_string-written mem ptr value limit one fits =
    let ok : limit == 0 || ltb (length mem) (ptr + limit) ≡ false = ground arith in
    rw ok (elim (Bool-cases (leb limit (length value))) [
      | inl long ↦
          let size : length (take (limit - 1) value) ≡ limit - 1 =
            ground (arith, length-take (limit - 1) value) in
          rw long (
            ap (λ k. write_at (write_at mem ptr (take (limit - 1) value)) (ptr + k) (0 ∷ []))
              (sym size)
            ∙ write_at_twice mem ptr (take (limit - 1) value) (0 ∷ []))
      | inr short ↦
          let whole : take (limit - 1) value ≡ value = take_all (limit - 1) value (ground arith) in
          rw short (
            rw (take_all (length value) value (omega arith))
              (rw whole (write_at_twice mem ptr value (0 ∷ []))))
    ])

-- A string without NUL that is put where `limit` bytes lie in memory is read back by `cString`, cut to
-- `limit - 1` bytes where it is longer. Memory in front of it and the size of memory stay.
pub put_c_string_lem :
    (mem : List ℕ) (ptr : ℕ) (value : List ℕ) (limit : ℕ)
    → 1 ≤ limit
    → ptr + limit ≤ length mem
    → has_byte 0 value ≡ false
    → (c_string (put_c_string mem ptr value limit) ptr ≡ some (take (limit - 1) value))
      × (take ptr (put_c_string mem ptr value limit) ≡ take ptr mem)
      × (length (put_c_string mem ptr value limit) ≡ length mem)
unfolding c_string
put_c_string_lem mem ptr value limit one fits clean =
    let bytes : List ℕ = take (limit - 1) value ++ 0 ∷ [] in
    let size : length bytes ≤ limit =
      omega
        (arith, length-append (take (limit - 1) value) (0 ∷ []), length-take (limit - 1) value) in
    let inside : leb (length (write_at mem ptr bytes)) ptr ≡ false =
      ground (arith, length-write_at mem ptr bytes) in
    let found : drop ptr (write_at mem ptr bytes)
        ≡ take (limit - 1) value ++ (0 ∷ drop (ptr + length bytes) mem) =
      drop-write_at_start mem ptr bytes (omega (arith, size))
      ∙ append_assoc (take (limit - 1) value) (0 ∷ []) (drop (ptr + length bytes) mem) in
    rw (put_c_string-written mem ptr value limit one fits) (
      rw inside (
          ap until_nul found
          ∙ until_nul-string (take (limit - 1) value) (drop (ptr + length bytes) mem)
              (has_byte-take 0 (limit - 1) value clean)),
      take-write_at mem ptr bytes,
      length-write_at mem ptr bytes,
    )

-- A string that is put in memory is what the console prints, with a line break.
console-put_c_string :
    (mem : List ℕ) (ptr : ℕ) (value : List ℕ) (limit : ℕ)
    → ptr < 2 ^ 32
    → 1 ≤ limit
    → ptr + limit ≤ length mem
    → has_byte 0 value ≡ false
    → console (put_c_string mem ptr value limit) ptr ≡ some (take (limit - 1) value ++ 10 ∷ [])
unfolding console
console-put_c_string mem ptr value limit small one fits clean =
    let same : u32 ptr ≡ ptr = omega arith in
    let (back, before, size) = put_c_string_lem mem ptr value limit one fits clean in
    rw same (rw back refl)
