-- ===== src/Host.antt =====
-- emscripten.go: the calls that work on guest memory alone, and the signatures of the callback
-- trampolines.
pub mod Copies
pub mod Trampolines
pub mod Reentry
use wago_emscripten.Common.{
  ℕ, zero, suc, ◌+◌, ◌-◌, ◌*◌, ◌^◌, Bool, true, false, not, ◌&&◌, ◌||◌, Option, none, some, List,
  [], ◌∷◌, ◌++◌, length, take, drop, replicate, ltb, leb, ◌==◌, bytes_eq, has_prefix, if◌then◌else◌,
  u32,
}
use wago_emscripten.Memory.{write_at, slice, put_u32, c_string}
use mathlib.Core.Option

-- A call ends with its result slots set, or with a host trap; the memory may have changed.
pub data Ended : Type 0 where
  returned : List ℕ → Ended
  trapped : Ended

-- `memcpyBig`: Go's `copy` takes the source bytes as they were, also where the ranges overlap.
unfoldable pub memcpy_big : List ℕ → ℕ → ℕ → ℕ → List ℕ × Ended
unfolding write_at
memcpy_big mem p0 p1 p2 =
    let dst = u32 p0 in
    let src = u32 p1 in
    let size = u32 p2 in
    if ltb (length mem) (dst + size) || ltb (length mem) (src + size)
    then (mem, trapped)
    else (write_at mem dst (slice mem src size), returned (dst ∷ []))

-- `putU32` writes where the word lies in memory.
unfoldable pub put_u32_checked : List ℕ → ℕ → ℕ → List ℕ
unfolding write_at
put_u32_checked mem ptr v = if leb (ptr + 4) (length mem) then put_u32 mem ptr v else mem

-- `putCString`: at most `limit` bytes with the NUL, where they all lie in memory.
unfoldable pub put_c_string : List ℕ → ℕ → List ℕ → ℕ → List ℕ
unfolding write_at
put_c_string mem ptr value limit =
    if limit == 0 || ltb (length mem) (ptr + limit)
    then mem
    else let n = if leb limit (length value) then limit - 1 else length value in
      write_at (write_at mem ptr (take n value)) (ptr + n) (0 ∷ [])

abbrev pub utc_name : List ℕ
utc_name = b'U' ∷ b'T' ∷ b'C' ∷ b'+' ∷ b'0' ∷ b'0' ∷ b'0' ∷ b'0' ∷ []

-- `tzset` takes three pointers, or four in its other form.
unfoldable pub tzset : List ℕ → List ℕ → List ℕ
unfolding put_u32_checked put_c_string
tzset mem (p0 ∷ p1 ∷ p2 ∷ []) =
    put_c_string (put_u32_checked (put_u32_checked mem (u32 p0) 0) (u32 p1) 0) (u32 p2) utc_name 17
tzset mem (p0 ∷ p1 ∷ p2 ∷ p3 ∷ []) =
    put_c_string
      (put_c_string (put_u32_checked (put_u32_checked mem (u32 p0) 0) (u32 p1) 0) (u32 p2) utc_name
        17)
      (u32 p3) utc_name 17
tzset mem (p0 ∷ p1 ∷ p2 ∷ p3 ∷ p4 ∷ ps) =
    put_c_string (put_u32_checked (put_u32_checked mem (u32 p0) 0) (u32 p1) 0) (u32 p2) utc_name 17
tzset mem [] = mem
tzset mem (p0 ∷ []) = mem
tzset mem (p0 ∷ p1 ∷ []) = mem

-- `console`: the text and a line break go to the writer, whose errors are dropped; none is a host trap.
unfoldable pub console : List ℕ → ℕ → Option (List ℕ)
unfolding c_string
console mem p0 = Option.map (λ message. message ++ 10 ∷ []) (c_string mem (u32 p0))

-- Value types of WebAssembly, as far as signatures name them.
pub data ValType : Type 0 where
  val_i32 : ValType
  val_i64 : ValType
  val_f32 : ValType
  val_f64 : ValType

abbrev pub value_type : ℕ → Option ValType
value_type code =
    if code == b'i' || code == b'p'
    then some val_i32
    else if code == b'j'
    then some val_i64
    else if code == b'f'
    then some val_f32
    else if code == b'd'
    then some val_f64
    else none

unfoldable pub value_types : List ℕ → Option (List ValType)
value_types [] = some []
value_types (code ∷ codes) =
    let rest = value_types codes in
    elim (value_type code) [ none ↦ none | some t ↦ Option.map (λ ts. t ∷ ts) rest ]

-- The parameters (the table index first) and the results of a trampoline.
unfoldable pub invoke_signature : List ℕ → Option (List ValType × List ValType)
unfolding value_types
invoke_signature [] = none
invoke_signature (result ∷ codes) = elim (value_types codes) [
  | none ↦ none
  | some params ↦
      if result == b'v'
      then some (val_i32 ∷ params, [])
      else elim (value_type result) [ none ↦ none | some t ↦ some (val_i32 ∷ params, t ∷ []) ]
]

-- The list of extra signatures, in the source's order.
abbrev pub extra_signatures : List (List ℕ)
extra_signatures =
    (b'f' ∷ [])
    ∷ (b'f' ∷ b'i' ∷ [])
    ∷ (b'f' ∷ b'i' ∷ b'i' ∷ [])
    ∷ (b'f' ∷ b'i' ∷ b'i' ∷ b'i' ∷ [])
    ∷ (b'f' ∷ b'i' ∷ b'i' ∷ b'i' ∷ b'i' ∷ [])
    ∷ (b'd' ∷ [])
    ∷ (b'd' ∷ b'd' ∷ [])
    ∷ (b'd' ∷ b'd' ∷ b'd' ∷ [])
    ∷ (b'd' ∷ b'i' ∷ [])
    ∷ (b'd' ∷ b'i' ∷ b'i' ∷ [])
    ∷ (b'd' ∷ b'i' ∷ b'i' ∷ b'i' ∷ [])
    ∷ (b'd' ∷ b'i' ∷ b'i' ∷ b'i' ∷ b'i' ∷ [])
    ∷ (b'd' ∷ b'j' ∷ [])
    ∷ (b'i' ∷ b'd' ∷ [])
    ∷ (b'i' ∷ b'd' ∷ b'd' ∷ [])
    ∷ (b'i' ∷ b'd' ∷ b'i' ∷ [])
    ∷ (b'i' ∷ b'd' ∷ b'i' ∷ b'i' ∷ [])
    ∷ (b'i' ∷ b'd' ∷ b'i' ∷ b'i' ∷ b'i' ∷ [])
    ∷ (b'i' ∷ b'd' ∷ b'i' ∷ b'i' ∷ b'i' ∷ b'i' ∷ [])
    ∷ (b'i' ∷ b'f' ∷ [])
    ∷ (b'i' ∷ b'f' ∷ b'f' ∷ [])
    ∷ (b'i' ∷ b'f' ∷ b'i' ∷ [])
    ∷ (b'i' ∷ b'f' ∷ b'i' ∷ b'i' ∷ [])
    ∷ (b'i' ∷ b'i' ∷ b'd' ∷ [])
    ∷ (b'i' ∷ b'i' ∷ b'd' ∷ b'i' ∷ [])
    ∷ (b'i' ∷ b'i' ∷ b'd' ∷ b'i' ∷ b'i' ∷ [])
    ∷ (b'i' ∷ b'i' ∷ b'f' ∷ [])
    ∷ (b'i' ∷ b'i' ∷ b'f' ∷ b'i' ∷ b'i' ∷ [])
    ∷ (b'i' ∷ b'j' ∷ [])
    ∷ (b'i' ∷ b'j' ∷ b'i' ∷ [])
    ∷ (b'i' ∷ b'i' ∷ b'j' ∷ [])
    ∷ (b'i' ∷ b'i' ∷ b'j' ∷ b'i' ∷ [])
    ∷ (b'i' ∷ b'i' ∷ b'j' ∷ b'i' ∷ b'i' ∷ [])
    ∷ (b'v' ∷ b'd' ∷ [])
    ∷ (b'v' ∷ b'i' ∷ b'd' ∷ [])
    ∷ (b'v' ∷ b'i' ∷ b'd' ∷ b'i' ∷ [])
    ∷ (b'v' ∷ b'i' ∷ b'd' ∷ b'i' ∷ b'i' ∷ [])
    ∷ (b'v' ∷ b'i' ∷ b'f' ∷ [])
    ∷ (b'v' ∷ b'i' ∷ b'f' ∷ b'i' ∷ [])
    ∷ (b'v' ∷ b'i' ∷ b'f' ∷ b'i' ∷ b'i' ∷ [])
    ∷ (b'v' ∷ b'i' ∷ b'i' ∷ b'd' ∷ [])
    ∷ (b'v' ∷ b'j' ∷ [])
    ∷ (b'v' ∷ b'i' ∷ b'j' ∷ [])
    ∷ (b'v' ∷ b'i' ∷ b'j' ∷ b'i' ∷ [])
    ∷ (b'v' ∷ b'i' ∷ b'j' ∷ b'i' ∷ b'i' ∷ [])
    ∷ (b'v' ∷ b'j' ∷ b'j' ∷ [])
    ∷ (b'v' ∷ b'j' ∷ b'i' ∷ [])
    ∷ (b'v' ∷ b'j' ∷ b'i' ∷ b'i' ∷ [])
    ∷ (b'j' ∷ b'd' ∷ [])
    ∷ (b'j' ∷ b'f' ∷ [])
    ∷ (b'j' ∷ b'j' ∷ [])
    ∷ (b'j' ∷ b'j' ∷ b'i' ∷ [])
    ∷ (b'j' ∷ b'i' ∷ b'j' ∷ [])
    ∷ (b'j' ∷ b'i' ∷ b'j' ∷ b'i' ∷ [])
    ∷ []

-- `add`: a signature that is not in the list yet goes to its end.
unfoldable pub is_listed : List ℕ → List (List ℕ) → Bool
is_listed s [] = false
is_listed s (t ∷ ts) = bytes_eq t s || is_listed s ts

unfoldable pub add_signature : List (List ℕ) → List ℕ → List (List ℕ)
unfolding is_listed
add_signature listed s = if is_listed s listed then listed else listed ++ s ∷ []

unfoldable pub add_signatures : List (List ℕ) → List (List ℕ) → List (List ℕ)
unfolding add_signature
add_signatures listed [] = listed
add_signatures listed (s ∷ ss) = add_signatures (add_signature listed s) ss

-- `for params := 0; params <= 16; params++`, with the rounds left to go.
unfoldable pub integer_signatures : ℕ → ℕ → List (List ℕ)
integer_signatures zero params = []
integer_signatures (suc left) params =
    (b'v' ∷ replicate params b'i')
    ∷ (b'i' ∷ replicate params b'i')
    ∷ (b'j' ∷ replicate params b'i')
    ∷ integer_signatures left (params + 1)

unfoldable pub invoke_signatures : List (List ℕ)
unfolding add_signatures integer_signatures
invoke_signatures = add_signatures (add_signatures [] (integer_signatures 17 0)) extra_signatures

abbrev pub invoke_prefix : List ℕ
invoke_prefix = b'i' ∷ b'n' ∷ b'v' ∷ b'o' ∷ b'k' ∷ b'e' ∷ b'_' ∷ []

unfoldable pub supports_invoke : List ℕ → Bool
unfolding invoke_signatures
supports_invoke name = has_prefix name invoke_prefix && is_listed (drop 7 name) invoke_signatures
