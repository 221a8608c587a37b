-- ===== src/Wasm.antt =====
-- transform.go: the encoding of numbers, names and sections.
pub mod Numbers
pub mod Sections
pub mod Arguments
pub mod Imports
pub mod Types
pub mod Exports
pub mod Wrappers
pub mod Launchers
pub mod Rewrite
pub mod Transform
pub mod Signed
pub mod Names
use wago_emscripten.Common.{
  ℕ, zero, suc, ◌+◌, ◌*◌, ◌/◌, ◌%◌, ◌^◌, Bool, not, ◌&&◌, ◌||◌, Option, none, some, List, [], ◌∷◌,
  ◌++◌, length, take, drop, ltb, bytes_eq, ◌==◌, if◌then◌else◌, u32, bit_and, bit_or,
}
use mathlib.Core.Option

-- What tells `readU32` and `readU64` apart: the number of bytes, the shift of the last one, the bits
-- that it must not have, and the width.
pub record Leb : Type 0 where
  pub most : ℕ
  pub last_shift : ℕ
  pub last_mask : ℕ
  pub modulus : ℕ

-- The loop from byte `i` on. The seven bits of a byte lie above those read so far, so that `|=` adds
-- them. Both errors are none.
unfoldable pub read_bytes : Leb → ℕ → ℕ → ℕ → List ℕ → Option (ℕ × ℕ)
read_bytes k i value shift [] = none
read_bytes k i value shift (b ∷ bs) =
    let value' = (value + bit_and b 0x7f * 2 ^ shift) % k.modulus in
    let rest = read_bytes k (suc i) value' (shift + 7) bs in
    if i == k.most || shift == k.last_shift && not (bit_and b k.last_mask == 0)
    then none
    else if bit_and b 0x80 == 0
    then some (value', suc i)
    else rest

-- The value, and how many bytes it took.
unfoldable pub read_u32 : List ℕ → Option (ℕ × ℕ)
unfolding read_bytes
read_u32 source =
    read_bytes (record { most = 5; last_shift = 28; last_mask = 0xf0; modulus = 2 ^ 32 }) 0 0 0
      source

unfoldable pub read_u64 : List ℕ → Option (ℕ × ℕ)
unfolding read_bytes
read_u64 source =
    read_bytes (record { most = 10; last_shift = 63; last_mask = 0xfe; modulus = 2 ^ 64 }) 0 0 0
      source

-- The loop of `appendU32`, on fuel.
unfoldable pub u32_bytes : ℕ → ℕ → List ℕ
u32_bytes zero value = []
u32_bytes (suc fuel) value =
    let b = value % 128 in
    let rest = value / 128 in
    let more = u32_bytes fuel rest in if rest == 0 then b ∷ [] else bit_or b 0x80 ∷ more

-- Five rounds take a 32-bit value to zero.
unfoldable pub append_u32 : List ℕ → ℕ → List ℕ
unfolding u32_bytes
append_u32 out value = out ++ u32_bytes 5 value

unfoldable pub append_name : List ℕ → List ℕ → List ℕ
unfolding append_u32
append_name out value = append_u32 out (u32 (length value)) ++ value

-- The name at `offset`, and where it ends.
unfoldable pub read_name : List ℕ → ℕ → Option (List ℕ × ℕ)
unfolding read_u32
read_name payload offset =
    if ltb (length payload) offset then none else elim (read_u32 (drop offset payload)) [
      | none ↦ none
      | some (size, n) ↦
          let start = offset + n in
          if ltb (length payload) (start + size)
          then none
          else some (take size (drop start payload), start + size)
    ]

pub record RawSection : Type 0 where
  pub id : ℕ
  pub payload : List ℕ

abbrev pub wasm_header : List ℕ
wasm_header = 0 ∷ b'a' ∷ b's' ∷ b'm' ∷ 1 ∷ 0 ∷ 0 ∷ 0 ∷ []

-- The loop of `decodeSections` over what is left of the source, on fuel.
unfoldable pub decode_loop : ℕ → List ℕ → Option (List RawSection)
unfolding read_u32
decode_loop zero source = none
decode_loop (suc fuel) [] = some []
decode_loop (suc fuel) (id ∷ source) = elim (read_u32 source) [
  | none ↦ none
  | some (size, n) ↦
      let body = drop n source in
      let rest = decode_loop fuel (drop size body) in
      if ltb (length body) size
      then none
      else Option.map (λ ss. record { id = id; payload = take size body } ∷ ss) rest
]

-- Each round takes a byte at least, so that the length of the source is fuel enough.
unfoldable pub decode_sections : List ℕ → Option (List RawSection)
unfolding decode_loop
decode_sections source =
    if ltb (length source) 8 || not (bytes_eq (take 8 source) wasm_header)
    then none
    else decode_loop (suc (length source)) (drop 8 source)

unfoldable pub encode_loop : List RawSection → List ℕ
unfolding u32_bytes
encode_loop [] = []
encode_loop (s ∷ ss) = s.id ∷ u32_bytes 5 (u32 (length s.payload)) ++ (s.payload ++ encode_loop ss)

unfoldable pub encode_sections : List RawSection → List ℕ
unfolding encode_loop
encode_sections sections = wasm_header ++ encode_loop sections

-- `sectionIndex`, with the section in place of its index: the first with this id.
unfoldable pub find_section : ℕ → List RawSection → Option RawSection
find_section id [] = none
find_section id (s ∷ ss) = if s.id == id then some s else find_section id ss

unfoldable pub replace_payload : ℕ → List ℕ → List RawSection → List RawSection
replace_payload id payload [] = []
replace_payload id payload (s ∷ ss) =
    if s.id == id then record s { payload = payload } ∷ ss else s ∷ replace_payload id payload ss

-- The sections with the item in them, and the index of the item.
unfoldable pub append_vector_item : List RawSection → ℕ → List ℕ → Option (List RawSection × ℕ)
unfolding find_section replace_payload read_u32 append_u32
append_vector_item sections id item = elim (find_section id sections) [
  | none ↦ none
  | some s ↦ elim (read_u32 s.payload) [
    | none ↦ none
    | some (count, n) ↦
        let payload = append_u32 [] (u32 (count + 1)) ++ drop n s.payload ++ item in
        some (replace_payload id payload sections, count)
  ]
]
