-- ===== src/Tests/Encodings.antt =====
-- The binary format at concrete inputs.
use wago_emscripten.Common.{
  ℕ, ◌+◌, ◌-◌, ◌*◌, ◌%◌, ◌^◌, ◌≤◌, ◌<◌, ◌≡◌, refl, some, List, [], ◌∷◌, ◌++◌, length, get_elem?,
  drop, replicate, arith,
}
use wago_emscripten.Memory.{until_nul, le_bytes, get_u32}
use wago_emscripten.Wasm.{
  RawSection, read_bytes, read_u32, u32_bytes, append_u32, append_name, read_name, decode_loop,
  decode_sections, encode_sections, find_section, append_vector_item,
}
use wago_emscripten.Wasm.Arguments.{
  ArgvBlock, encode_emscripten_argv, append_strings, finish_argv, encode_go_argv, go_strings,
  go_pointers,
}
use wago_emscripten.Wasm.Imports.{
  import_descriptor_end, limits_end, behind_bound, behind_u32, import_descriptor_end-bounds,
}
use wago_emscripten.Wasm.Numbers.{read_u32-append_u32, read_u32-bounds}
use wago_emscripten.Wasm.Sections.{
  decode_sections-encode_sections, decode_loop-enough, read_name-append_name,
  append_vector_item_lem,
}
use wago_emscripten.Wasm.Arguments.GoLayout.{encode_go_argv-args}
use wago_emscripten.Wasm.Arguments.Layout.{encode_emscripten_argv-args, encode_emscripten_argv-size}

-- 300 is `ac 02`.
append_u32-300 : append_u32 [] 300 ≡ 0xac ∷ 2 ∷ []
unfolding append_u32 u32_bytes
append_u32-300 = refl

read_u32-append_u32_example :
    read_u32 (append_u32 [] 300 ++ 7 ∷ []) ≡ some (300, length (append_u32 [] 300))
read_u32-append_u32_example = read_u32-append_u32 300 (7 ∷ []) (omega arith)

-- The fifth byte may have four bits only.
read_u32-bounds_example : (4294967295 < 2 ^ 32) × (1 ≤ 5) × (5 ≤ 6) × (5 ≤ 5)
unfolding read_u32 read_bytes
read_u32-bounds_example = read_u32-bounds (0xff ∷ 0xff ∷ 0xff ∷ 0xff ∷ 0x0f ∷ 7 ∷ []) refl

-- A type section of one empty signature, and a function section of one function.
abbrev type_section : RawSection
type_section = record { id = 1; payload = 1 ∷ 0x60 ∷ 0 ∷ 0 ∷ [] }

abbrev function_section : RawSection
function_section = record { id = 3; payload = 1 ∷ 0 ∷ [] }

abbrev two_sections : List RawSection
two_sections = type_section ∷ function_section ∷ []

decode_sections-encode_sections_example :
    decode_sections (encode_sections two_sections) ≡ some two_sections
decode_sections-encode_sections_example =
    decode_sections-encode_sections two_sections (omega arith, (omega arith, tt))

decode_loop-enough_example : decode_loop 5 (3 ∷ 2 ∷ 1 ∷ 0 ∷ []) ≡ decode_loop 9 (3 ∷ 2 ∷ 1 ∷ 0 ∷ [])
decode_loop-enough_example = decode_loop-enough 5 9 (3 ∷ 2 ∷ 1 ∷ 0 ∷ []) (omega arith) (omega arith)

read_name-append_name_example :
    read_name (append_name (9 ∷ []) (b'a' ∷ b'b' ∷ []) ++ 5 ∷ []) 1
    ≡ some (b'a' ∷ b'b' ∷ [], length (append_name (9 ∷ []) (b'a' ∷ b'b' ∷ [])))
read_name-append_name_example =
    read_name-append_name (9 ∷ []) (b'a' ∷ b'b' ∷ []) (5 ∷ []) (omega arith)

append_vector_item_lem_example :
    (after : List RawSection) × (t : RawSection) × (m : ℕ) × (append_vector_item two_sections 3
        (0 ∷ [])
      ≡ some (after, 1))
    × (find_section 3 after ≡ some t)
    × (t.id ≡ 3)
    × (read_u32 t.payload ≡ some (2, m))
    × (drop m t.payload ≡ 0 ∷ 0 ∷ [])
unfolding find_section read_u32 read_bytes
append_vector_item_lem_example =
    append_vector_item_lem two_sections 3 (0 ∷ []) function_section 1 1 refl refl (omega arith)

-- The arguments `ab` and `c` and the environment `X=1`.
abbrev two_args : List (List ℕ)
two_args = (b'a' ∷ b'b' ∷ []) ∷ (b'c' ∷ []) ∷ []

abbrev one_entry : List (List ℕ)
one_entry = (b'X' ∷ b'=' ∷ b'1' ∷ []) ∷ []

abbrev block : ArgvBlock
block = record {
  block = b'a' ∷ b'b' ∷ 0 ∷ b'c' ∷ 0 ∷ b'X' ∷ b'=' ∷ b'1' ∷ 0 ∷ 0 ∷ 0 ∷ 0 ∷ [];
  offsets = 0 ∷ 3 ∷ 4294967295 ∷ 5 ∷ 4294967295 ∷ [];
  pointer_offset = 12;
  allocation_size = 32;
}

encoded_block : encode_emscripten_argv two_args one_entry ≡ some block
unfolding encode_emscripten_argv append_strings finish_argv
encoded_block = refl

encode_emscripten_argv-args_example :
    (o : ℕ) × (get_elem? block.offsets 1 ≡ some o)
    × (until_nul (drop o block.block) ≡ some (b'c' ∷ []))
encode_emscripten_argv-args_example =
    encode_emscripten_argv-args two_args one_entry block 1 (b'c' ∷ []) encoded_block (omega arith)
      refl

-- A block of which the size is no multiple of 16.
abbrev bare_block : ArgvBlock
bare_block = record {
  block = b'a' ∷ b'b' ∷ 0 ∷ b'c' ∷ 0 ∷ 0 ∷ 0 ∷ 0 ∷ [];
  offsets = 0 ∷ 3 ∷ 4294967295 ∷ 4294967295 ∷ [];
  pointer_offset = 8;
  allocation_size = 24;
}

encoded_bare_block : encode_emscripten_argv two_args [] ≡ some bare_block
unfolding encode_emscripten_argv append_strings finish_argv
encoded_bare_block = refl

encode_emscripten_argv-size_example :
    (length bare_block.block % 4 ≡ 0)
    × (bare_block.pointer_offset ≡ length bare_block.block)
    × (24 ≡ length bare_block.block + length bare_block.offsets * 4)
    × (24 ≤ 8192)
encode_emscripten_argv-size_example =
    encode_emscripten_argv-size two_args [] bare_block encoded_bare_block (omega arith)

-- `a` for a Go program: the string at 4096, padded to 8, and three pointers of 8 bytes.
abbrev one_arg : List (List ℕ)
one_arg = (b'a' ∷ []) ∷ []

abbrev go_block : List ℕ
go_block = b'a' ∷ 0 ∷ 0 ∷ 0 ∷ 0 ∷ 0 ∷ 0 ∷ 0 ∷ 0 ∷ 16 ∷ 0 ∷ 0 ∷ 0 ∷ 0 ∷ 0 ∷ 0 ∷ replicate 16 0

encode_go_argv-run : encode_go_argv one_arg ≡ some (go_block, 1, 4104)
unfolding encode_go_argv go_strings go_pointers le_bytes
encode_go_argv-run = refl

encode_go_argv-args_example :
    (o : ℕ) × (get_u32 go_block (4104 - 4096 + 8 * 0) ≡ 4096 + o)
    × (until_nul (drop o go_block) ≡ some (b'a' ∷ []))
    × (1 ≡ length one_arg)
    × (length go_block < 8192)
encode_go_argv-args_example =
    encode_go_argv-args one_arg go_block 1 4104 0 (b'a' ∷ []) encode_go_argv-run refl

-- The limits of a memory of 1 to 300 pages.
import_descriptor_end-bounds_example : (0 < 4) × (4 ≤ 5)
unfolding import_descriptor_end limits_end behind_bound behind_u32 read_u32 read_bytes
import_descriptor_end-bounds_example =
    import_descriptor_end-bounds (1 ∷ 1 ∷ 0xac ∷ 2 ∷ 9 ∷ []) 0 2 (omega arith) refl
