-- ===== src/Wasm/Arguments.antt =====
-- transform.go: the blocks of argument strings and pointers that the launchers put in guest memory.
pub mod Layout
pub mod GoLayout
use wago_emscripten.Common.{
  ℕ, zero, suc, ◌+◌, ◌-◌, ◌*◌, ◌%◌, ◌^◌, ◌≤◌, ◌<◌, Bool, true, false, ◌≡◌, refl, ap, ◌∙◌, inl, inr,
  Option, none, some, List, [], ◌∷◌, ◌++◌, append_assoc, append-nil, length, get_elem?, drop,
  replicate, drop-append, length-append, length-replicate, Bool-cases, Option-cases, ltb, leb, ◌==◌,
  if◌then◌else◌, u32, arith,
}
use wago_emscripten.Memory.{le_bytes, until_nul}
use wago_emscripten.Paths.{has_byte}

-- The zeros up to the next multiple of `n`, for `n` above zero.
abbrev pub padding : ℕ → ℕ → List ℕ
padding n len = replicate ((n - len % n) % n) 0

-- The loop of `encodeGoArgv` over the strings: the data and the pointers so far.
unfoldable pub go_strings : List (List ℕ) → List ℕ → List ℕ → Option (List ℕ × List ℕ)
go_strings [] block pointers = some (block, pointers)
go_strings (arg ∷ args) block pointers =
    let grown = block ++ arg ++ 0 ∷ [] in
    let rest =
      go_strings args (grown ++ padding 8 (length grown))
        (pointers ++ u32 (4096 + u32 (length block)) ∷ []) in
    if has_byte 0 arg then none else rest

-- The pointers, each as 8 bytes of which the upper four are zero.
unfoldable pub go_pointers : List ℕ → List ℕ
unfolding le_bytes
go_pointers [] = []
go_pointers (p ∷ ps) = le_bytes 4 p ++ replicate 4 0 ++ go_pointers ps

-- The block that goes to address 4096, the number of arguments, and the address of `argv`. None is an
-- argument with a NUL in it, or a block that is too large.
unfoldable pub encode_go_argv : List (List ℕ) → Option (List ℕ × ℕ × ℕ)
unfolding go_strings go_pointers
encode_go_argv args = elim (go_strings args [] []) [
  | none ↦ none
  | some (block, pointers) ↦
      let whole = block ++ go_pointers (pointers ++ 0 ∷ 0 ∷ []) in
      if leb 8192 (length whole)
      then none
      else some (whole, length args, u32 (4096 + u32 (length block)))
]

-- `appendStrings` of `encodeEmscriptenArgv`.
unfoldable pub append_strings : List (List ℕ) → List ℕ → List ℕ → Option (List ℕ × List ℕ)
append_strings [] block offsets = some (block, offsets)
append_strings (arg ∷ args) block offsets =
    let rest = append_strings args (block ++ arg ++ 0 ∷ []) (offsets ++ u32 (length block) ∷ []) in
    if has_byte 0 arg then none else rest

-- What `encodeEmscriptenArgv` answers.
pub record ArgvBlock : Type 0 where
  pub block : List ℕ
  pub offsets : List ℕ
  pub pointer_offset : ℕ
  pub allocation_size : ℕ

abbrev pub no_pointer : ℕ
no_pointer = 2 ^ 32 - 1

-- The padded block, where the pointers go, and the size of both. `15&^15` is zero, and `&^` binds
-- before `+`.
abbrev pub argv_block : List ℕ → List ℕ → ArgvBlock
argv_block block offsets =
    let padded = block ++ padding 4 (length block) in
    record {
      block = padded;
      offsets = offsets;
      pointer_offset = u32 (length padded);
      allocation_size = u32 (u32 (length padded) + u32 (length offsets * 4));
    }

-- The end of `encodeEmscriptenArgv`.
unfoldable pub finish_argv : List ℕ → List ℕ → Option ArgvBlock
finish_argv block offsets =
    let r : ArgvBlock = argv_block block offsets in
    if ltb 8192 r.allocation_size then none else some r

unfoldable pub encode_emscripten_argv : List (List ℕ) → List (List ℕ) → Option ArgvBlock
unfolding append_strings finish_argv
encode_emscripten_argv args environment = elim (append_strings args [] []) [
  | none ↦ none
  | some (block, offsets) ↦ elim (append_strings environment block (offsets ++ no_pointer ∷ [])) [
    | none ↦ none
    | some (block', offsets') ↦ finish_argv block' (offsets' ++ no_pointer ∷ [])
  ]
]
