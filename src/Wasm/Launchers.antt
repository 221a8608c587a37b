-- ===== src/Wasm/Launchers.antt =====
-- transform.go: the launcher of a module with known entry points, which exports a `_start` that calls them.
pub mod Main
pub mod Started
use wago_emscripten.Common.{
  ℕ, zero, suc, ◌+◌, ◌-◌, ◌*◌, ◌≤◌, ◌<◌, Bool, true, false, not, ◌&&◌, ◌||◌, ◌≡◌, refl, inl, inr,
  Option, none, some, List, [], ◌∷◌, ◌++◌, length, take, drop, ltb, leb, ◌==◌, if◌then◌else◌, u32,
  Map, bytes_key, lookup, ◌>>=◌, ◌>>◌, guard, arith,
}
use wago_emscripten.Wasm.{RawSection, append_u32, append_name, find_section, append_vector_item}
use wago_emscripten.Wasm.Types.{FunctionType, find_function_type}
use wago_emscripten.Wasm.Exports.{Exports, exported_functions, function_type_for_index}
use wago_emscripten.Wasm.Wrappers.{declare_function, add_code, add_function, insert_in_order}
use wago_emscripten.Wasm.Signed.{append_s32}
use wago_emscripten.Wasm.Arguments.{ArgvBlock, no_pointer, encode_go_argv, encode_emscripten_argv}
use wago_emscripten.Wasm.Names.{
  start_name, call_ctors, main_argc_argv, plain_main, underscore_main, get_current_export,
  stack_alloc, stack_restore_export,
}

-- What the caller of `insertStandardSection` sees of its sections. The function appends to its own copy
-- of the slice: without room behind the caller's sections nothing reaches them, and with room (`spare`,
-- which the runtime decides) the sections move up under the caller's old length.
unfoldable pub insert_standard_section :
    Bool → RawSection → List RawSection → Option (List RawSection)
unfolding find_section insert_in_order
insert_standard_section spare new sections =
    if new.id == 0 then none else elim (find_section new.id sections) [
      | some s ↦ none
      | none ↦
          some (if spare then take (length sections) (insert_in_order new sections) else sections)
    ]

abbrev pub empty_type : List ℕ
empty_type = 0x60 ∷ 0x00 ∷ 0x00 ∷ []

-- A `call` of each function.
unfoldable pub calls : List ℕ → List ℕ
unfolding append_u32
calls [] = []
calls (f ∷ fs) = append_u32 (0x10 ∷ []) f ++ calls fs

-- The indices of the targets; none is a target that is not exported.
unfoldable pub find_targets : Map (List ℕ) ℕ → List (List ℕ) → Option (List ℕ)
unfolding lookup
find_targets functions [] = some []
find_targets functions (t ∷ ts) = do
  index ← lookup t functions
  rest ← find_targets functions ts
  some (index ∷ rest)

-- The data segment that puts the arguments at address 4096.
unfoldable pub argv_segment : List ℕ → List ℕ
unfolding append_s32 append_u32
argv_segment block =
    append_u32 (append_s32 (0x00 ∷ 0x41 ∷ []) 4096 ++ 0x0b ∷ []) (u32 (length block)) ++ block

unfoldable pub add_segment : Bool → List RawSection → List ℕ → Option (List RawSection)
unfolding find_section insert_standard_section append_vector_item append_u32
add_segment spare sections segment = elim (find_section 11 sections) [
  | none ↦
      insert_standard_section spare (record { id = 11; payload = append_u32 [] 1 ++ segment })
        sections
  | some s ↦ append_vector_item sections 11 segment >>= λ r. some r.0
]

-- The sections with the arguments in a data segment, and the instructions that push the number of
-- arguments and their address; without arguments, nothing.
unfoldable pub add_go_argv :
    Bool → List RawSection → List (List ℕ) → Option (List RawSection × List ℕ)
unfolding encode_go_argv argv_segment add_segment append_s32
add_go_argv spare sections [] = some (sections, [])
add_go_argv spare sections (arg ∷ args) = elim (encode_go_argv (arg ∷ args)) [
  | none ↦ none
  | some (block, argc, address) ↦ add_segment spare sections (argv_segment block) >>= λ placed.
      some (placed, append_s32 (0x41 ∷ []) (u32 argc) ++ append_s32 (0x41 ∷ []) address)
]

-- The launcher behind the test for a `_start`, for the targets' indices.
unfoldable pub add_start_function :
    Bool → List RawSection → ℕ → List ℕ → List (List ℕ) → Option (List RawSection)
unfolding append_vector_item declare_function add_go_argv add_code calls
add_start_function spare sections imported targets argv = do
  typed ← append_vector_item sections 1 empty_type
  declared ← declare_function typed.0 imported typed.1 start_name
  placed ← add_go_argv spare declared argv
  add_code placed.0 (0x00 ∷ [] ++ placed.1 ++ calls targets ++ 0x0b ∷ [])

unfoldable pub add_start_launcher :
    Bool → List RawSection → ℕ → List (List ℕ) → List (List ℕ) → Option (List RawSection)
unfolding exported_functions find_targets add_start_function
add_start_launcher spare sections imported targets argv = elim (exported_functions sections) [
  | none ↦ none
  | some exports ↦
      if exports.has_start
      then some sections
      else find_targets exports.functions targets >>= λ indices.
          add_start_function spare sections imported indices argv
]
