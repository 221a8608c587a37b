-- ===== src/Wasm/Launchers/Main.antt =====
-- transform.go: the launcher of an Emscripten module, which calls `main` with its arguments.
use wago_emscripten.Common.{
  ℕ, suc, ◌+◌, ◌*◌, Bool, true, false, not, ◌&&◌, Option, none, some, List, [], ◌∷◌, ◌++◌, length,
  ◌==◌, if◌then◌else◌, u32, Map, bytes_key, lookup, ◌>>=◌, ◌>>◌, guard,
}
use wago_emscripten.Wasm.{RawSection, append_u32, append_vector_item}
use wago_emscripten.Wasm.Types.{FunctionType, find_function_type}
use wago_emscripten.Wasm.Exports.{exported_functions, function_type_for_index}
use wago_emscripten.Wasm.Wrappers.{add_function}
use wago_emscripten.Wasm.Launchers.{empty_type}
use wago_emscripten.Wasm.Signed.{append_s32}
use wago_emscripten.Wasm.Arguments.{ArgvBlock, no_pointer, encode_emscripten_argv}
use wago_emscripten.Wasm.Names.{
  start_name, call_ctors, main_argc_argv, plain_main, underscore_main, get_current_export,
  stack_alloc, stack_restore_export,
}

-- The exports that tell whether arguments can be passed: the three functions on the guest's stack.
pub record StackFunctions : Type 0 where
  pub current : ℕ
  pub alloc : ℕ
  pub restore : ℕ

unfoldable pub stack_functions : Map (List ℕ) ℕ → Option StackFunctions
unfolding lookup
stack_functions functions = do
  current ← lookup get_current_export functions
  alloc ← lookup stack_alloc functions
  restore ← lookup stack_restore_export functions
  some (record { current = current; alloc = alloc; restore = restore })

-- The arguments as they are passed to `main`.
pub record Bootstrap : Type 0 where
  pub argc : ℕ
  pub argv : ArgvBlock
  pub stack : StackFunctions

abbrev is_nonempty {ℓ} : {A : Type ℓ} → List A → Bool
is_nonempty [] = false
is_nonempty (x ∷ xs) = true

-- `useArgv` with the encoded block. The outer none is an error, the inner one a launcher without
-- arguments.
unfoldable pub bootstrap :
    Map (List ℕ) ℕ → FunctionType → List (List ℕ) → List (List ℕ) → Option (Option Bootstrap)
unfolding stack_functions encode_emscripten_argv
bootstrap functions t argv environment = elim (stack_functions functions) [
  | none ↦ some none
  | some stack ↦
      if not (length t.params == 2 && is_nonempty argv)
      then some none
      else encode_emscripten_argv argv environment >>= λ block.
          some (some (record { argc = u32 (length argv); argv = block; stack = stack }))
]

-- The first of the conventional names that is exported.
unfoldable pub find_main : Map (List ℕ) ℕ → Option ℕ
unfolding lookup
find_main functions = elim (lookup main_argc_argv functions) [
  | some target ↦ some target
  | none ↦ elim (lookup plain_main functions) [
    | some target ↦ some target
    | none ↦ lookup underscore_main functions
  ]
]

-- `main` has no parameters or two i32, and no result or one i32.
abbrev pub has_main_params : List ℕ → Bool
has_main_params [] = true
has_main_params (p ∷ q ∷ []) = p == 0x7f && q == 0x7f
has_main_params _ = false

abbrev pub has_main_results : List ℕ → Bool
has_main_results [] = true
has_main_results (r ∷ []) = r == 0x7f
has_main_results _ = false

-- An i32.store8 of each byte of the block at the address in local 1.
unfoldable pub store_block : ℕ → List ℕ → List ℕ
unfolding append_s32 append_u32
store_block offset [] = []
store_block offset (b ∷ bs) =
    append_u32 (append_s32 (0x20 ∷ 0x01 ∷ 0x41 ∷ []) b ++ 0x3a ∷ 0x00 ∷ []) (u32 offset)
    ++ store_block (suc offset) bs

-- An i32.store of each pointer, which is the block's address and an offset; the end of a list is 0.
unfoldable pub store_pointers : ℕ → ℕ → List ℕ → List ℕ
unfolding append_s32 append_u32
store_pointers place i [] = []
store_pointers place i (offset ∷ offsets) =
    let pointer =
      if offset == no_pointer
      then 0x41 ∷ 0x00 ∷ []
      else append_s32 (0x20 ∷ 0x01 ∷ 0x41 ∷ []) offset ++ 0x6a ∷ [] in
    append_u32 (0x20 ∷ 0x01 ∷ [] ++ pointer ++ 0x36 ∷ 0x02 ∷ []) (u32 (place + u32 (i * 4)))
    ++ store_pointers place (suc i) offsets

-- The instructions that put the block on the guest's stack and push `argc` and `argv`.
unfoldable pub pass_argv : Bootstrap → List ℕ
unfolding append_s32 append_u32 store_block store_pointers
pass_argv b =
    append_u32 (0x10 ∷ []) b.stack.current
    ++ append_s32 (0x21 ∷ 0x00 ∷ 0x41 ∷ []) b.argv.allocation_size
    ++ append_u32 (0x10 ∷ []) b.stack.alloc
    ++ 0x21 ∷ 0x01 ∷ []
    ++ store_block 0 b.argv.block
    ++ store_pointers b.argv.pointer_offset 0 b.argv.offsets
    ++ append_s32 (0x41 ∷ []) b.argc
    ++ append_s32 (0x20 ∷ 0x01 ∷ 0x41 ∷ []) b.argv.pointer_offset
    ++ 0x6a ∷ []

-- The parameters of `main`: the arguments, or two zeros, or none.
unfoldable pub main_arguments : Option Bootstrap → FunctionType → List ℕ
unfolding pass_argv
main_arguments (some b) t = pass_argv b
main_arguments none t = if length t.params == 2 then 0x41 ∷ 0x00 ∷ 0x41 ∷ 0x00 ∷ [] else []

-- The stack is given back before the result is tested: a trap where it is not zero.
unfoldable pub give_back : Option Bootstrap → List ℕ
unfolding append_u32
give_back none = []
give_back (some b) =
    append_u32 (0x21 ∷ 0x02 ∷ 0x20 ∷ 0x00 ∷ 0x10 ∷ []) b.stack.restore ++ 0x20 ∷ 0x02 ∷ []

unfoldable pub main_result : Option Bootstrap → FunctionType → List ℕ
unfolding give_back
main_result passed t =
    if length t.results == 1 then give_back passed ++ 0x04 ∷ 0x40 ∷ 0x00 ∷ 0x0b ∷ [] else []

-- Three i32 locals where arguments are passed.
abbrev pub locals : Option Bootstrap → List ℕ
locals none = 0x00 ∷ []
locals (some b) = 0x01 ∷ 0x03 ∷ 0x7f ∷ []

unfoldable pub call_constructors : Option ℕ → List ℕ
unfolding append_u32
call_constructors none = []
call_constructors (some f) = append_u32 (0x10 ∷ []) f

unfoldable pub launcher_body : Option ℕ → Option Bootstrap → FunctionType → ℕ → List ℕ
unfolding append_u32 call_constructors main_arguments main_result
launcher_body ctors passed t target =
    locals passed
    ++ call_constructors ctors
    ++ main_arguments passed t
    ++ append_u32 (0x10 ∷ []) target
    ++ main_result passed t
    ++ 0x0b ∷ []

-- The type without parameters and results: one that is there, or a new one.
unfoldable pub find_empty_type : List RawSection → Option (List RawSection × ℕ)
unfolding find_function_type append_vector_item
find_empty_type sections =
    elim (find_function_type sections (record { params = []; results = [] })) [
      | some index ↦ some (sections, index)
      | none ↦ append_vector_item sections 1 empty_type
    ]

-- The launcher behind the test for a `_start`.
unfoldable pub add_main_function :
    List RawSection → ℕ → Map (List ℕ) ℕ → List (List ℕ) → List (List ℕ) → Option (List RawSection)
unfolding find_main function_type_for_index bootstrap find_empty_type add_function launcher_body
    lookup
add_main_function sections imported functions argv environment = do
  target ← find_main functions
  t ← function_type_for_index sections imported target
  guard (has_main_results t.results)
  guard (has_main_params t.params)
  passed ← bootstrap functions t argv environment
  typed ← find_empty_type sections
  add_function typed.0 imported typed.1 start_name
      (launcher_body (lookup call_ctors functions) passed t target)

unfoldable pub add_emscripten_launcher :
    List RawSection → ℕ → List (List ℕ) → List (List ℕ) → Option (List RawSection)
unfolding exported_functions add_main_function
add_emscripten_launcher sections imported argv environment = elim (exported_functions sections) [
  | none ↦ none
  | some exports ↦
      if exports.has_start
      then some sections
      else add_main_function sections imported exports.functions argv environment
]
