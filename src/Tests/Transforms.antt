-- ===== src/Tests/Transforms.antt =====
-- transform.go: the transformer's parts on small modules.
use wago_emscripten.Common.{
  bytes_key, ℕ, ◌+◌, ◌-◌, ◌^◌, true, false, ◌&&◌, ◌≡◌, refl, Option, none, some, List, [], ◌∷◌,
  ◌++◌, length, drop, ltb, ◌==◌, bytes_eq, if◌then◌else◌, u32, arith,
}
use wago_emscripten.Wasm.{
  RawSection, read_u32, append_u32, append_name, find_section, append_vector_item,
}
use wago_emscripten.Wasm.Types.{
  FunctionType, function_type, find_function_type, has_type, find_function_type-function_type,
}
use wago_emscripten.Wasm.Signed.{append_s32, read_signed, read_signed-append_s32}
use wago_emscripten.Wasm.Exports.{Exports, add_export, exported_functions}
use wago_emscripten.Wasm.Names.{wago_prefix, env_module, memory_name, wasi_unstable}
use wago_emscripten.Wasm.Rewrite.{emscripten, Import, ImportRewrite, no_imports, rewrite_imports}
use wago_emscripten.Wasm.Rewrite.Steps.{read_imports, functions}
use wago_emscripten.Wasm.Rewrite.Kept.{rewrite_imports-functions}
use wago_emscripten.Wasm.Wrappers.{starts_with_i32, add_invoke_wrapper, define_imported_memory}
use wago_emscripten.Wasm.Wrappers.Added.{add_invoke_wrapper-exports}
use wago_emscripten.Wasm.Wrappers.Ordered.{IsOrdered, define_imported_memory_lem}
use wago_emscripten.Wasm.Launchers.Main.{add_emscripten_launcher}

-- Two types, () → () and (i32) → (); one function of the first type, which is exported as `main`.
abbrev small_types : RawSection
small_types = record { id = 1; payload = 2 ∷ 0x60 ∷ 0 ∷ 0 ∷ 0x60 ∷ 1 ∷ 0x7f ∷ 0 ∷ [] }

abbrev small_exports : RawSection
small_exports = record { id = 7; payload = 1 ∷ 4 ∷ b'm' ∷ b'a' ∷ b'i' ∷ b'n' ∷ 0 ∷ 0 ∷ [] }

abbrev small_module : List RawSection
small_module =
    small_types
    ∷ record { id = 3; payload = 1 ∷ 0 ∷ [] }
    ∷ small_exports
    ∷ record { id = 10; payload = 1 ∷ 2 ∷ 0 ∷ 0x0b ∷ [] }
    ∷ []

abbrev main_name : List ℕ
main_name = b'm' ∷ b'a' ∷ b'i' ∷ b'n' ∷ []

abbrev main_export : Exports
main_export = record { functions = (main_name, 0) ∷ []; has_start = false }

abbrev callback_type : FunctionType
callback_type = record { params = 0x7f ∷ []; results = [] }

find_function_type-function_type_example :
    (function_type small_module 1 ≡ some callback_type)
    × ((j : ℕ) → (ltb j 1 && has_type small_module callback_type j) ≡ false)
unfolding find_function_type bytes_eq
find_function_type-function_type_example =
    find_function_type-function_type small_module callback_type refl

-- -5 in one byte.
read_signed-append_s32_example :
    read_signed (append_s32 [] (2 ^ 32 - 5) ++ 9 ∷ []) ≡ some (2 ^ 32 - 5, 9 ∷ [])
read_signed-append_s32_example = read_signed-append_s32 (2 ^ 32 - 5) (9 ∷ []) (omega arith)

abbrev or_empty : Option (List RawSection) → List RawSection
or_empty none = []
or_empty (some ss) = ss

abbrev invoke_v : List ℕ
invoke_v = b'i' ∷ b'n' ∷ b'v' ∷ b'o' ∷ b'k' ∷ b'e' ∷ b'_' ∷ b'v' ∷ []

abbrev wrapped : List RawSection
wrapped = or_empty (add_invoke_wrapper small_module 2 invoke_v 1)

small_exports-are : exported_functions small_module ≡ some main_export
unfolding exported_functions bytes_eq
small_exports-are = refl

wrapped-is : add_invoke_wrapper small_module 2 invoke_v 1 ≡ some wrapped
unfolding add_invoke_wrapper bytes_eq
wrapped-is = refl

add_invoke_wrapper-exports_example :
    (k : ℕ) × (defined : List RawSection) × (append_vector_item small_module 3 (append_u32 [] 1)
      ≡ some (defined, k))
    × (exported_functions wrapped
        ≡ some (
            add_export
              (record {
                name = wago_prefix ++ b'_' ∷ [] ++ invoke_v;
                kind = 0;
                index = u32 (2 + k);
              })
              main_export))
    × ((t : FunctionType) × (callback : ℕ) × (function_type small_module 1 ≡ some t)
        × (starts_with_i32 t.params ≡ true)
        × (function_type small_module callback
            ≡ some (record { params = drop 1 t.params; results = t.results })))
unfolding find_section read_u32
add_invoke_wrapper-exports_example =
    add_invoke_wrapper-exports small_module wrapped 2 1 invoke_v small_exports 1 1 main_export refl
      refl (omega arith) small_exports-are (omega arith) wrapped-is

abbrev limits : List ℕ
limits = 0 ∷ 17 ∷ []

abbrev with_memory : List RawSection
with_memory = or_empty (define_imported_memory small_module limits)

with_memory-is : define_imported_memory small_module limits ≡ some with_memory
unfolding define_imported_memory
with_memory-is = refl

small_module-IsOrdered : IsOrdered small_module
small_module-IsOrdered = ground arith

define_imported_memory_lem_example :
    IsOrdered with_memory
    × ((j : ℕ)
        → find_section j with_memory ≡ (
            if j == 5
            then some (record { id = 5; payload = append_u32 [] 1 ++ limits })
            else find_section j small_module))
define_imported_memory_lem_example =
    define_imported_memory_lem small_module with_memory limits small_module-IsOrdered with_memory-is

abbrev launched : List RawSection
launched = or_empty (add_emscripten_launcher small_module 0 [] [])

-- A memory between two functions, the first of which WASI provides under its old name.
abbrev imports_payload : List ℕ
imports_payload =
    3 ∷ (append_name (append_name [] wasi_unstable) main_name ++ 0 ∷ 0 ∷ [])
    ++ (append_name (append_name [] env_module) memory_name ++ 2 ∷ limits)
    ++ append_name (append_name [] env_module) main_name
    ++ 0 ∷ 1 ∷ []

abbrev importing : RawSection
importing = record { id = 2; payload = imports_payload }

abbrev rewriting : List RawSection × ImportRewrite
rewriting = elim (rewrite_imports (small_types ∷ importing ∷ []) emscripten) [
  | none ↦ ([], no_imports)
  | some r ↦ r
]

rewriting-is : rewrite_imports (small_types ∷ importing ∷ []) emscripten ≡ some rewriting
unfolding rewrite_imports bytes_eq
rewriting-is = refl

imports_are : (read_u32 imports_payload ≡ some (3, 1)) × (rewriting.1.function_count ≡ 2)
unfolding read_u32 append_name rewrite_imports bytes_eq
imports_are = (refl, refl)

rewrite_imports-functions_example :
    (before after : List Import) × (payload : List ℕ) × (n' : ℕ) × (read_imports 3
        (drop 1 imports_payload)
      ≡ some before)
    × (find_section 2 rewriting.0 ≡ some (record { id = 2; payload = payload }))
    × (read_u32 payload ≡ some (length after, n'))
    × (read_imports (length after) (drop n' payload) ≡ some after)
    × (functions after ≡ functions before)
    × (rewriting.1.function_count ≡ u32 (length (functions before)))
unfolding find_section
rewrite_imports-functions_example =
    rewrite_imports-functions (small_types ∷ importing ∷ []) emscripten importing 3 1 rewriting.0
      rewriting.1 refl imports_are.0 rewriting-is
