-- ===== src/Wasm/Transform.antt =====
-- transform.go: what kind of module a source is, and the whole transformation.
use wago_emscripten.Common.{
  ℕ, Bool, true, false, not, ◌&&◌, ◌||◌, Option, none, some, List, [], ◌∷◌, length, ltb, ◌==◌,
  has_prefix, if◌then◌else◌, Map, bytes_key, lookup, ◌>>=◌,
}
use wago_emscripten.Wasm.{RawSection, append_name, decode_sections, encode_sections}
use wago_emscripten.Wasm.Rewrite.{
  ModuleKind, plain, ruby, gojs, sqlite, lua, emscripten, is_plain, ImportRewrite, rewrite_imports,
}
use wago_emscripten.Wasm.Wrappers.{
  add_invoke_wrapper, define_imported_memory, add_resize_heap_wrapper,
}
use wago_emscripten.Wasm.Launchers.{add_start_launcher}
use wago_emscripten.Wasm.Launchers.Main.{add_emscripten_launcher}
use wago_emscripten.Wasm.Names.{
  env_module, wasi_unstable, resize_heap_import, call_ctors, initialize, ruby_show_version,
  run_name, go_program, ruby_host, ruby_version_marker, go_exit_marker, value_get_marker,
  sqlite_marker, resize_heap_marker, lua_marker, invoke_vii_marker, main_argc_argv, glue_markers,
  emscripten_markers,
}

-- bytes.Contains
unfoldable pub contains : List ℕ → List ℕ → Bool
unfolding has_prefix
contains [] marker = has_prefix [] marker
contains (b ∷ bs) marker = has_prefix (b ∷ bs) marker || contains bs marker

unfoldable pub contains_any : List ℕ → List (List ℕ) → Bool
unfolding contains
contains_any source [] = false
contains_any source (m ∷ ms) = contains source m || contains_any source ms

-- The names of `main` as an export or a name section has them.
unfoldable pub has_main : List ℕ → Bool
unfolding contains append_name
has_main source =
    contains source (4 ∷ b'm' ∷ b'a' ∷ b'i' ∷ b'n' ∷ 0 ∷ [])
    || contains source (5 ∷ b'_' ∷ b'm' ∷ b'a' ∷ b'i' ∷ b'n' ∷ 0 ∷ [])
    || contains source (append_name [] main_argc_argv)

unfoldable pub looks_like_emscripten : List ℕ → Bool
unfolding contains contains_any has_main
looks_like_emscripten source =
    contains source env_module
    && not (contains_any source glue_markers)
    && has_main source
    && contains_any source emscripten_markers

unfoldable pub classify_module : List ℕ → ModuleKind
unfolding contains looks_like_emscripten
classify_module source =
    if contains source ruby_host && contains source ruby_version_marker
    then ruby
    else if contains source go_exit_marker && contains source value_get_marker
    then gojs
    else if contains source sqlite_marker && contains source resize_heap_marker
    then sqlite
    else if contains source lua_marker && contains source invoke_vii_marker
    then lua
    else if looks_like_emscripten source
    then emscripten
    else plain

-- sort.Strings on the names of the trampolines, which are apart: the order of the bytes.
unfoldable pub name_lt : List ℕ → List ℕ → Bool
name_lt [] [] = false
name_lt [] (y ∷ ys) = true
name_lt (x ∷ xs) [] = false
name_lt (x ∷ xs) (y ∷ ys) = ltb x y || x == y && name_lt xs ys

unfoldable pub insert_name : List ℕ × ℕ → Map (List ℕ) ℕ → Map (List ℕ) ℕ
unfolding name_lt
insert_name e [] = e ∷ []
insert_name e (f ∷ fs) = if name_lt f.0 e.0 then f ∷ insert_name e fs else e ∷ f ∷ fs

unfoldable pub sort_names : Map (List ℕ) ℕ → Map (List ℕ) ℕ
unfolding insert_name
sort_names [] = []
sort_names (e ∷ es) = insert_name e (sort_names es)

-- A wrapper for each trampoline, in the order of the list.
unfoldable pub add_invoke_wrappers : List RawSection → ℕ → Map (List ℕ) ℕ → Option (List RawSection)
unfolding add_invoke_wrapper
add_invoke_wrappers sections imported [] = some sections
add_invoke_wrappers sections imported ((name, type_index) ∷ rest) =
    add_invoke_wrapper sections imported name type_index >>= λ wrapped.
    add_invoke_wrappers wrapped imported rest

unfoldable pub add_memory : List RawSection → List ℕ → Option (List RawSection)
unfolding define_imported_memory
add_memory sections descriptor =
    if length descriptor == 0 then some sections else define_imported_memory sections descriptor

unfoldable pub add_resize_heap : List RawSection → ImportRewrite → Option (List RawSection)
unfolding add_resize_heap_wrapper lookup
add_resize_heap sections r = elim (lookup resize_heap_import r.function_types) [
  | none ↦ some sections
  | some t ↦ add_resize_heap_wrapper sections r.function_count
]

-- The arguments of a Go program, which has a name at least.
abbrev pub go_argv : List (List ℕ) → List (List ℕ)
go_argv [] = go_program ∷ []
go_argv (a ∷ as') = a ∷ as'

-- The launcher of the kind; `spare` as for `insert_standard_section`.
unfoldable pub add_launcher :
    Bool
    → ModuleKind
    → List RawSection
    → ℕ
    → List (List ℕ)
    → List (List ℕ)
    → Option (List RawSection)
unfolding add_start_launcher add_emscripten_launcher
add_launcher spare emscripten sections imported args environment =
    add_emscripten_launcher sections imported args environment
add_launcher spare ruby sections imported args environment =
    add_start_launcher spare sections imported (initialize ∷ ruby_show_version ∷ []) []
add_launcher spare gojs sections imported args environment =
    add_start_launcher spare sections imported (run_name ∷ []) (go_argv args)
add_launcher spare _ sections imported args environment =
    add_start_launcher spare sections imported (call_ctors ∷ []) []

-- What is added to the rewritten sections of a module that is not plain.
unfoldable pub add_parts :
    Bool
    → ModuleKind
    → List RawSection
    → ImportRewrite
    → List (List ℕ)
    → List (List ℕ)
    → Option (List RawSection)
unfolding add_invoke_wrappers sort_names add_memory add_resize_heap add_launcher
add_parts spare kind sections r args environment = do
  wrapped ← add_invoke_wrappers sections r.function_count (sort_names r.invokes)
  defined ← add_memory wrapped r.memory
  resizing ← add_resize_heap defined r
  add_launcher spare kind resizing r.function_count args environment

unfoldable pub transform_sections :
    Bool → ModuleKind → List RawSection → List (List ℕ) → List (List ℕ) → Option (List RawSection)
unfolding rewrite_imports add_parts
transform_sections spare kind sections args environment = elim (rewrite_imports sections kind) [
  | none ↦ none
  | some (rewritten, r) ↦
      if is_plain kind then some rewritten else add_parts spare kind rewritten r args environment
]

-- `transformModuleWithEnvironment`; every error is none.
unfoldable pub transform_module : Bool → List ℕ → List (List ℕ) → List (List ℕ) → Option (List ℕ)
unfolding classify_module contains decode_sections transform_sections encode_sections
transform_module spare source args environment =
    if is_plain (classify_module source) && not (contains source wasi_unstable)
    then some source
    else do
      sections ← decode_sections source
      transformed ← transform_sections spare (classify_module source) sections args environment
      some (encode_sections transformed)
