-- ===== src/Wasm/Rewrite.antt =====
-- transform.go: the import section, rewritten entry by entry.
pub mod Steps
pub mod ShortNames
pub mod Reading
pub mod Kept
use wago_emscripten.Common.{
  ℕ, zero, suc, ◌+◌, ◌-◌, Bool, true, false, not, ◌&&◌, ◌||◌, Option, none, some, List, [], ◌∷◌,
  ◌++◌, length, get_elem?, take, drop, ltb, ◌==◌, bytes_eq, has_prefix, if◌then◌else◌, u32, Map,
  bytes_key, insert, ◌>>=◌,
}
use wago_emscripten.Host.{supports_invoke, is_listed}
use wago_emscripten.Wasm.{
  RawSection, read_u32, read_name, append_u32, append_name, find_section, replace_payload,
}
use wago_emscripten.Wasm.Imports.{import_descriptor_end}
use wago_emscripten.Wasm.Types.{function_type}
use wago_emscripten.Wasm.Names.{
  env_module, memory_name, invoke_name_prefix, localtime_js, gmtime_js, tzset_js, munmap_import,
  mmap_import, wago_localtime_js_i64, wago_gmtime_js_i64, wago_tzset_js_4, i64_suffix, wago_prefix,
  wasi_unstable, wasi_preview1, wago_wasi_prefix, wasi_names,
}

-- What `classifyModule` answers; `plain` is the empty string.
pub data ModuleKind : Type 0 where
  plain ruby gojs sqlite lua emscripten : ModuleKind

-- The kinds whose `env` is the plugin's: all but the two with a host of their own.
abbrev pub has_env : ModuleKind → Bool
has_env ruby = false
has_env gojs = false
has_env _ = true

abbrev pub is_plain : ModuleKind → Bool
is_plain plain = true
is_plain _ = false

-- An entry of the import section; the descriptor is kept as its bytes.
pub record Import : Type 0 where
  pub module_name : List ℕ
  pub name : List ℕ
  pub kind : ℕ
  pub descriptor : List ℕ

-- The kind and the descriptor behind the names, which end at `next`.
unfoldable pub read_import_item : List ℕ → List ℕ → List ℕ → ℕ → Option (Import × List ℕ)
unfolding import_descriptor_end
read_import_item source module_name name next = do
  kind ← get_elem? source next
  end ← import_descriptor_end source (next + 1) kind
  some (
    record {
      module_name = module_name;
      name = name;
      kind = kind;
      descriptor = take (end - (next + 1)) (drop (next + 1) source);
    },
    drop end source,
  )

-- The entry at the head of what is left of the payload, and what is left behind it.
unfoldable pub read_import : List ℕ → Option (Import × List ℕ)
unfolding read_name read_import_item
read_import source = elim (read_name source 0) [
  | none ↦ none
  | some (module_name, module_end) ↦ elim (read_name source module_end) [
    | none ↦ none
    | some (name, name_end) ↦ read_import_item source module_name name name_end
  ]
]

-- `importType`: 0 for an import that is no function.
unfoldable pub import_type : Import → ℕ
unfolding read_u32
import_type i =
    if i.kind == 0 then elim (read_u32 i.descriptor) [ none ↦ 0 | some (t, n) ↦ t ] else 0

unfoldable pub append_import : Import → List ℕ
unfolding append_name
append_import i = append_name (append_name [] i.module_name) i.name ++ i.kind ∷ [] ++ i.descriptor

-- `importRewrite` without its sections, and the entries so far.
pub record ImportRewrite : Type 0 where
  pub function_count : ℕ
  pub function_types : Map (List ℕ) ℕ
  pub invokes : Map (List ℕ) ℕ
  pub memory : List ℕ
  pub entries : List (List ℕ)

abbrev pub no_imports : ImportRewrite
no_imports = record {
  function_count = 0;
  function_types = [];
  invokes = [];
  memory = [];
  entries = [];
}

-- A callback's trampoline.
abbrev pub is_invoke : Import → Bool
is_invoke i =
    bytes_eq i.module_name env_module
    && ltb (length invoke_name_prefix) (length i.name)
    && has_prefix i.name invoke_name_prefix

-- A function that is imported is counted and its type noted; a trampoline must have a signature that
-- the plugin knows.
unfoldable pub note_function : Import → ImportRewrite → Option ImportRewrite
unfolding import_type insert supports_invoke
note_function i r =
    let counted : ImportRewrite = record r {
      function_count = u32 (r.function_count + 1);
      function_types =
          insert (i.module_name ++ b'.' ∷ [] ++ i.name) (import_type i) r.function_types;
    } in
    if not (i.kind == 0)
    then some r
    else if not (is_invoke i)
    then some counted
    else if supports_invoke i.name
    then some (record counted { invokes = insert i.name (import_type i) r.invokes })
    else none

abbrev pub has_i64_first : List ℕ → Bool
has_i64_first (p ∷ q ∷ []) = p == 0x7e
has_i64_first _ = false

abbrev pub has_i64 : List ℕ → Bool
has_i64 [] = false
has_i64 (p ∷ ps) = p == 0x7e || has_i64 ps

-- Which variant of a call a signature asks for.
unfoldable pub rename_typed : List ℕ → List ℕ → List ℕ
rename_typed name params =
    if bytes_eq name localtime_js
    then if has_i64_first params then wago_localtime_js_i64 else name
    else if bytes_eq name gmtime_js
    then if has_i64_first params then wago_gmtime_js_i64 else name
    else if bytes_eq name tzset_js
    then if length params == 4 then wago_tzset_js_4 else name
    else if has_i64 params
    then wago_prefix ++ name ++ i64_suffix
    else name

abbrev pub is_typed_name : List ℕ → Bool
is_typed_name name =
    bytes_eq name localtime_js
    || bytes_eq name gmtime_js
    || bytes_eq name tzset_js
    || bytes_eq name munmap_import
    || bytes_eq name mmap_import

-- The renaming within `env`; none is a type that cannot be read.
unfoldable pub rename_env : List RawSection → ModuleKind → Import → Option Import
unfolding function_type import_type rename_typed
rename_env sections kind i =
    if not (has_env kind && bytes_eq i.module_name env_module && is_typed_name i.name)
    then some i
    else function_type sections (import_type i) >>= λ t.
        some (record i { name = rename_typed i.name t.params })

-- The old module of WASI becomes the new one, and the calls that the plugin serves move to `env`.
unfoldable pub rename_wasi : ModuleKind → Import → Import
unfolding is_listed
rename_wasi kind i =
    let module_name =
      if bytes_eq i.module_name wasi_unstable then wasi_preview1 else i.module_name in
    if not (is_plain kind)
      && has_env kind
      && bytes_eq module_name wasi_preview1
      && is_listed i.name wasi_names
    then record i { module_name = env_module; name = wago_wasi_prefix ++ i.name }
    else record i { module_name = module_name }

abbrev pub is_memory : ModuleKind → Import → Bool
is_memory kind i =
    has_env kind && bytes_eq i.module_name env_module && bytes_eq i.name memory_name && i.kind == 2

unfoldable pub add_entry : ImportRewrite → Import → ImportRewrite
unfolding append_import
add_entry r i = record r { entries = r.entries ++ append_import i ∷ [] }

-- A memory is taken out, and any other entry is renamed and kept.
unfoldable pub keep_import :
    List RawSection → ModuleKind → Import → ImportRewrite → Option ImportRewrite
unfolding rename_env rename_wasi add_entry
keep_import sections kind i r =
    if is_memory kind i
    then if length r.memory == 0 then some (record r { memory = i.descriptor }) else none
    else rename_env sections kind i >>= λ renamed. some (add_entry r (rename_wasi kind renamed))

-- One round behind the reading.
unfoldable pub rewrite_import :
    List RawSection → ModuleKind → Import → ImportRewrite → Option ImportRewrite
unfolding note_function keep_import
rewrite_import sections kind i r = note_function i r >>= keep_import sections kind i

-- The loop with `fuel` entries to go; bytes that are left behind them are an error.
unfoldable pub imports_loop :
    List RawSection → ModuleKind → ℕ → List ℕ → ImportRewrite → Option ImportRewrite
unfolding read_import rewrite_import
imports_loop sections kind zero [] r = some r
imports_loop sections kind zero (b ∷ bs) r = none
imports_loop sections kind (suc fuel) source r = elim (read_import source) [
  | none ↦ none
  | some (i, rest) ↦ elim (rewrite_import sections kind i r) [
    | none ↦ none
    | some r' ↦ imports_loop sections kind fuel rest r'
  ]
]

unfoldable pub concat : List (List ℕ) → List ℕ
concat [] = []
concat (e ∷ es) = e ++ concat es

-- The entries with their number in front, as the import section.
unfoldable pub put_entries : List (List ℕ) → List RawSection → List RawSection
unfolding replace_payload append_u32 concat
put_entries entries sections =
    replace_payload 2 (append_u32 [] (u32 (length entries)) ++ concat entries) sections

-- The sections with the new import section, and what was noted of the old one.
unfoldable pub rewrite_imports :
    List RawSection → ModuleKind → Option (List RawSection × ImportRewrite)
unfolding find_section read_u32 imports_loop put_entries
rewrite_imports sections kind = elim (find_section 2 sections) [
  | none ↦ some (sections, no_imports)
  | some s ↦ elim (read_u32 s.payload) [
    | none ↦ none
    | some (count, n) ↦ imports_loop sections kind count (drop n s.payload) no_imports >>= λ r.
        some (put_entries r.entries sections, r)
  ]
]
