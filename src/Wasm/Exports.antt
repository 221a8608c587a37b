-- ===== src/Wasm/Exports.antt =====
-- transform.go: the functions that a module exports, and the type of a function by its index.
pub mod Added
use wago_emscripten.Common.{
  ℕ, zero, suc, ◌+◌, ◌-◌, ◌≤◌, ◌<◌, Bool, true, false, not, ◌||◌, ◌≡◌, refl, inl, inr, Option, none,
  some, List, [], ◌∷◌, ◌++◌, length, drop, ltb, leb, ◌==◌, bytes_eq, if◌then◌else◌, Map, bytes_key,
  insert, ◌>>=◌, ◌>>◌, guard, arith,
}
use wago_emscripten.Wasm.{RawSection, read_u32, read_name, find_section}
use wago_emscripten.Wasm.Types.{FunctionType, function_type}
use wago_emscripten.Wasm.Names.{start_name}

-- An entry of the export section: its name, its kind (0 is a function) and its index.
pub record Export : Type 0 where
  pub name : List ℕ
  pub kind : ℕ
  pub index : ℕ

-- The kind and the index behind a name.
unfoldable pub read_export_item : List ℕ → List ℕ → Option (Export × List ℕ)
unfolding read_u32
read_export_item name [] = none
read_export_item name (kind ∷ source) = elim (read_u32 source) [
  | none ↦ none
  | some (index, size) ↦ some (record { name = name; kind = kind; index = index }, drop size source)
]

-- One round of the loop of `exportedFunctions`: the entry at the head of what is left of the payload,
-- and what is left behind it.
unfoldable pub read_export : List ℕ → Option (Export × List ℕ)
unfolding read_name read_export_item
read_export source = elim (read_name source 0) [
  | none ↦ none
  | some (name, next) ↦ read_export_item name (drop next source)
]

-- The functions so far, and whether one of the names was `_start`.
pub record Exports : Type 0 where
  pub functions : Map (List ℕ) ℕ
  pub has_start : Bool

unfoldable pub add_export : Export → Exports → Exports
unfolding insert
add_export e found = record {
  functions = if e.kind == 0 then insert e.name e.index found.functions else found.functions;
  has_start = found.has_start || bytes_eq e.name start_name;
}

-- The loop with `fuel` entries to go; bytes that are left behind them are an error.
unfoldable pub exports_loop : ℕ → List ℕ → Exports → Option Exports
unfolding read_export add_export
exports_loop zero [] found = some found
exports_loop zero (b ∷ bs) found = none
exports_loop (suc fuel) source found = elim (read_export source) [
  | none ↦ none
  | some (e, rest) ↦ exports_loop fuel rest (add_export e found)
]

abbrev pub no_exports : Exports
no_exports = record { functions = []; has_start = false }

unfoldable pub exported_functions : List RawSection → Option Exports
unfolding find_section read_u32 exports_loop
exported_functions sections = elim (find_section 7 sections) [
  | none ↦ none
  | some s ↦ elim (read_u32 s.payload) [
    | none ↦ none
    | some (count, n) ↦ exports_loop count (drop n s.payload) no_exports
  ]
]

-- The entry `wanted` of the function section, from what is left of its payload.
unfoldable pub type_index_loop : ℕ → List ℕ → Option ℕ
unfolding read_u32
type_index_loop zero source = elim (read_u32 source) [
  | none ↦ none
  | some (index, size) ↦ some index
]
type_index_loop (suc wanted) source = elim (read_u32 source) [
  | none ↦ none
  | some (index, size) ↦ type_index_loop wanted (drop size source)
]

unfoldable pub function_type_for_index : List RawSection → ℕ → ℕ → Option FunctionType
unfolding find_section read_u32 type_index_loop function_type
function_type_for_index sections imported function = do
  guard (not (ltb function imported))
  s ← find_section 3 sections
  count ← read_u32 s.payload
  guard (ltb (function - imported) count.0)
  index ← type_index_loop (function - imported) (drop count.1 s.payload)
  function_type sections index
