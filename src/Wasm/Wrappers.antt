-- ===== src/Wasm/Wrappers.antt =====
-- transform.go: the functions and the memory that are added to a module.
pub mod Added
pub mod Placed
pub mod Ordered
use wago_emscripten.Common.{
  ℕ, zero, suc, ◌+◌, ◌-◌, ◌≤◌, ◌<◌, Bool, true, false, not, ◌&&◌, ◌||◌, ◌≡◌, refl, inl, inr, Option,
  none, some, List, [], ◌∷◌, ◌++◌, length, drop, ltb, leb, ◌==◌, if◌then◌else◌, u32, ◌>>=◌, ◌>>◌,
  guard, arith,
}
use wago_emscripten.Wasm.{RawSection, append_u32, append_name, find_section, append_vector_item}
use wago_emscripten.Wasm.Types.{FunctionType, function_type, find_function_type}
use wago_emscripten.Wasm.Signed.{append_s32}
use wago_emscripten.Wasm.Names.{wago_prefix, wago_resize_heap}

-- The entry of the export section for a function.
unfoldable pub export_entry : List ℕ → ℕ → List ℕ
unfolding append_name append_u32
export_entry name index = append_u32 (append_name [] name ++ 0 ∷ []) index

-- A body with its size, as it stands in the code section.
unfoldable pub code_item : List ℕ → List ℕ
unfolding append_u32
code_item body = append_u32 [] (u32 (length body)) ++ body

-- The steps that every wrapper and launcher takes: an entry of the function section and an export of
-- the new function, and then its body.
unfoldable pub declare_function : List RawSection → ℕ → ℕ → List ℕ → Option (List RawSection)
unfolding append_vector_item append_u32 export_entry
declare_function sections imported type_index name = do
  defined ← append_vector_item sections 3 (append_u32 [] type_index)
  exported ← append_vector_item defined.0 7 (export_entry name (u32 (imported + defined.1)))
  some exported.0

unfoldable pub add_code : List RawSection → List ℕ → Option (List RawSection)
unfolding append_vector_item code_item
add_code sections body = append_vector_item sections 10 (code_item body) >>= λ coded. some coded.0

unfoldable pub add_function : List RawSection → ℕ → ℕ → List ℕ → List ℕ → Option (List RawSection)
unfolding declare_function add_code
add_function sections imported type_index name body =
    declare_function sections imported type_index name >>= λ declared. add_code declared body

-- `local.get` of the parameters from `i` on, `fuel` of them.
unfoldable pub get_locals : ℕ → ℕ → List ℕ
unfolding append_u32
get_locals zero i = []
get_locals (suc fuel) i = append_u32 (0x20 ∷ []) (u32 i) ++ get_locals fuel (suc i)

-- The body of a callback's wrapper: its parameters but the first, which is the table index, and
-- `call_indirect`.
unfoldable pub invoke_body : ℕ → ℕ → List ℕ
unfolding get_locals append_u32
invoke_body params callback_type =
    append_u32 (0x00 ∷ [] ++ get_locals (params - 1) 1 ++ 0x20 ∷ 0x00 ∷ 0x11 ∷ []) callback_type
    ++ 0x00 ∷ 0x0b ∷ []

abbrev pub starts_with_i32 : List ℕ → Bool
starts_with_i32 [] = false
starts_with_i32 (p ∷ ps) = p == 0x7f

unfoldable pub add_invoke_wrapper : List RawSection → ℕ → List ℕ → ℕ → Option (List RawSection)
unfolding function_type find_function_type add_function invoke_body
add_invoke_wrapper sections imported name wrapper_type = do
  t ← function_type sections wrapper_type
  guard (starts_with_i32 t.params)
  callback ← find_function_type sections (record { params = drop 1 t.params; results = t.results })
  add_function sections imported wrapper_type (wago_prefix ++ b'_' ∷ [] ++ name)
      (invoke_body (length t.params) callback)

-- target = ceil(requested bytes / 64 KiB); the memory grows only by the missing pages.
unfoldable pub resize_heap_body : List ℕ
unfolding append_s32
resize_heap_body =
    append_s32 (0x01 ∷ 0x02 ∷ 0x7f ∷ 0x20 ∷ 0x00 ∷ 0x41 ∷ []) 65535
    ++ 0x6a ∷ 0x41 ∷ 0x10 ∷ 0x76 ∷ 0x21 ∷ 0x02 ∷ 0x3f ∷ 0x00 ∷ 0x21 ∷ 0x01 ∷ 0x20 ∷ 0x02 ∷ 0x20
      ∷ 0x01 ∷ 0x4d ∷ 0x04 ∷ 0x7f ∷ 0x41 ∷ 0x01 ∷ 0x05 ∷ 0x20 ∷ 0x02 ∷ 0x20 ∷ 0x01 ∷ 0x6b ∷ 0x40
      ∷ 0x00 ∷ 0x41 ∷ 0x7f ∷ 0x47 ∷ 0x0b ∷ 0x0b ∷ []

unfoldable pub add_resize_heap_wrapper : List RawSection → ℕ → Option (List RawSection)
unfolding find_function_type add_function resize_heap_body
add_resize_heap_wrapper sections imported = do
  type_index ← find_function_type sections (record { params = 0x7f ∷ []; results = 0x7f ∷ [] })
  add_function sections imported type_index wago_resize_heap resize_heap_body

-- Before the first standard section that must follow it; a custom section, of id 0, is passed over.
unfoldable pub insert_in_order : RawSection → List RawSection → List RawSection
insert_in_order new [] = new ∷ []
insert_in_order new (s ∷ ss) =
    if not (s.id == 0) && ltb new.id s.id then new ∷ s ∷ ss else s ∷ insert_in_order new ss

unfoldable pub define_imported_memory : List RawSection → List ℕ → Option (List RawSection)
unfolding find_section append_u32 insert_in_order
define_imported_memory sections descriptor = elim (find_section 5 sections) [
  | some s ↦ none
  | none ↦
      some (insert_in_order (record { id = 5; payload = append_u32 [] 1 ++ descriptor }) sections)
]
