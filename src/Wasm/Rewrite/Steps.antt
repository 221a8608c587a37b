-- ===== src/Wasm/Rewrite/Steps.antt =====
-- transform.go: what rewriting one import does to the entries and the count.
use wago_emscripten.Common.{
  ℕ, zero, suc, ◌+◌, Bool, true, false, not, ◌&&◌, ◌≡◌, refl, inl, inr, Option, none, some, List,
  [], ◌∷◌, ◌++◌, length, Bool-cases, ◌==◌, if◌then◌else◌, u32, bytes_eq, >>=-some, subst, ◌∙◌, ◌⊎◌,
  some_inj, ap, sym, arith,
}
use wago_emscripten.Host.{supports_invoke}
use wago_emscripten.Wasm.{RawSection}
use wago_emscripten.Wasm.Types.{function_type}
use wago_emscripten.Wasm.Names.{env_module, memory_name}
use wago_emscripten.Wasm.Rewrite.ShortNames.{IsShort, rename_env-IsShort, rename_wasi-IsShort}
use wago_emscripten.Wasm.Rewrite.{
  ModuleKind, Import, ImportRewrite, has_env, is_typed_name, read_import, append_import,
  note_function, rename_typed, rename_env, rename_wasi, is_memory, add_entry, keep_import,
  rewrite_import, is_invoke, import_type,
}

-- The imports of a section without its count, of which there are `count`.
unfoldable pub read_imports : ℕ → List ℕ → Option (List Import)
unfolding read_import
read_imports zero [] = some []
read_imports zero (b ∷ bs) = none
read_imports (suc count) source = elim (read_import source) [
  | none ↦ none
  | some (i, rest) ↦ elim (read_imports count rest) [ none ↦ none | some is ↦ some (i ∷ is) ]
]

-- The descriptors of the functions in their order: what a function index below their number means.
unfoldable pub functions : List Import → List (List ℕ)
functions [] = []
functions (i ∷ is) = if i.kind == 0 then i.descriptor ∷ functions is else functions is

-- A function counts one.
pub counted : ℕ → ℕ → ℕ
counted kind n = if kind == 0 then u32 (n + 1) else n

note_function-count :
    (i : Import) (r : ImportRewrite) {r' : ImportRewrite}
    → note_function i r ≡ some r'
    → (r'.function_count ≡ counted i.kind r.function_count) × (r'.entries ≡ r.entries)
unfolding note_function counted
note_function-count i r {r'} e = elim (Bool-cases (i.kind == 0)) [
  | inr other ↦
      let same : r ≡ r' = ground arith in
      (ground (arith, ap (λ s. s.function_count) same), sym (ap (λ s. s.entries) same))
  | inl function ↦ elim (Bool-cases (is_invoke i)) [
    | inr plainly ↦ ground arith
    | inl trampoline ↦ elim (Bool-cases (supports_invoke i.name)) [
      | inl known ↦ ground arith
      | inr unknown ↦ absurd (ground arith)
    ]
  ]
]

rename_env-keeps :
    (sections : List RawSection) (kind : ModuleKind) (i : Import) {j : Import}
    → rename_env sections kind i ≡ some j
    → (j.kind ≡ i.kind) × (j.descriptor ≡ i.descriptor)
unfolding rename_env
rename_env-keeps sections kind i {j} e =
    elim (Bool-cases
      (not (has_env kind && bytes_eq i.module_name env_module && is_typed_name i.name))) [
        | inl other ↦
            let same : i ≡ j = ground arith in
            (ap (λ k. k.kind) (sym same), ap (λ k. k.descriptor) (sym same))
        | inr typed ↦
            let (t, found, same) =
              >>=-some (function_type sections (import_type i))
                (λ t. some (record i { name = rename_typed i.name t.params })) {b = j}
                (ground (arith, e)) in
            (ap (λ k. k.kind) (sym (some_inj same)), ap (λ k. k.descriptor) (sym (some_inj same)))
      ]

rename_wasi-keeps :
    (kind : ModuleKind) (i : Import)
    → ((rename_wasi kind i).kind ≡ i.kind) × ((rename_wasi kind i).descriptor ≡ i.descriptor)
unfolding rename_wasi
rename_wasi-keeps kind i = ground arith

-- The imports as they are written, one by one.
unfoldable pub written : List Import → List (List ℕ)
unfolding append_import
written [] = []
written (i ∷ is) = append_import i ∷ written is

-- The last of a chain of tests.
and-last : (a b c d : Bool) → (a && b && c && d) ≡ true → d ≡ true
and-last true true true d e = e
and-last true true false d e = absurd (ground (arith, e))
and-last true false c d e = absurd (ground (arith, e))
and-last false b c d e = absurd (ground (arith, e))

two-other : (n : ℕ) → n == 2 ≡ true → n == 0 ≡ false
two-other n e = ground arith

memory-other : (kind : ModuleKind) (i : Import) → is_memory kind i ≡ true → i.kind == 0 ≡ false
memory-other kind i e = two-other i.kind (
    and-last (has_env kind) (bytes_eq i.module_name env_module) (bytes_eq i.name memory_name)
      (i.kind == 2) e)

-- What a round does to the entries: an import that is no function is taken out, or one with the
-- kind and the descriptor of the import that was read, and names as short, is added.
unfoldable pub Step : Import → List (List ℕ) → List (List ℕ) → Type 0
Step i before after =
    ((i.kind == 0 ≡ false) × (after ≡ before))
    ⊎ ((j : Import) × (j.kind ≡ i.kind)
        × (j.descriptor ≡ i.descriptor)
        × (IsShort i → IsShort j)
        × (after ≡ before ++ append_import j ∷ []))

keep_import-Step :
    (sections : List RawSection) (kind : ModuleKind) (i : Import) (r : ImportRewrite)
    {r' : ImportRewrite}
    → keep_import sections kind i r ≡ some r'
    → (r'.function_count ≡ r.function_count) × Step i r.entries r'.entries
unfolding keep_import add_entry Step
keep_import-Step sections kind i r {r'} e = elim (Bool-cases (is_memory kind i)) [
  | inl memory ↦ elim (Bool-cases (length r.memory == 0)) [
    | inr second ↦ absurd (ground arith)
    | inl first ↦
        let same : record r { memory = i.descriptor } ≡ r' = ground arith in
        (
          ap (λ s. s.function_count) (sym same),
          inl (memory-other kind i memory, ap (λ s. s.entries) (sym same)),
        )
  ]
  | inr other ↦
      let (renamed, y, last) =
        >>=-some (rename_env sections kind i)
          (λ renamed. some (add_entry r (rename_wasi kind renamed))) {b = r'} (ground arith) in
      let same : add_entry r (rename_wasi kind renamed) ≡ r' = some_inj last in
      let (kind_kept, type_kept) = rename_env-keeps sections kind i y in
      let (kind_same, type_same) = rename_wasi-keeps kind renamed in
      (
        ap (λ s. s.function_count) (sym same),
        inr (
          rename_wasi kind renamed,
          kind_same ∙ kind_kept,
          type_same ∙ type_kept,
          (λ short. rename_wasi-IsShort kind renamed (rename_env-IsShort sections kind i short y)),
          ap (λ s. s.entries) (sym same),
        ),
      )
]

pub rewrite_import-Step :
    (sections : List RawSection) (kind : ModuleKind) (i : Import) (r : ImportRewrite)
    {r' : ImportRewrite}
    → rewrite_import sections kind i r ≡ some r'
    → (r'.function_count ≡ counted i.kind r.function_count) × Step i r.entries r'.entries
unfolding rewrite_import
rewrite_import-Step sections kind i r {r'} e =
    let (noted, z, rest) = >>=-some (note_function i r) (keep_import sections kind i) {b = r'} e in
    let (count, entries) = note_function-count i r z in
    let (same, step) = keep_import-Step sections kind i noted rest in
    (same ∙ count, subst (λ es. Step i es r'.entries) entries step)

pub counted-small : (kind n : ℕ) → u32 n ≡ n → u32 (counted kind n) ≡ counted kind n
unfolding counted
counted-small kind n small = elim (Bool-cases (kind == 0)) [
  | inl function ↦ rw function (omega arith)
  | inr other ↦ rw other small
]

pub counted-functions :
    (i : Import) (is : List Import) (n : ℕ)
    → u32 (counted i.kind n + length (functions is)) ≡ u32 (n + length (functions (i ∷ is)))
unfolding counted functions
counted-functions i is n = elim (Bool-cases (i.kind == 0)) [
  | inl function ↦ rw function (omega arith)
  | inr other ↦ rw other refl
]

pub functions-other :
    (i : Import) (is : List Import) → i.kind == 0 ≡ false → functions (i ∷ is) ≡ functions is
unfolding functions
functions-other i is other = rw other refl

pub functions-same :
    (i j : Import) (is js : List Import)
    → j.kind ≡ i.kind
    → j.descriptor ≡ i.descriptor
    → functions js ≡ functions is
    → functions (j ∷ js) ≡ functions (i ∷ is)
unfolding functions
functions-same i j is js kinds types rest = rw (kinds, types, rest) refl
