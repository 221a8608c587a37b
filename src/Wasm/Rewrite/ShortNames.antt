-- ===== src/Wasm/Rewrite/ShortNames.antt =====
-- transform.go: the names of an import are shorter than 2^32 bytes, also where they are renamed.
use wago_emscripten.Common.{
  ℕ, ◌+◌, ◌^◌, ◌≤◌, ◌<◌, Bool, true, false, not, ◌&&◌, ◌||◌, ◌≡◌, refl, sym, ap, subst, inl, inr,
  some, List, [], ◌∷◌, ◌++◌, length, take, drop, get_elem?, length-take, length-append, ltb, ◌==◌,
  if◌then◌else◌, bytes_eq, bytes_eq→eq, Bool-cases, Option-cases, some_inj, >>=-some, arith,
}
use wago_emscripten.Host.{is_listed}
use wago_emscripten.Wasm.{RawSection, read_u32, read_name}
use wago_emscripten.Wasm.Numbers.{read_u32-bounds}
use wago_emscripten.Wasm.Imports.{import_descriptor_end}
use wago_emscripten.Wasm.Types.{function_type}
use wago_emscripten.Wasm.Names.{
  env_module, wasi_unstable, wasi_preview1, wasi_names, localtime_js, gmtime_js, tzset_js,
  munmap_import, mmap_import, wago_prefix, i64_suffix, wago_wasi_prefix, wago_localtime_js_i64,
  wago_gmtime_js_i64, wago_tzset_js_4,
}
use wago_emscripten.Wasm.Rewrite.{
  ModuleKind, Import, has_env, is_plain, is_typed_name, import_type, rename_typed, rename_env,
  rename_wasi, read_import_item, read_import, has_i64, has_i64_first,
}

abbrev pub IsShort : Import → Type 0
IsShort i = (length i.module_name < 2 ^ 32) × (length i.name < 2 ^ 32)

read_name-short :
    (source : List ℕ) (offset : ℕ) {name : List ℕ} {end : ℕ}
    → read_name source offset ≡ some (name, end)
    → length name < 2 ^ 32
unfolding read_name
read_name-short source offset {name} {end} e = elim (Bool-cases (ltb (length source) offset)) [
  | inl behind ↦ absurd (ground arith)
  | inr there ↦ elim (Option-cases (read_u32 (drop offset source))) [
    | inl z ↦ absurd (ground arith)
    | inr ((size, n), z) ↦ elim (Bool-cases (ltb (length source) (offset + n + size))) [
      | inl short ↦ absurd (ground arith)
      | inr fits ↦
          let (small, some_bytes, inside, few) = read_u32-bounds (drop offset source) z in
          let name_is : take size (drop (offset + n) source) ≡ name = ground arith in
          let long = ap length name_is in
          ground (arith, small, long, length-take size (drop (offset + n) source))
    ]
  ]
]

read_import_item-names :
    (source module_name name : List ℕ) (next : ℕ) {i : Import} {rest : List ℕ}
    → read_import_item source module_name name next ≡ some (i, rest)
    → (i.module_name ≡ module_name) × (i.name ≡ name)
unfolding read_import_item
read_import_item-names source module_name name next {i} {rest} e =
    elim (Option-cases (get_elem? source next)) [
      | inl z ↦ absurd (ground arith)
      | inr (kind, z) ↦ elim (Option-cases (import_descriptor_end source (next + 1) kind)) [
        | inl y ↦ absurd (ground arith)
        | inr (end, y) ↦ ground arith
      ]
    ]

pub read_import-IsShort :
    (source : List ℕ) {i : Import} {rest : List ℕ} → read_import source ≡ some (i, rest) → IsShort i
unfolding read_import
read_import-IsShort source {i} {rest} e = elim (Option-cases (read_name source 0)) [
  | inl z ↦ absurd (ground arith)
  | inr ((module_name, module_end), z) ↦ elim (Option-cases (read_name source module_end)) [
    | inl y ↦ absurd (ground arith)
    | inr ((name, name_end), y) ↦
        let (a, b) =
          read_import_item-names source module_name name name_end {i = i} {rest = rest}
            (ground arith) in
        (
          subst (λ l. length l < 2 ^ 32) (sym a) (read_name-short source 0 z),
          subst (λ l. length l < 2 ^ 32) (sym b) (read_name-short source module_end y),
        )
  ]
]

-- A listed name is no longer than all the names of the list together.
all_lengths : List (List ℕ) → ℕ
all_lengths [] = 0
all_lengths (t ∷ ts) = length t + all_lengths ts

is_listed-length :
    (s : List ℕ) (ts : List (List ℕ)) → is_listed s ts ≡ true → length s ≤ all_lengths ts
unfolding is_listed all_lengths
is_listed-length s [] h = absurd (ground (arith, h))
is_listed-length s (t ∷ ts) h = elim (Bool-cases (bytes_eq t s)) [
  | inl here ↦ let same = ap length (bytes_eq→eq t s here) in omega (arith, same)
  | inr other ↦ let later = is_listed-length s ts (ground (arith, h, other)) in omega (arith, later)
]

bytes_eq-length :
    (name other : List ℕ) → bytes_eq name other ≡ true → length other ≤ 60 → length name ≤ 60
bytes_eq-length name other h few =
    let same = ap length (bytes_eq→eq name other h) in omega (arith, same, few)

one_of : {A : Type 0} (b c : Bool) → (b ≡ true → A) → (c ≡ true → A) → (b || c) ≡ true → A
one_of true c f g h = f refl
one_of false c f g h = g h

is_typed_name-length : (name : List ℕ) → is_typed_name name ≡ true → length name ≤ 60
is_typed_name-length name =
    one_of _ _
      (one_of _ _
        (one_of _ _
          (one_of _ _ (λ h. bytes_eq-length name localtime_js h (omega arith))
            (λ h. bytes_eq-length name gmtime_js h (omega arith)))
          (λ h. bytes_eq-length name tzset_js h (omega arith)))
        (λ h. bytes_eq-length name munmap_import h (omega arith)))
      (λ h. bytes_eq-length name mmap_import h (omega arith))

if-length :
    (b : Bool) (xs ys : List ℕ) (n : ℕ)
    → length xs ≤ n
    → length ys ≤ n
    → length (if b then xs else ys) ≤ n
if-length true xs ys n h k = h
if-length false xs ys n h k = k

if-within :
    (b : Bool) (xs ys : List ℕ)
    → length xs < 2 ^ 32
    → length ys < 2 ^ 32
    → length (if b then xs else ys) < 2 ^ 32
if-within true xs ys h k = h
if-within false xs ys h k = k

rename_typed-length : (name params : List ℕ) → length (rename_typed name params) ≤ length name + 30
unfolding rename_typed
rename_typed-length name params =
    let n : ℕ = length name + 30 in
    let same : length name ≤ n = omega arith in
    let longer : length (wago_prefix ++ name ++ i64_suffix) ≤ n =
      ground
        (arith, length-append (wago_prefix ++ name) i64_suffix, length-append wago_prefix name) in
    let local : length (if has_i64_first params then wago_localtime_js_i64 else name) ≤ n =
      if-length (has_i64_first params) wago_localtime_js_i64 name n (omega arith) same in
    let greenwich : length (if has_i64_first params then wago_gmtime_js_i64 else name) ≤ n =
      if-length (has_i64_first params) wago_gmtime_js_i64 name n (omega arith) same in
    let zone : length (if length params == 4 then wago_tzset_js_4 else name) ≤ n =
      if-length (length params == 4) wago_tzset_js_4 name n (omega arith) same in
    let other : length (if has_i64 params then wago_prefix ++ name ++ i64_suffix else name) ≤ n =
      if-length (has_i64 params) (wago_prefix ++ name ++ i64_suffix) name n longer same in
    let for_zone : List ℕ =
      if bytes_eq name tzset_js
      then if length params == 4 then wago_tzset_js_4 else name
      else if has_i64 params
      then wago_prefix ++ name ++ i64_suffix
      else name in
    let for_greenwich : List ℕ =
      if bytes_eq name gmtime_js
      then if has_i64_first params then wago_gmtime_js_i64 else name
      else for_zone in
    if-length (bytes_eq name localtime_js) _ for_greenwich n local (
      if-length (bytes_eq name gmtime_js) _ for_zone n greenwich
        (if-length (bytes_eq name tzset_js) _ _ n zone other))

pub rename_env-IsShort :
    (sections : List RawSection) (kind : ModuleKind) (i : Import) {j : Import}
    → IsShort i
    → rename_env sections kind i ≡ some j
    → IsShort j
unfolding rename_env
rename_env-IsShort sections kind i {j} (module_short, name_short) e =
    elim (Bool-cases
      (not (has_env kind && bytes_eq i.module_name env_module && is_typed_name i.name))) [
        | inl other ↦
            let same : i ≡ j = ground arith in subst IsShort same (module_short, name_short)
        | inr typed ↦
            let (t, found, same) =
              >>=-some (function_type sections (import_type i))
                (λ t. some (record i { name = rename_typed i.name t.params })) {b = j}
                (ground (arith, e)) in
            let renamed : record i { name = rename_typed i.name t.params } ≡ j = some_inj same in
            let short = is_typed_name-length i.name (ground (arith, typed)) in
            let long = rename_typed-length i.name t.params in
            subst IsShort renamed (module_short, omega (arith, short, long))
      ]

pub rename_wasi-IsShort :
    (kind : ModuleKind) (i : Import) → IsShort i → IsShort (rename_wasi kind i)
unfolding rename_wasi all_lengths
rename_wasi-IsShort kind i (module_short, name_short) =
    let module_name : List ℕ =
      if bytes_eq i.module_name wasi_unstable then wasi_preview1 else i.module_name in
    let kept : length module_name < 2 ^ 32 =
      if-within (bytes_eq i.module_name wasi_unstable) wasi_preview1 i.module_name (omega arith)
        module_short in
    elim (Bool-cases (
      not (is_plain kind)
      && has_env kind
      && bytes_eq module_name wasi_preview1
      && is_listed i.name wasi_names)) [
        | inl moved ↦
            let listed = is_listed-length i.name wasi_names (ground (arith, moved)) in
            let is : record i { module_name = env_module; name = wago_wasi_prefix ++ i.name }
                ≡ rename_wasi kind i =
              rw moved refl in
            let few : all_lengths wasi_names ≤ 400 = ground arith in
            subst IsShort is
              (omega arith, ground (arith, listed, few, length-append wago_wasi_prefix i.name))
        | inr other ↦
            let is : record i { module_name = module_name } ≡ rename_wasi kind i = rw other refl in
            subst IsShort is (kept, name_short)
      ]
