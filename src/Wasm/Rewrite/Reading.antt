-- ===== src/Wasm/Rewrite/Reading.antt =====
-- transform.go: an import that is written with the kind and descriptor of one that was read is read
-- again.
use wago_emscripten.Common.{
  ℕ, ◌+◌, ◌-◌, ◌^◌, ◌≤◌, ◌<◌, ◌≡◌, refl, sym, ap, ◌∙◌, inl, inr, Option, some, List, [], ◌∷◌, ◌++◌,
  append_assoc, length, take, drop, get_elem?, take-append, drop-append, length-append, length-drop,
  length-take, get_elem?-lt, drop-drop, Option-cases, some_inj, u32, arith,
}
use wago_emscripten.Wasm.{read_name, u32_bytes, append_u32, append_name}
use wago_emscripten.Wasm.Sections.{read_name-append_name}
use wago_emscripten.Wasm.Imports.{import_descriptor_end, import_descriptor_end-bounds}
use wago_emscripten.Wasm.Imports.Agreed.{Agreed, import_descriptor_end-Agreed}
use wago_emscripten.Wasm.Rewrite.{Import, read_import_item, read_import, append_import}

get_elem?-behind : (xs ys : List ℕ) (x : ℕ) → get_elem? (xs ++ x ∷ ys) (length xs) ≡ some x
get_elem?-behind [] ys x = refl
get_elem?-behind (y ∷ xs) ys x = get_elem?-behind xs ys x

-- What stands behind a prefix and one byte more.
module _ (prefix : List ℕ) (kind : ℕ) (descriptor more : List ℕ) where
  at_kind : (prefix ++ kind ∷ descriptor) ++ more ≡ prefix ++ kind ∷ (descriptor ++ more)
  at_kind = append_assoc prefix (kind ∷ descriptor) more

  drop-kind : drop (length prefix + 1) ((prefix ++ kind ∷ descriptor) ++ more) ≡ descriptor ++ more
  drop-kind =
      let cut : (prefix ++ kind ∷ descriptor) ++ more
          ≡ (prefix ++ kind ∷ []) ++ (descriptor ++ more) =
        at_kind ∙ sym (append_assoc prefix (kind ∷ []) (descriptor ++ more)) in
      let long : length (prefix ++ kind ∷ []) ≡ length prefix + 1 =
        length-append prefix (kind ∷ []) in
      ap (λ n. drop n ((prefix ++ kind ∷ descriptor) ++ more)) (sym long)
      ∙ ap (drop (length (prefix ++ kind ∷ []))) cut
      ∙ drop-append (prefix ++ kind ∷ []) (descriptor ++ more)

  read_import_item-at :
      (module_name name : List ℕ)
      → import_descriptor_end ((prefix ++ kind ∷ descriptor) ++ more) (length prefix + 1) kind
        ≡ some (length prefix + 1 + length descriptor)
      → read_import_item ((prefix ++ kind ∷ descriptor) ++ more) module_name name (length prefix)
        ≡ some (
          record { module_name = module_name; name = name; kind = kind; descriptor = descriptor },
          more,
        )
  unfolding read_import_item
  read_import_item-at module_name name ends =
      let source : List ℕ = (prefix ++ kind ∷ descriptor) ++ more in
      let next : ℕ = length prefix + 1 in
      let there : get_elem? source (length prefix) ≡ some kind =
        ap (λ s. get_elem? s (length prefix)) at_kind
        ∙ get_elem?-behind prefix (descriptor ++ more) kind in
      let size : next + length descriptor - next ≡ length descriptor = omega arith in
      let first : take (next + length descriptor - next) (drop next source) ≡ descriptor =
        rw (size, drop-kind) (take-append descriptor more) in
      let last : drop (next + length descriptor) source ≡ more =
        sym (drop-drop (length descriptor) next source)
        ∙ ap (drop (length descriptor)) drop-kind
        ∙ drop-append descriptor more in
      ground (arith, there, ends, first, last)

append_name-behind :
    (out name more : List ℕ) → append_name out name ++ more ≡ out ++ (append_name [] name ++ more)
unfolding append_name append_u32
append_name-behind out name more =
    let size : List ℕ = u32_bytes 5 (u32 (length name)) in
    append_assoc (out ++ size) name more
    ∙ append_assoc out size (name ++ more)
    ∙ ap (λ l. out ++ l) (sym (append_assoc size name more))

both_names : Import → List ℕ
both_names j = append_name (append_name [] j.module_name) j.name

append_import-parts :
    (j : Import) (more : List ℕ)
    → append_import j ++ more ≡ (both_names j ++ j.kind ∷ j.descriptor) ++ more
unfolding append_import both_names
append_import-parts j more =
    ap (λ l. l ++ more) (append_assoc (both_names j) (j.kind ∷ []) j.descriptor)

-- The names behind the head of an entry.
names-append_import :
    (j : Import) (more : List ℕ)
    → length j.module_name < 2 ^ 32
    → length j.name < 2 ^ 32
    → (read_name (append_import j ++ more) 0
        ≡ some (j.module_name, length (append_name [] j.module_name)))
      × (read_name (append_import j ++ more) (length (append_name [] j.module_name))
          ≡ some (j.name, length (append_name (append_name [] j.module_name) j.name)))
unfolding both_names
names-append_import j more hm hn =
    let module_part : List ℕ = append_name [] j.module_name in
    let names : List ℕ = append_name module_part j.name in
    let behind : List ℕ = j.kind ∷ j.descriptor in
    let cut : append_import j ++ more ≡ names ++ (behind ++ more) =
      append_import-parts j more ∙ append_assoc names behind more in
    let first : append_import j ++ more
        ≡ module_part ++ (append_name [] j.name ++ (behind ++ more)) =
      cut ∙ append_name-behind module_part j.name (behind ++ more) in
    (
      ap (λ s. read_name s 0) first
          ∙ read_name-append_name [] j.module_name (append_name [] j.name ++ (behind ++ more)) hm,
      ap (λ s. read_name s (length module_part)) cut
          ∙ read_name-append_name module_part j.name (behind ++ more) hn,
    )

-- What reading says of the entry that it reads.
record IsEntry (source : List ℕ) (i : Import) (rest : List ℕ) : Type 0 where
  start : ℕ
  inside : start ≤ length source
  size : ℕ
  ends : import_descriptor_end source start i.kind ≡ some (start + size)
  within : start + size ≤ length source
  bytes_are : i.descriptor ≡ take size (drop start source)

read_import_item-IsEntry :
    (source module_name name : List ℕ) (next : ℕ) {i : Import} {rest : List ℕ}
    → read_import_item source module_name name next ≡ some (i, rest)
    → IsEntry source i rest
unfolding read_import_item
read_import_item-IsEntry source module_name name next {i} {rest} e =
    elim (Option-cases (get_elem? source next)) [
      | inl z ↦ absurd (ground arith)
      | inr (kind, z) ↦ elim (Option-cases (import_descriptor_end source (next + 1) kind)) [
        | inl y ↦ absurd (ground arith)
        | inr (end, y) ↦
            let made : Import = record {
              module_name = module_name;
              name = name;
              kind = kind;
              descriptor = take (end - (next + 1)) (drop (next + 1) source);
            } in
            let all : ◌≡◌ {A = Option (Import × List ℕ)} (some (made, drop end source))
                (some (i, rest)) =
              ground arith in
            let same : made ≡ i = ap (λ p. p.0) (some_inj all) in
            let begun = get_elem?-lt source next z in
            let (on, within) =
              import_descriptor_end-bounds source (next + 1) kind {end = end} (omega (arith, begun))
                y in
            let at_end : end ≡ next + 1 + (end - (next + 1)) = omega (arith, on) in
            record {
              start = next + 1;
              inside = omega (arith, begun);
              size = end - (next + 1);
              ends =
                  ap (λ m. import_descriptor_end source (next + 1) m.kind) (sym same)
                  ∙ y
                  ∙ ap some at_end;
              within = omega (arith, on, within);
              bytes_are = ap (λ m. m.descriptor) (sym same);
            }
      ]
    ]

read_import-IsEntry :
    (source : List ℕ) {i : Import} {rest : List ℕ}
    → read_import source ≡ some (i, rest)
    → IsEntry source i rest
unfolding read_import
read_import-IsEntry source {i} {rest} e = elim (Option-cases (read_name source 0)) [
  | inl z ↦ absurd (ground arith)
  | inr ((module_name, module_end), z) ↦ elim (Option-cases (read_name source module_end)) [
    | inl y ↦ absurd (ground arith)
    | inr ((name, name_end), y) ↦
        read_import_item-IsEntry source module_name name name_end (ground arith)
  ]
]

read_import-names :
    (source module_name name : List ℕ) (module_end name_end : ℕ)
    → read_name source 0 ≡ some (module_name, module_end)
    → read_name source module_end ≡ some (name, name_end)
    → read_import source ≡ read_import_item source module_name name name_end
unfolding read_import
read_import-names source module_name name module_end name_end first second =
    ground (arith, first, second)

-- An entry with any names, and the kind and the descriptor of one that was read, is read.
pub read_import-append_import :
    (source : List ℕ) (i j : Import) (more : List ℕ) {rest : List ℕ}
    → read_import source ≡ some (i, rest)
    → j.kind ≡ i.kind
    → j.descriptor ≡ i.descriptor
    → length j.module_name < 2 ^ 32
    → length j.name < 2 ^ 32
    → read_import (append_import j ++ more) ≡ some (j, more)
unfolding both_names Agreed
read_import-append_import source i j more {rest} e kinds types hm hn =
    let w : IsEntry source i rest = read_import-IsEntry source e in
    let (first, second) = names-append_import j more hm hn in
    let names : List ℕ = both_names j in
    let written : List ℕ = (names ++ j.kind ∷ j.descriptor) ++ more in
    let next : ℕ = length names + 1 in
    let bytes : j.descriptor ≡ take w.size (drop w.start source) = types ∙ w.bytes_are in
    let long : length j.descriptor ≡ w.size =
      ap length bytes
      ∙ length-take w.size (drop w.start source)
      ∙ ground (arith, length-drop w.start source, w.within) in
    let agreed : Agreed source written w.size w.start next =
      sym bytes
      ∙ sym (take-append j.descriptor more)
      ∙ ap (λ n. take n (j.descriptor ++ more)) long
      ∙ ap (take w.size) (sym (drop-kind names j.kind j.descriptor more)) in
    let there =
      import_descriptor_end-Agreed source written i.kind w.size w.start next {ea = w.start + w.size}
        agreed w.inside w.ends (omega arith) in
    let offset : next + (w.start + w.size - w.start) ≡ next + length j.descriptor =
      omega (arith, long) in
    let ends : import_descriptor_end written next j.kind ≡ some (next + length j.descriptor) =
      ap (import_descriptor_end written next) kinds ∙ there ∙ ap some offset in
    let item = read_import_item-at names j.kind j.descriptor more j.module_name j.name ends in
    let parts = append_import-parts j more in
    read_import-names (append_import j ++ more) j.module_name j.name
      (length (append_name [] j.module_name)) (length names) first second
    ∙ ap (λ s. read_import_item s j.module_name j.name (length names)) parts
    ∙ item
