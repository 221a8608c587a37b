-- ===== src/Wasm/Exports/Added.antt =====
-- transform.go: what the exports of a module are after an entry has been added behind them.
use wago_emscripten.Common.{
  ℕ, zero, suc, ◌+◌, ◌*◌, ◌%◌, ◌^◌, ◌≤◌, ◌<◌, false, ◌≡◌, refl, sym, ap, subst, ◌∙◌, inl, inr, some,
  List, [], ◌∷◌, ◌++◌, append_assoc, append-nil, length, take, drop, length-append, length-drop,
  drop-length, drop-append, drop_within, take_within, ltb, ◌==◌, some_inj, bit_and, Bool-cases,
  Option-cases, bytes_key, arith,
}
use wago_emscripten.Wasm.{
  Leb, read_bytes, RawSection, read_u32, read_name, append_u32, append_name, find_section,
  append_vector_item,
}
use wago_emscripten.Wasm.Numbers.{read_u32-bounds, read_u32-append_u32}
use wago_emscripten.Wasm.Sections.{read_name-append_name, append_vector_item_lem}
use wago_emscripten.Wasm.Wrappers.{export_entry}
use wago_emscripten.Wasm.Exports.{
  Export, Exports, read_export_item, read_export, add_export, exports_loop, no_exports,
  exported_functions,
}

-- A reading that succeeds takes no notice of what follows it.
read_bytes-within :
    (k : Leb) (i value shift : ℕ) (bs more : List ℕ) {r : ℕ × ℕ}
    → read_bytes k i value shift bs ≡ some r
    → read_bytes k i value shift (bs ++ more) ≡ some r
unfolding read_bytes
read_bytes-within k i value shift [] more e = absurd (ground arith)
read_bytes-within k i value shift (b ∷ bs) more {r} e =
    let value' : ℕ = (value + bit_and b 0x7f * 2 ^ shift) % k.modulus in
    elim (Bool-cases (bit_and b 0x80 == 0)) [
      | inl last ↦ ground arith
      | inr on ↦
          let step : read_bytes k (suc i) value' (shift + 7) bs ≡ some r = ground arith in
          let later = read_bytes-within k (suc i) value' (shift + 7) bs more step in ground arith
    ]

pub read_u32-within :
    (bs more : List ℕ) {r : ℕ × ℕ} → read_u32 bs ≡ some r → read_u32 (bs ++ more) ≡ some r
unfolding read_u32
read_u32-within bs more e = read_bytes-within _ 0 0 0 bs more e

pub read_name-within :
    (bs more : List ℕ) {name : List ℕ} {next : ℕ}
    → read_name bs 0 ≡ some (name, next)
    → (read_name (bs ++ more) 0 ≡ some (name, next)) × (next ≤ length bs)
unfolding read_name
read_name-within bs more {name} {next} e = elim (Option-cases (read_u32 bs)) [
  | inl z ↦ absurd (ground arith)
  | inr ((size, n), z) ↦ elim (Bool-cases (ltb (length bs) (0 + n + size))) [
    | inl short ↦ absurd (ground arith)
    | inr fits ↦
        let (small, some_bytes, there, few) = read_u32-bounds bs z in
        let at_name : drop (0 + n) (bs ++ more) ≡ drop (0 + n) bs ++ more =
          drop_within (0 + n) bs more (omega arith) in
        let whole : take size (drop (0 + n) bs ++ more) ≡ take size (drop (0 + n) bs) =
          take_within size (drop (0 + n) bs) more (ground (arith, length-drop (0 + n) bs)) in
        let begun : ltb (length (bs ++ more)) 0 ≡ false = ground arith in
        let longer : ltb (length (bs ++ more)) (0 + n + size) ≡ false =
          ground (arith, length-append bs more) in
        (
          rw begun (
              rw (read_u32-within bs more z, read_name)
                (rw longer (rw at_name (rw whole (ground arith))))),
          ground arith,
        )
  ]
]

read_export_item-within :
    (name source more : List ℕ) {e : Export} {rest : List ℕ}
    → read_export_item name source ≡ some (e, rest)
    → read_export_item name (source ++ more) ≡ some (e, rest ++ more)
unfolding read_export_item
read_export_item-within name [] more h = absurd (ground arith)
read_export_item-within name (kind ∷ source) more {e} {rest} h =
    elim (Option-cases (read_u32 source)) [
      | inl z ↦ absurd (ground arith)
      | inr ((index, size), z) ↦
          let (small, some_bytes, there, few) = read_u32-bounds source z in
          let is : record { name = name; kind = kind; index = index } ≡ e = ground arith in
          let left : drop size source ≡ rest = ground arith in
          rw (read_u32-within source more z, read_export_item)
            (rw (drop_within size source more there) (rw is (rw left refl)))
    ]

read_export-within :
    (bs more : List ℕ) {e : Export} {rest : List ℕ}
    → read_export bs ≡ some (e, rest)
    → read_export (bs ++ more) ≡ some (e, rest ++ more)
unfolding read_export
read_export-within bs more {e} {rest} h = elim (Option-cases (read_name bs 0)) [
  | inl z ↦ absurd (ground arith)
  | inr ((name, next), z) ↦
      let (same, there) = read_name-within bs more z in
      rw (same, read_export)
        (rw (drop_within next bs more there)
          (read_export_item-within name (drop next bs) more (ground arith)))
]

exports_loop-round :
    (fuel : ℕ) (source : List ℕ) (found : Exports) {e : Export} {rest : List ℕ}
    → read_export source ≡ some (e, rest)
    → exports_loop (suc (suc fuel)) source found ≡ exports_loop (suc fuel) rest (add_export e found)
unfolding exports_loop
exports_loop-round fuel source found h = rw (h, exports_loop) refl

exports_loop-within :
    (fuel : ℕ) (bs more : List ℕ) (found : Exports) {r : Exports}
    → exports_loop fuel bs found ≡ some r
    → exports_loop (suc fuel) (bs ++ more) found ≡ exports_loop 1 more r
unfolding exports_loop
exports_loop-within zero [] more found e = ap (exports_loop 1 more) (some_inj e)
exports_loop-within zero (b ∷ bs) more found e = absurd (ground arith)
exports_loop-within (suc fuel) bs more found {r} e = elim (Option-cases (read_export bs)) [
  | inl z ↦ absurd (ground arith)
  | inr ((x, rest), z) ↦
      let deeper : exports_loop fuel rest (add_export x found) ≡ some r = ground arith in
      exports_loop-round fuel (bs ++ more) found (read_export-within bs more z)
      ∙ exports_loop-within fuel rest more (add_export x found) deeper
]

exports_loop-last :
    (source : List ℕ) (found : Exports) {e : Export}
    → read_export source ≡ some (e, [])
    → exports_loop 1 source found ≡ some (add_export e found)
unfolding exports_loop
exports_loop-last source found h = rw (h, exports_loop) refl

read_export_item-all :
    (name : List ℕ) (kind : ℕ) (source : List ℕ) {index : ℕ}
    → read_u32 source ≡ some (index, length source)
    → read_export_item name (kind ∷ source)
      ≡ some (record { name = name; kind = kind; index = index }, [])
unfolding read_export_item
read_export_item-all name kind source e = rw (e, read_export_item) (rw (drop-length source) refl)

exported_functions-at :
    (sections : List RawSection) (s : RawSection) {count n : ℕ}
    → find_section 7 sections ≡ some s
    → read_u32 s.payload ≡ some (count, n)
    → exported_functions sections ≡ exports_loop count (drop n s.payload) no_exports
unfolding exported_functions
exported_functions-at sections s e r = rw (e, exported_functions) (rw (r, exported_functions) refl)

-- The entry that the wrappers write, read back.
pub read_export-export_entry :
    (name : List ℕ) (index : ℕ)
    → length name < 2 ^ 32
    → index < 2 ^ 32
    → read_export (export_entry name index)
      ≡ some (record { name = name; kind = 0; index = index }, [])
unfolding read_export export_entry append_u32
read_export-export_entry name index small fits =
    let number : List ℕ = append_u32 [] index in
    let flat : append_name [] name ++ 0 ∷ [] ++ number ≡ append_name [] name ++ (0 ∷ number) =
      append_assoc (append_name [] name) (0 ∷ []) number in
    let back : read_u32 number ≡ some (index, length number) =
      subst (λ t. read_u32 t ≡ some (index, length number)) (append-nil number)
        (read_u32-append_u32 index [] fits) in
    rw flat (
      rw (read_name-append_name [] name (0 ∷ number) small, read_export)
        (rw (drop-append (append_name [] name) (0 ∷ number))
          (read_export_item-all name 0 number back)))

-- An entry that is added to the export section is one export more, where the count has room for it.
pub exported_functions-append :
    (sections after : List RawSection) (s : RawSection) (count n c : ℕ) (entry : List ℕ)
    (e : Export) (found : Exports)
    → find_section 7 sections ≡ some s
    → read_u32 s.payload ≡ some (count, n)
    → count + 1 < 2 ^ 32
    → exported_functions sections ≡ some found
    → read_export entry ≡ some (e, [])
    → append_vector_item sections 7 entry ≡ some (after, c)
    → exported_functions after ≡ some (add_export e found)
exported_functions-append sections after s count n c entry e found at_7 counted room exports reads
      added =
    let (after', t, m, made, there, id, recounted, items) =
      append_vector_item_lem sections 7 entry s count n at_7 counted room in
    let same : after' ≡ after = ap (λ p. p.0) (some_inj (sym made ∙ added)) in
    let old : exports_loop count (drop n s.payload) no_exports ≡ some found =
      sym (exported_functions-at sections s at_7 counted) ∙ exports in
    let new : exports_loop (suc count) (drop n s.payload ++ entry) no_exports
        ≡ some (add_export e found) =
      exports_loop-within count (drop n s.payload) entry no_exports old
      ∙ exports_loop-last entry found reads in
    let one_more : count + 1 ≡ suc count = omega arith in
    subst (λ ss. exported_functions ss ≡ some (add_export e found)) same
      (exported_functions-at after' t there recounted
        ∙ ap (λ xs. exports_loop (count + 1) xs no_exports) items
        ∙ ap (λ k. exports_loop k (drop n s.payload ++ entry) no_exports) one_more
        ∙ new)
