-- ===== src/Wasm/Wrappers/Added.antt =====
-- transform.go: what a module exports after a wrapper has been added to it.
use wago_emscripten.Common.{
  ℕ, ◌+◌, ◌^◌, ◌<◌, true, false, ◌≡◌, refl, sym, ap, subst, ◌∙◌, inl, inr, some, List, [], ◌∷◌,
  ◌++◌, length, drop, ◌==◌, u32, Option-cases, >>=-some, guard, some_inj, arith,
}
use native.Mathlib.Nat.{mod-lt}
use wago_emscripten.Wasm.{
  RawSection, read_u32, append_u32, find_section, replace_payload, append_vector_item,
}
use wago_emscripten.Wasm.Types.{
  FunctionType, function_type, find_function_type, find_function_type-function_type,
}
use wago_emscripten.Wasm.Exports.{Exports, add_export, exported_functions}
use wago_emscripten.Wasm.Exports.Added.{read_export-export_entry, exported_functions-append}
use wago_emscripten.Wasm.Names.{wago_prefix}
use wago_emscripten.Wasm.Wrappers.{
  export_entry, code_item, declare_function, add_code, add_function, invoke_body, starts_with_i32,
  add_invoke_wrapper,
}

find_section-others :
    (id j : ℕ) (payload : List ℕ) (ss : List RawSection)
    → (id == j) ≡ false
    → find_section j (replace_payload id payload ss) ≡ find_section j ss
unfolding find_section replace_payload
find_section-others id j payload [] away = refl
find_section-others id j payload (s ∷ ss) away =
    ground (arith, find_section-others id j payload ss away)

-- An item that is added to one section leaves the others as they were.
pub append_vector_item-others :
    (sections after : List RawSection) (id j c : ℕ) (item : List ℕ)
    → (id == j) ≡ false
    → append_vector_item sections id item ≡ some (after, c)
    → find_section j after ≡ find_section j sections
unfolding append_vector_item
append_vector_item-others sections after id j c item away e =
    elim (Option-cases (find_section id sections)) [
      | inl z ↦ absurd (ground arith)
      | inr (s, z) ↦ elim (Option-cases (read_u32 s.payload)) [
        | inl y ↦ absurd (ground arith)
        | inr ((count, n), y) ↦
            let payload : List ℕ = append_u32 [] (u32 (count + 1)) ++ drop n s.payload ++ item in
            let same : replace_payload id payload sections ≡ after = ground arith in
            subst (λ ss. find_section j ss ≡ find_section j sections) same
              (find_section-others id j payload sections away)
      ]
    ]

-- The exports depend on the export section only.
pub exported_functions-others :
    (a b : List RawSection)
    → find_section 7 a ≡ find_section 7 b
    → exported_functions a ≡ exported_functions b
unfolding exported_functions
exported_functions-others a b same = rw (same, exported_functions) refl

module _ (sections after : List RawSection) (imported type_index : ℕ) (name body : List ℕ) where
  -- Success of the three steps of a new function.
  pub add_function-steps :
      add_function sections imported type_index name body ≡ some after
      → (defined : List RawSection) × (exported : List RawSection) × (k : ℕ) × (c : ℕ) × (c' : ℕ)
        × (append_vector_item sections 3 (append_u32 [] type_index) ≡ some (defined, k))
        × (append_vector_item defined 7 (export_entry name (u32 (imported + k)))
            ≡ some (exported, c))
        × (append_vector_item exported 10 (code_item body) ≡ some (after, c'))
  unfolding add_function declare_function add_code
  add_function-steps e =
      let (declared, d, rest) =
        >>=-some (declare_function sections imported type_index name) (λ s. add_code s body) e in
      let (defined, d3, d7) =
        >>=-some (append_vector_item sections 3 (append_u32 [] type_index)) _ d in
      let (exported, e7, same) =
        >>=-some (append_vector_item defined.0 7 (export_entry name (u32 (imported + defined.1)))) _
          d7 in
      let (coded, c10, end) = >>=-some (append_vector_item declared 10 (code_item body)) _ rest in
      let code : append_vector_item exported.0 10 (code_item body) ≡ some coded =
        subst (λ ss. append_vector_item ss 10 (code_item body) ≡ some coded) (sym (some_inj same))
          c10 in
      (
        defined.0,
        exported.0,
        defined.1,
        exported.1,
        coded.1,
        d3,
        e7,
        code ∙ ap (λ ss. some (ss, coded.1)) (some_inj end),
      )

  -- A function that is added is exported under its name, by the next index; the other exports are as
  -- they were.
  pub add_function-exports :
      (s : RawSection) (count n : ℕ) (found : Exports)
      → find_section 7 sections ≡ some s
      → read_u32 s.payload ≡ some (count, n)
      → count + 1 < 2 ^ 32
      → exported_functions sections ≡ some found
      → length name < 2 ^ 32
      → add_function sections imported type_index name body ≡ some after
      → (k : ℕ) × (defined : List RawSection) × (append_vector_item sections 3
            (append_u32 [] type_index)
          ≡ some (defined, k))
        × (exported_functions after
            ≡ some
                (add_export (record { name = name; kind = 0; index = u32 (imported + k) }) found))
  add_function-exports s count n found at_7 counted room exports small e =
      let (defined, exported, k, c, c', d3, e7, c10) = add_function-steps e in
      let kept : find_section 7 defined ≡ find_section 7 sections =
        append_vector_item-others sections defined 3 7 k (append_u32 [] type_index) refl d3 in
      let after_7 =
        exported_functions-append defined exported s count n c
          (export_entry name (u32 (imported + k)))
          (record { name = name; kind = 0; index = u32 (imported + k) }) found (kept ∙ at_7) counted
          room (exported_functions-others defined sections kept ∙ exports)
          (read_export-export_entry name (u32 (imported + k)) small (mod-lt _ (omega arith))) e7 in
      (
        k,
        defined,
        d3,
        exported_functions-others after exported
              (append_vector_item-others exported after 10 7 c' (code_item body) refl c10)
            ∙ after_7,
      )

-- The wrapper of a trampoline, in a module whose exports can be read and have room for one more: the
-- module then exports `__wago_` and the trampoline's name as the next function, and has its other
-- exports as before; and the wrapper's type is that of the callback with an i32 in front.
pub add_invoke_wrapper-exports :
    (sections after : List RawSection) (imported wrapper_type : ℕ) (name : List ℕ) (s : RawSection)
    (count n : ℕ) (found : Exports)
    → find_section 7 sections ≡ some s
    → read_u32 s.payload ≡ some (count, n)
    → count + 1 < 2 ^ 32
    → exported_functions sections ≡ some found
    → length name + 7 < 2 ^ 32
    → add_invoke_wrapper sections imported name wrapper_type ≡ some after
    → (k : ℕ) × (defined : List RawSection) × (append_vector_item sections 3
          (append_u32 [] wrapper_type)
        ≡ some (defined, k))
      × (exported_functions after
          ≡ some (
              add_export
                (record {
                  name = wago_prefix ++ b'_' ∷ [] ++ name;
                  kind = 0;
                  index = u32 (imported + k);
                })
                found))
      × ((t : FunctionType) × (callback : ℕ) × (function_type sections wrapper_type ≡ some t)
          × (starts_with_i32 t.params ≡ true)
          × (function_type sections callback
              ≡ some (record { params = drop 1 t.params; results = t.results })))
unfolding add_invoke_wrapper
add_invoke_wrapper-exports sections after imported wrapper_type name s count n found at_7 counted
      room exports small e =
    let (t, typed, rest) = >>=-some (function_type sections wrapper_type) _ e in
    let (u, guarded, rest') = >>=-some (guard (starts_with_i32 t.params)) _ rest in
    let (callback, sought, added) =
      >>=-some
        (find_function_type sections (record { params = drop 1 t.params; results = t.results })) _
        rest' in
    let (k, defined, d3, after_7) =
      add_function-exports sections after imported wrapper_type (wago_prefix ++ b'_' ∷ [] ++ name)
        (invoke_body (length t.params) callback) s count n found at_7 counted room exports
        (ground (arith, small)) added in
    (
      k,
      defined,
      d3,
      after_7,
      (
        t,
        callback,
        typed,
        ground arith,
        (find_function_type-function_type sections
            (record { params = drop 1 t.params; results = t.results }) sought).0,
      ),
    )
