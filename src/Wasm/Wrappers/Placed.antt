-- ===== src/Wasm/Wrappers/Placed.antt =====
-- transform.go: where the entry and the body of a function stand that has been added to a module.
use wago_emscripten.Common.{
  ℕ, ◌+◌, ◌≡◌, refl, sym, ap, ◌∙◌, inl, inr, some, List, [], ◌++◌, drop, u32, some_inj, subst,
  Option-cases, arith,
}
use wago_emscripten.Wasm.{
  RawSection, read_u32, append_u32, find_section, replace_payload, append_vector_item,
}
use wago_emscripten.Wasm.Sections.{find_section-replace_payload}
use wago_emscripten.Wasm.Wrappers.{code_item, add_function}
use wago_emscripten.Wasm.Wrappers.Added.{append_vector_item-others, add_function-steps}

-- The section `id` had `c` items, and has one more behind them.
abbrev pub HasItem : ℕ → List RawSection → List RawSection → List ℕ → ℕ → Type 0
HasItem id before after item c =
    (s : RawSection) × (n : ℕ) × (find_section id before ≡ some s)
    × (read_u32 s.payload ≡ some (c, n))
    × (find_section id after
        ≡ some (record s { payload = append_u32 [] (u32 (c + 1)) ++ drop n s.payload ++ item }))

append_vector_item-HasItem :
    (sections : List RawSection) (id : ℕ) (item : List ℕ) {after : List RawSection} {c : ℕ}
    → append_vector_item sections id item ≡ some (after, c)
    → HasItem id sections after item c
unfolding append_vector_item
append_vector_item-HasItem sections id item {after} {c} e =
    elim (Option-cases (find_section id sections)) [
      | inl z ↦ absurd (ground arith)
      | inr (s, z) ↦ elim (Option-cases (read_u32 s.payload)) [
        | inl y ↦ absurd (ground arith)
        | inr ((count, n), y) ↦
            let payload : List ℕ = append_u32 [] (u32 (count + 1)) ++ drop n s.payload ++ item in
            let all : ◌≡◌ {A = List RawSection × ℕ} (replace_payload id payload sections, count)
                (after, c) =
              ground arith in
            let same : count ≡ c = ap (λ r. r.1) all in
            (
              s,
              n,
              z,
              y ∙ ap (λ k. some (k, n)) same,
              ap (λ r. find_section id r.0) (sym all)
                  ∙ find_section-replace_payload id payload sections z
                  ∙ ap
                      (λ k. some (record s {
                        payload = append_u32 [] (u32 (k + 1)) ++ drop n s.payload ++ item;
                      }))
                      same,
            )
      ]
    ]

-- What stands in front of a step, and behind it, may change other sections.
pub HasItem-between :
    (id : ℕ) (a b c d : List RawSection) (item : List ℕ) (k : ℕ)
    → find_section id b ≡ find_section id a
    → find_section id d ≡ find_section id c
    → HasItem id b c item k
    → HasItem id a d item k
HasItem-between id a b c d item k front behind (s, n, found, counted, after) =
    (s, n, sym front ∙ found, counted, behind ∙ after)

-- A function that is added has the next entry of the function section, and its body is the last.
pub add_function-HasItem :
    (sections after : List RawSection) (imported type_index : ℕ) (name body : List ℕ)
    {defined : List RawSection} {k : ℕ}
    → add_function sections imported type_index name body ≡ some after
    → append_vector_item sections 3 (append_u32 [] type_index) ≡ some (defined, k)
    → HasItem 3 sections after (append_u32 [] type_index) k
      × ((c : ℕ) × HasItem 10 sections after (code_item body) c)
add_function-HasItem sections after imported type_index name body {defined} {k} e d =
    let (defined', exported, k', c7, c, d3, e7, c10) =
      add_function-steps sections after imported type_index name body e in
    let same : k' ≡ k = ap (λ r. r.1) (some_inj (sym d3 ∙ d)) in
    let entry = append_vector_item-HasItem sections 3 (append_u32 [] type_index) d3 in
    let code = append_vector_item-HasItem exported 10 (code_item body) c10 in
    let front =
      append_vector_item-others defined' exported 7 10 c7 _ refl e7
      ∙ append_vector_item-others sections defined' 3 10 k' _ refl d3 in
    let behind =
      append_vector_item-others exported after 10 3 c _ refl c10
      ∙ append_vector_item-others defined' exported 7 3 c7 _ refl e7 in
    (
      subst (HasItem 3 sections after (append_u32 [] type_index)) same (
          HasItem-between 3 sections sections defined' after (append_u32 [] type_index) k' refl
            behind entry),
      (c, HasItem-between 10 sections exported after after (code_item body) c front refl code),
    )
