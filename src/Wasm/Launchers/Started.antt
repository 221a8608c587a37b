-- ===== src/Wasm/Launchers/Started.antt =====
-- transform.go: what a module exports after a launcher has been added to it.
use wago_emscripten.Common.{
  ℕ, ◌+◌, ◌^◌, ◌<◌, Bool, true, false, ◌≡◌, refl, ◌∙◌, ◌⊎◌, none, some, List, [], ◌∷◌, ◌++◌, ◌==◌,
  bytes_eq, bytes_eq_refl, if◌then◌else◌, u32, ◌>>=◌, >>=-some, bytes_key, lookup, lookup-insert,
  arith,
}
use wago_emscripten.Wasm.{RawSection, read_u32, append_u32, find_section, append_vector_item}
use wago_emscripten.Wasm.Exports.{Exports, add_export, exported_functions}
use wago_emscripten.Wasm.Wrappers.{add_function, code_item}
use wago_emscripten.Wasm.Wrappers.Added.{
  append_vector_item-others, exported_functions-others, add_function-exports,
}
use wago_emscripten.Wasm.Wrappers.Placed.{HasItem, HasItem-between, add_function-HasItem}
use wago_emscripten.Wasm.Names.{start_name, main_argc_argv, plain_main, underscore_main}
use wago_emscripten.Wasm.Launchers.{
  empty_type, calls, find_targets, add_go_argv, add_start_function, add_start_launcher,
}

-- The sections have one function more, behind the `imported` ones and their own `k`, whose body is
-- `body`. They export it as `_start`, and under every other name what the exports before had.
abbrev pub IsStarted : ℕ → List RawSection → Exports → List ℕ → List RawSection → Type 0
IsStarted imported sections before body after =
    (found : Exports) × (k type_index c : ℕ) × (exported_functions after ≡ some found)
    × (found.has_start ≡ true)
    × ((j : List ℕ)
        → lookup j found.functions ≡ (
            if bytes_eq start_name j then some (u32 (imported + k)) else lookup j before.functions))
    × HasItem 3 sections after (append_u32 [] type_index) k
    × HasItem 10 sections after (code_item body) c

-- `target` is what the first of the three names of `main` is exported for.
abbrev pub IsMain : Exports → ℕ → Type 0
IsMain before target =
    (lookup main_argc_argv before.functions ≡ some target)
    ⊎ ((lookup main_argc_argv before.functions ≡ none)
        × ((lookup plain_main before.functions ≡ some target)
            ⊎ ((lookup plain_main before.functions ≡ none)
                × (lookup underscore_main before.functions ≡ some target))))

started : ℕ → Exports → Exports
unfolding add_export
started index before = add_export (record { name = start_name; kind = 0; index = index }) before

started-has_start : (index : ℕ) (before : Exports) → (started index before).has_start ≡ true
unfolding started
started-has_start index before = rw (bytes_eq_refl start_name) (ground arith)

lookup-started :
    (index : ℕ) (before : Exports) (j : List ℕ)
    → lookup j (started index before).functions
      ≡ (if bytes_eq start_name j then some index else lookup j before.functions)
unfolding started
lookup-started index before j = lookup-insert start_name j index before.functions

module _ (sections after : List RawSection) (imported : ℕ) (s : RawSection) (count n : ℕ)
    (before : Exports) (at_7 : find_section 7 sections ≡ some s)
    (counted : read_u32 s.payload ≡ some (count, n)) (room : count + 1 < 2 ^ 32)
    (exports : exported_functions sections ≡ some before) where
  -- A launcher is a function `_start` that is added where only the types may have changed.
  add_function-IsStarted :
      (typed : List RawSection) (type_index : ℕ) (body : List ℕ)
      → ((j : ℕ) → (1 == j) ≡ false → find_section j typed ≡ find_section j sections)
      → add_function typed imported type_index start_name body ≡ some after
      → IsStarted imported sections before body after
  unfolding started
  add_function-IsStarted typed type_index body kept e =
      let (k, defined, d3, after_7) =
        add_function-exports typed after imported type_index start_name body s count n before
          (kept 7 refl ∙ at_7) counted room
          (exported_functions-others typed sections (kept 7 refl) ∙ exports) (ground arith) e in
      let (entry, (c, code)) =
        add_function-HasItem typed after imported type_index start_name body e d3 in
      let index : ℕ = u32 (imported + k) in
      (
        started index before,
        k,
        type_index,
        c,
        after_7,
        started-has_start index before,
        lookup-started index before,
        HasItem-between 3 sections typed after after (append_u32 [] type_index) k (kept 3 refl) refl
            entry,
        HasItem-between 10 sections typed after after (code_item body) c (kept 10 refl) refl code,
      )

  add_start_function-IsStarted :
      (spare : Bool) (indices : List ℕ)
      → add_start_function spare sections imported indices [] ≡ some after
      → IsStarted imported sections before (0x00 ∷ [] ++ [] ++ calls indices ++ 0x0b ∷ []) after
  unfolding add_start_function add_go_argv add_function
  add_start_function-IsStarted spare indices e =
      let (typed, t1, e1) = >>=-some (append_vector_item sections 1 empty_type) _ e in
      let added : add_function typed.0 imported typed.1 start_name
            (0x00 ∷ [] ++ [] ++ calls indices ++ 0x0b ∷ [])
          ≡ some after =
        e1 in
      add_function-IsStarted typed.0 typed.1 (0x00 ∷ [] ++ [] ++ calls indices ++ 0x0b ∷ [])
        (λ j away. append_vector_item-others sections typed.0 1 j typed.1 empty_type away t1) added

-- The launcher of a module without arguments, as of Ruby, SQLite and Lua, exports its `_start` in the
-- same way, with a body that calls the targets.
pub add_start_launcher-starts :
    (sections after : List RawSection) (imported : ℕ) (spare : Bool) (targets : List (List ℕ))
    (s : RawSection) (count n : ℕ) (before : Exports)
    → find_section 7 sections ≡ some s
    → read_u32 s.payload ≡ some (count, n)
    → count + 1 < 2 ^ 32
    → exported_functions sections ≡ some before
    → before.has_start ≡ false
    → add_start_launcher spare sections imported targets [] ≡ some after
    → (indices : List ℕ) × (find_targets before.functions targets ≡ some indices)
      × IsStarted imported sections before (0x00 ∷ [] ++ [] ++ calls indices ++ 0x0b ∷ []) after
unfolding add_start_launcher
add_start_launcher-starts sections after imported spare targets s count n before at_7 counted room
      exports fresh e =
    let added = launched exports fresh ∙ e in
    let (indices, found, e1) = >>=-some (find_targets before.functions targets) _ added in
    (
      indices,
      found,
      add_start_function-IsStarted sections after imported s count n before at_7 counted room
          exports spare indices e1,
    )
  where
    launched :
        exported_functions sections ≡ some before
        → before.has_start ≡ false
        → (find_targets before.functions targets >>= λ indices.
            add_start_function spare sections imported indices [])
          ≡ add_start_launcher spare sections imported targets []
    launched x f = rw (x, add_start_launcher) (rw f refl)
