-- ===== src/Wasm/Arguments/Layout.antt =====
-- Where the launchers' blocks have each argument: the guest finds it behind its pointer.
use wago_emscripten.Common.{
  ℕ, zero, suc, ◌+◌, ◌-◌, ◌*◌, ◌%◌, ◌^◌, ◌≤◌, ◌<◌, false, ◌≡◌, refl, sym, ap, subst, ◌∙◌, inl, inr,
  some, List, [], ◌∷◌, ◌++◌, append_assoc, append-nil, length, get_elem?, drop, drop-append,
  length-append, length-replicate, Bool-cases, Option-cases, ltb, u32, arith,
}
use wago_emscripten.Memory.{until_nul}
use wago_emscripten.Memory.Strings.{until_nul-string}
use wago_emscripten.Paths.{has_byte}
use wago_emscripten.Wasm.Arguments.{
  padding, append_strings, ArgvBlock, argv_block, no_pointer, finish_argv, encode_emscripten_argv,
}

pub get_elem?-append :
    (xs ys : List ℕ) (i : ℕ) → get_elem? (xs ++ ys) (length xs + i) ≡ get_elem? ys i
get_elem?-append [] ys i = ap (get_elem? ys) (omega arith)
get_elem?-append (x ∷ xs) ys i =
    let next : suc (length xs) + i ≡ suc (length xs + i) = omega arith in
    rw next (get_elem?-append xs ys i)

pub chunk : (a b : List ℕ) (c : ℕ) (m : List ℕ) → a ++ b ++ c ∷ [] ++ m ≡ a ++ (b ++ (c ∷ m))
chunk a b c m = append_assoc (a ++ b) (c ∷ []) m ∙ append_assoc a b (c ∷ m)

append_strings-next :
    (arg : List ℕ) (args : List (List ℕ)) (block offsets : List ℕ) (r : List ℕ × List ℕ)
    → append_strings (arg ∷ args) block offsets ≡ some r
    → (has_byte 0 arg ≡ false)
      × (append_strings args (block ++ arg ++ 0 ∷ []) (offsets ++ u32 (length block) ∷ []) ≡ some r)
unfolding append_strings
append_strings-next arg args block offsets r e = elim (Bool-cases (has_byte 0 arg)) [
  | inl z ↦ absurd (ground arith)
  | inr z ↦ (z, ground arith)
]

-- The block only grows, and there is one offset more for each string.
append_strings-grows :
    (args : List (List ℕ)) (block offsets : List ℕ) (r : List ℕ × List ℕ)
    → append_strings args block offsets ≡ some r
    → ((more : List ℕ) × (r.0 ≡ block ++ more))
      × ((more : List ℕ) × (r.1 ≡ offsets ++ more) × (length more ≡ length args))
unfolding append_strings
append_strings-grows [] block offsets r e =
    let same : (block, offsets) ≡ r = ground arith in
    (
      ([], ap (λ s. s.0) (sym same) ∙ sym (append-nil block)),
      ([], ap (λ s. s.1) (sym same) ∙ sym (append-nil offsets), refl),
    )
append_strings-grows (arg ∷ args) block offsets r e =
    let (clean, rest) = append_strings-next arg args block offsets r e in
    let ((m, b), (n, o, k)) = append_strings-grows args _ _ r rest in
    (
      (arg ++ (0 ∷ m), b ∙ chunk block arg 0 m),
      (u32 (length block) ∷ n, o ∙ append_assoc offsets (u32 (length block) ∷ []) n, ap suc k),
    )

-- The string number `i` is found behind the offset number `i` of those added.
append_strings-found :
    (args : List (List ℕ)) (block offsets : List ℕ) (r : List ℕ × List ℕ) (i : ℕ)
    (arg tail : List ℕ)
    → append_strings args block offsets ≡ some r
    → get_elem? args i ≡ some arg
    → length r.0 < 2 ^ 32
    → (o : ℕ) × (get_elem? r.1 (length offsets + i) ≡ some o)
      × (until_nul (drop o (r.0 ++ tail)) ≡ some arg)
append_strings-found [] block offsets r i arg tail e f small = absurd (ground arith)
append_strings-found (arg ∷ args) block offsets r zero sought tail e f small =
    let (clean, rest) = append_strings-next arg args block offsets r e in
    let ((m, b), (n, o, k)) = append_strings-grows args _ _ r rest in
    let same : arg ≡ sought = ground arith in
    let start : r.0 ≡ block ++ (arg ++ (0 ∷ m)) = b ∙ chunk block arg 0 m in
    let number : r.1 ≡ offsets ++ (u32 (length block) ∷ n) =
      o ∙ append_assoc offsets (u32 (length block) ∷ []) n in
    let size : u32 (length block) ≡ length block =
      omega (arith, ap length start, length-append block (arg ++ (0 ∷ m))) in
    (
      length block,
      rw number (get_elem?-append offsets (u32 (length block) ∷ n) 0 ∙ ap some size),
      rw start (
          rw (append_assoc block (arg ++ (0 ∷ m)) tail) (
            rw (drop-append block (arg ++ (0 ∷ m) ++ tail)) (
              rw (append_assoc arg (0 ∷ m) tail)
                (until_nul-string arg (m ++ tail) clean ∙ ap some same)))),
    )
append_strings-found (arg ∷ args) block offsets r (suc i) sought tail e f small =
    let (clean, rest) = append_strings-next arg args block offsets r e in
    let (o, place', there) =
      append_strings-found args (block ++ arg ++ 0 ∷ []) (offsets ++ u32 (length block) ∷ []) r i
        sought tail rest f small in
    let place : length offsets + suc i ≡ length (offsets ++ u32 (length block) ∷ []) + i =
      omega (arith, length-append offsets (u32 (length block) ∷ [])) in
    (o, rw place place', there)

finish_argv_lem :
    (block offsets : List ℕ) (r : ArgvBlock)
    → finish_argv block offsets ≡ some r
    → (argv_block block offsets ≡ r) × (r.allocation_size ≤ 8192)
unfolding finish_argv
finish_argv_lem block offsets r e =
    elim (Bool-cases (ltb 8192 (argv_block block offsets).allocation_size)) [
      | inl z ↦ absurd (ground arith)
      | inr z ↦
          let same : argv_block block offsets ≡ r = ground arith in
          let fits : (argv_block block offsets).allocation_size ≤ 8192 = ground arith in
          (same, subst (λ t. t.allocation_size ≤ 8192) same fits)
    ]

-- An encoded block is what the strings of the arguments and then of the environment leave.
encoded :
    (args environment : List (List ℕ)) (r : ArgvBlock)
    → encode_emscripten_argv args environment ≡ some r
    → (s : List ℕ × List ℕ) × (t : List ℕ × List ℕ) × (append_strings args [] [] ≡ some s)
      × (append_strings environment s.0 (s.1 ++ no_pointer ∷ []) ≡ some t)
      × (finish_argv t.0 (t.1 ++ no_pointer ∷ []) ≡ some r)
unfolding encode_emscripten_argv
encoded args environment r e = elim (Option-cases (append_strings args [] [])) [
  | inl z ↦ absurd (ground arith)
  | inr (s, z) ↦ elim (Option-cases (append_strings environment s.0 (s.1 ++ no_pointer ∷ []))) [
    | inl y ↦ absurd (ground arith)
    | inr (t, y) ↦ (s, t, z, y, ground arith)
  ]
]

pub get_elem?-prefix :
    (xs ys : List ℕ) (i : ℕ) {v : ℕ} → get_elem? xs i ≡ some v → get_elem? (xs ++ ys) i ≡ some v
get_elem?-prefix [] ys i e = absurd (ground arith)
get_elem?-prefix (x ∷ xs) ys zero e = e
get_elem?-prefix (x ∷ xs) ys (suc i) e = get_elem?-prefix xs ys i e

module _ (args environment : List (List ℕ)) (r : ArgvBlock) (i : ℕ) (text : List ℕ) where
  -- Where a block for the launcher of an Emscripten module has been encoded, and its length is below
  -- 2^32: the guest finds each argument, up to its NUL, at the offset with the argument's number.
  pub encode_emscripten_argv-args :
      encode_emscripten_argv args environment ≡ some r
      → length r.block < 2 ^ 32
      → get_elem? args i ≡ some text
      → (o : ℕ) × (get_elem? r.offsets i ≡ some o) × (until_nul (drop o r.block) ≡ some text)
  encode_emscripten_argv-args e small f =
      let (s, t, first, second, last) = encoded args environment r e in
      let (same, fits) = finish_argv_lem t.0 (t.1 ++ no_pointer ∷ []) r last in
      let ((m, b), (n, o, k)) =
        append_strings-grows environment s.0 (s.1 ++ no_pointer ∷ []) t second in
      let block : r.block ≡ s.0 ++ (m ++ padding 4 (length t.0)) =
        ap (λ q. q.block) (sym same)
        ∙ ap (λ xs. xs ++ padding 4 (length t.0)) b
        ∙ append_assoc s.0 m (padding 4 (length t.0)) in
      let offsets : r.offsets ≡ s.1 ++ no_pointer ∷ [] ++ n ++ no_pointer ∷ [] =
        ap (λ q. q.offsets) (sym same) ∙ ap (λ xs. xs ++ no_pointer ∷ []) o in
      let (place, number, there) =
        append_strings-found args [] [] s i text (m ++ padding 4 (length t.0)) first f (
          omega (arith, small, ap length block, length-append s.0 (m ++ padding 4 (length t.0)))) in
      let index : 0 + i ≡ i = omega arith in
      let number' : get_elem? s.1 i ≡ some place = rw index at number in
      (
        place,
        ap (λ xs. get_elem? xs i) offsets
            ∙ get_elem?-prefix (s.1 ++ no_pointer ∷ [] ++ n) (no_pointer ∷ []) i (
                get_elem?-prefix (s.1 ++ no_pointer ∷ []) n i
                  (get_elem?-prefix s.1 (no_pointer ∷ []) i number')),
        ap (λ xs. until_nul (drop place xs)) block ∙ there,
      )

  -- Where such a block has been encoded, and its length is below 2^32: the guest finds each entry of
  -- the environment, up to its NUL, at the offset behind those of the arguments and their terminator.
  pub encode_emscripten_argv-environment :
      encode_emscripten_argv args environment ≡ some r
      → length r.block < 2 ^ 32
      → get_elem? environment i ≡ some text
      → (o : ℕ) × (get_elem? r.offsets (length args + 1 + i) ≡ some o)
        × (until_nul (drop o r.block) ≡ some text)
  encode_emscripten_argv-environment e small f =
      let (s, t, first, second, last) = encoded args environment r e in
      let (same, fits) = finish_argv_lem t.0 (t.1 ++ no_pointer ∷ []) r last in
      let ((m, b), (n, o, k)) = append_strings-grows args [] [] s first in
      let block : r.block ≡ t.0 ++ padding 4 (length t.0) = ap (λ q. q.block) (sym same) in
      let offsets : r.offsets ≡ t.1 ++ no_pointer ∷ [] = ap (λ q. q.offsets) (sym same) in
      let (place, number, there) =
        append_strings-found environment s.0 (s.1 ++ no_pointer ∷ []) t i text
          (padding 4 (length t.0)) second f
          (omega (arith, small, ap length block, length-append t.0 (padding 4 (length t.0)))) in
      let index : length (s.1 ++ no_pointer ∷ []) + i ≡ length args + 1 + i =
        omega (arith, ap length o, k, length-append s.1 (no_pointer ∷ [])) in
      let number' : get_elem? t.1 (length args + 1 + i) ≡ some place = rw index at number in
      (
        place,
        ap (λ xs. get_elem? xs (length args + 1 + i)) offsets
            ∙ get_elem?-prefix t.1 (no_pointer ∷ []) (length args + 1 + i) number',
        ap (λ xs. until_nul (drop place xs)) block ∙ there,
      )

-- An encoded block is padded to a multiple of 4, and the size to allocate for it is exactly the block
-- and one word for each offset, where both fit 32 bits: at most 8192, and not rounded up any further.
pub encode_emscripten_argv-size :
    (args environment : List (List ℕ)) (r : ArgvBlock)
    → encode_emscripten_argv args environment ≡ some r
    → length r.block + length r.offsets * 4 < 2 ^ 32
    → (length r.block % 4 ≡ 0)
      × (r.pointer_offset ≡ length r.block)
      × (r.allocation_size ≡ length r.block + length r.offsets * 4)
      × (r.allocation_size ≤ 8192)
encode_emscripten_argv-size args environment r e small =
    let (s, t, first, second, last) = encoded args environment r e in
    let (same, fits) = finish_argv_lem t.0 (t.1 ++ no_pointer ∷ []) r last in
    let block : r.block ≡ t.0 ++ padding 4 (length t.0) = ap (λ q. q.block) (sym same) in
    let pointer : r.pointer_offset ≡ u32 (length r.block) =
      ap (λ q. q.pointer_offset) (sym same) ∙ ap (λ q. u32 (length q.block)) same in
    let size : r.allocation_size ≡ u32 (u32 (length r.block) + u32 (length r.offsets * 4)) =
      ap (λ q. q.allocation_size) (sym same)
      ∙ ap (λ q. u32 (u32 (length q.block) + u32 (length q.offsets * 4))) same in
    (
      omega (
        arith,
        ap length block,
        length-append t.0 (padding 4 (length t.0)),
        length-replicate {A = ℕ} ((4 - length t.0 % 4) % 4) 0,
      ),
      omega (arith, pointer),
      omega (arith, size),
      fits,
    )
