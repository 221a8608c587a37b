-- ===== src/Wasm/Arguments/GoLayout.antt =====
-- Where the block of a Go program has each argument: the program finds its pointer in the table, and
-- the text behind the pointer.
use wago_emscripten.Common.{
  ℕ, zero, suc, ◌+◌, ◌-◌, ◌*◌, ◌^◌, ◌≤◌, ◌<◌, false, ◌≡◌, sym, ap, ◌∙◌, inl, inr, some, List, [],
  ◌∷◌, ◌++◌, append_assoc, append-nil, length, get_elem?, take, drop, drop-append, length-append,
  Bool-cases, Option-cases, leb, u32, arith,
}
use wago_emscripten.Memory.{until_nul, le_bytes, of_le, get_u32}
use wago_emscripten.Memory.Strings.{until_nul-string}
use wago_emscripten.Paths.{has_byte}
use wago_emscripten.Wasm.Arguments.{padding, go_strings, go_pointers, encode_go_argv}
use wago_emscripten.Wasm.Arguments.Layout.{chunk, get_elem?-append, get_elem?-prefix}

go_strings-next :
    (arg : List ℕ) (args : List (List ℕ)) (block pointers : List ℕ) (r : List ℕ × List ℕ)
    → go_strings (arg ∷ args) block pointers ≡ some r
    → (has_byte 0 arg ≡ false)
      × (go_strings args
            (block ++ arg ++ 0 ∷ [] ++ padding 8 (length (block ++ arg ++ 0 ∷ [])))
            (pointers ++ u32 (4096 + u32 (length block)) ∷ [])
          ≡ some r)
unfolding go_strings
go_strings-next arg args block pointers r e = elim (Bool-cases (has_byte 0 arg)) [
  | inl z ↦ absurd (ground arith)
  | inr z ↦ (z, ground arith)
]

go_strings-grows :
    (args : List (List ℕ)) (block pointers : List ℕ) (r : List ℕ × List ℕ)
    → go_strings args block pointers ≡ some r
    → ((more : List ℕ) × (r.0 ≡ block ++ more)) × ((more : List ℕ) × (r.1 ≡ pointers ++ more))
unfolding go_strings
go_strings-grows [] block pointers r e =
    let same : (block, pointers) ≡ r = ground arith in
    (
      ([], ap (λ s. s.0) (sym same) ∙ sym (append-nil block)),
      ([], ap (λ s. s.1) (sym same) ∙ sym (append-nil pointers)),
    )
go_strings-grows (arg ∷ args) block pointers r e =
    let (clean, rest) = go_strings-next arg args block pointers r e in
    let pad : List ℕ = padding 8 (length (block ++ arg ++ 0 ∷ [])) in
    let ((m, b), (n, o)) = go_strings-grows args _ _ r rest in
    (
      (
        arg ++ (0 ∷ (pad ++ m)),
        b ∙ append_assoc (block ++ arg ++ 0 ∷ []) pad m ∙ chunk block arg 0 (pad ++ m),
      ),
      (
        u32 (4096 + u32 (length block)) ∷ n,
        o ∙ append_assoc pointers (u32 (4096 + u32 (length block)) ∷ []) n,
      ),
    )

go_strings-found :
    (args : List (List ℕ)) (block pointers : List ℕ) (r : List ℕ × List ℕ) (i : ℕ)
    (arg tail : List ℕ)
    → go_strings args block pointers ≡ some r
    → get_elem? args i ≡ some arg
    → 4096 + length r.0 < 2 ^ 32
    → (o : ℕ) × (get_elem? r.1 (length pointers + i) ≡ some (4096 + o))
      × (o ≤ length r.0)
      × (until_nul (drop o (r.0 ++ tail)) ≡ some arg)
go_strings-found [] block pointers r i arg tail e f small = absurd (ground arith)
go_strings-found (arg ∷ args) block pointers r zero sought tail e f small =
    let (clean, rest) = go_strings-next arg args block pointers r e in
    let pad : List ℕ = padding 8 (length (block ++ arg ++ 0 ∷ [])) in
    let ((m, b), (n, o)) = go_strings-grows args _ _ r rest in
    let same : arg ≡ sought = ground arith in
    let start : r.0 ≡ block ++ (arg ++ (0 ∷ (pad ++ m))) =
      b ∙ append_assoc (block ++ arg ++ 0 ∷ []) pad m ∙ chunk block arg 0 (pad ++ m) in
    let number : r.1 ≡ pointers ++ (u32 (4096 + u32 (length block)) ∷ n) =
      o ∙ append_assoc pointers (u32 (4096 + u32 (length block)) ∷ []) n in
    let inside : length block ≤ length r.0 =
      omega (arith, ap length start, length-append block (arg ++ (0 ∷ (pad ++ m)))) in
    let size : u32 (4096 + u32 (length block)) ≡ 4096 + length block = omega (arith, inside) in
    (
      length block,
      rw number (get_elem?-append pointers (u32 (4096 + u32 (length block)) ∷ n) 0 ∙ ap some size),
      inside,
      rw start (
          rw (append_assoc block (arg ++ (0 ∷ (pad ++ m))) tail) (
            rw (drop-append block (arg ++ (0 ∷ (pad ++ m)) ++ tail)) (
              rw (append_assoc arg (0 ∷ (pad ++ m)) tail)
                (until_nul-string arg (pad ++ m ++ tail) clean ∙ ap some same)))),
    )
go_strings-found (arg ∷ args) block pointers r (suc i) sought tail e f small =
    let (clean, rest) = go_strings-next arg args block pointers r e in
    let (o, found, inside, there) = go_strings-found args _ _ r i sought tail rest f small in
    let place : length pointers + suc i
        ≡ length (pointers ++ u32 (4096 + u32 (length block)) ∷ []) + i =
      omega (arith, length-append pointers (u32 (4096 + u32 (length block)) ∷ [])) in
    (o, rw place found, inside, there)

drop-behind : (xs ys : List ℕ) (n : ℕ) → drop (length xs + n) (xs ++ ys) ≡ drop n ys
drop-behind [] ys n = ap (λ k. drop k ys) (omega arith)
drop-behind (x ∷ xs) ys n =
    let step : suc (length xs) + n ≡ suc (length xs + n) = omega arith in
    rw step (drop-behind xs ys n)

get_u32-behind : (xs ys : List ℕ) (n : ℕ) → get_u32 (xs ++ ys) (length xs + n) ≡ get_u32 ys n
get_u32-behind xs ys n = ap (λ zs. of_le (take 4 zs)) (drop-behind xs ys n)

-- The entry number `i` of the encoded table.
get_u32-go_pointers :
    (ps : List ℕ) (i p : ℕ)
    → get_elem? ps i ≡ some p
    → p < 2 ^ 32
    → get_u32 (go_pointers ps) (8 * i) ≡ p
unfolding go_pointers of_le le_bytes
get_u32-go_pointers [] i p e h = absurd (ground arith)
get_u32-go_pointers (q ∷ ps) zero p e h =
    let same : q ≡ p = ground arith in
    let start : 8 * 0 ≡ 0 = omega arith in rw start (omega (arith, same))
get_u32-go_pointers (q ∷ ps) (suc i) p e h =
    let step : 8 * suc i ≡ suc (suc (suc (suc (suc (suc (suc (suc (8 * i)))))))) = omega arith in
    rw step (get_u32-go_pointers ps i p e h)

encoded :
    (args : List (List ℕ)) (whole : List ℕ) (argc argv : ℕ)
    → encode_go_argv args ≡ some (whole, argc, argv)
    → (r : List ℕ × List ℕ) × (go_strings args [] [] ≡ some r)
      × (whole ≡ r.0 ++ go_pointers (r.1 ++ 0 ∷ 0 ∷ []))
      × (argc ≡ length args)
      × (argv ≡ u32 (4096 + u32 (length r.0)))
      × (length whole < 8192)
unfolding encode_go_argv
encoded args whole argc argv e = elim (Option-cases (go_strings args [] [])) [
  | inl z ↦ absurd (ground arith)
  | inr (r, z) ↦ elim (Bool-cases (leb 8192 (length (r.0 ++ go_pointers (r.1 ++ 0 ∷ 0 ∷ []))))) [
    | inl large ↦ absurd (ground arith)
    | inr fits ↦
        let same : r.0 ++ go_pointers (r.1 ++ 0 ∷ 0 ∷ []) ≡ whole = ground arith in
        (r, z, sym same, ground arith, ground arith, ground arith)
  ]
]

-- In an encoded block for a Go program, which goes to address 4096, the table at the address answered
-- has the address of each argument, and the argument stands there up to its NUL. The count is that of
-- the arguments, and the block has less than 8192 bytes.
pub encode_go_argv-args :
    (args : List (List ℕ)) (whole : List ℕ) (argc argv i : ℕ) (text : List ℕ)
    → encode_go_argv args ≡ some (whole, argc, argv)
    → get_elem? args i ≡ some text
    → (o : ℕ) × (get_u32 whole (argv - 4096 + 8 * i) ≡ 4096 + o)
      × (until_nul (drop o whole) ≡ some text)
      × (argc ≡ length args)
      × (length whole < 8192)
encode_go_argv-args args whole argc argv i text e f =
    let (r, strings, all, count, table, fits) = encoded args whole argc argv e in
    let ends : List ℕ = go_pointers (r.1 ++ 0 ∷ 0 ∷ []) in
    let short : length r.0 < 8192 = omega (arith, fits, ap length all, length-append r.0 ends) in
    let (o, found, inside, there) =
      go_strings-found args [] [] r i text ends strings f (omega (arith, short)) in
    let index : 0 + i ≡ i = omega arith in
    let found' : get_elem? r.1 i ≡ some (4096 + o) = rw index at found in
    let place : argv - 4096 + 8 * i ≡ length r.0 + 8 * i = omega (arith, table, short) in
    (
      o,
      ap (get_u32 whole) place
          ∙ ap (λ xs. get_u32 xs (length r.0 + 8 * i)) all
          ∙ get_u32-behind r.0 ends (8 * i)
          ∙ get_u32-go_pointers (r.1 ++ 0 ∷ 0 ∷ []) i (4096 + o)
              (get_elem?-prefix r.1 (0 ∷ 0 ∷ []) i found') (omega (arith, inside, short)),
      ap (λ xs. until_nul (drop o xs)) all ∙ there,
      count,
      fits,
    )
