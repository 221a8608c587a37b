-- ===== src/FileSystem/Behaviour/Gather/Puts.antt =====
-- A file as a function from positions to bytes, and bytes put into it.
use wago_emscripten.Common.{
  ℕ, zero, suc, ◌+◌, ◌-◌, ◌≤◌, ◌<◌, true, false, ◌&&◌, ◌≡◌, refl, sym, ap, ◌∙◌, inl, inr, Option,
  none, some, List, [], ◌∷◌, ◌++◌, length, length-append, get_elem?, get_elem?-lt, get_elem?-first,
  get_elem?-second, Bool-cases, Option-cases, ltb, leb, if◌then◌else◌, if_true, if_false, nat_eq,
  arith,
}

-- A file as a function, none behind its end, with bytes put at `start` and zeros in a gap before them.
unfoldable pub put_bytes : ℕ → List ℕ → (ℕ → Option ℕ) → ℕ → Option ℕ
put_bytes start bs file i =
    if leb start i && ltb i (start + length bs)
    then get_elem? bs (i - start)
    else elim (file i) [ some b ↦ some b | none ↦ if ltb i start then some 0 else none ]

get_elem?-ge : (xs : List ℕ) (i : ℕ) → get_elem? xs i ≡ none → length xs ≤ i
get_elem?-ge [] i e = omega arith
get_elem?-ge (x ∷ xs) zero e = absurd (ground (arith, e))
get_elem?-ge (x ∷ xs) (suc i) e = omega (arith, get_elem?-ge xs i e)

-- Where a position lies in the bytes put, and where the file shows.
module _ (start : ℕ) (bs : List ℕ) (file : ℕ → Option ℕ) (i : ℕ) where
  put_bytes-in :
      start ≤ i → i < start + length bs → put_bytes start bs file i ≡ get_elem? bs (i - start)
  unfolding put_bytes
  put_bytes-in low high =
      let here : (leb start i && ltb i (start + length bs)) ≡ true = ground arith in rw here refl

  put_bytes-out :
      (leb start i && ltb i (start + length bs)) ≡ false
      → put_bytes start bs file i
        ≡ (elim (file i) [ some b ↦ some b | none ↦ if ltb i start then some 0 else none ])
  unfolding put_bytes
  put_bytes-out away = rw away refl

  put_bytes-kept :
      {b : ℕ}
      → (leb start i && ltb i (start + length bs)) ≡ false
      → file i ≡ some b
      → put_bytes start bs file i ≡ some b
  unfolding put_bytes
  put_bytes-kept away e = rw away (rw e refl)

  put_bytes-gap :
      (leb start i && ltb i (start + length bs)) ≡ false
      → file i ≡ none
      → put_bytes start bs file i ≡ (if ltb i start then some 0 else none)
  unfolding put_bytes
  put_bytes-gap away e = rw away (rw e refl)

-- The form of a write's result by the old size.
pub put_bytes-by_size :
    (start : ℕ) (bs xs : List ℕ) (i : ℕ)
    → (if leb start i && ltb i (start + length bs)
        then get_elem? bs (i - start)
        else if ltb i (length xs)
        then get_elem? xs i
        else if ltb i start
        then some 0
        else none)
      ≡ put_bytes start bs (get_elem? xs) i
unfolding put_bytes
put_bytes-by_size start bs xs i = elim (Option-cases (get_elem? xs i)) [
  | inl z ↦ rw (z, put_bytes) (ground (arith, get_elem?-ge xs i z))
  | inr (b, z) ↦ rw (z, put_bytes) (ground (arith, get_elem?-lt xs i z))
]

get_elem?-there : (xs : List ℕ) (i : ℕ) → i < length xs → (b : ℕ) × (get_elem? xs i ≡ some b)
get_elem?-there xs i h = elim (Option-cases (get_elem? xs i)) [
  | inl z ↦ absurd (omega (arith, get_elem?-ge xs i z))
  | inr found ↦ found
]

-- Two writes, the second where the first ends, are one.
module _ (start : ℕ) (xs bs : List ℕ) (file : ℕ → Option ℕ) (i : ℕ) where
  all : length (xs ++ bs) ≡ length xs + length bs
  all = length-append xs bs

  append-first :
      start ≤ i
      → i < start + length xs
      → put_bytes (start + length xs) bs (put_bytes start xs file) i
        ≡ put_bytes start (xs ++ bs) file i
  append-first low high =
      let (b, there) = get_elem?-there xs (i - start) (omega arith) in
      put_bytes-kept (start + length xs) bs (put_bytes start xs file) i (ground arith)
        (put_bytes-in start xs file i low high ∙ there)
      ∙ sym (
          put_bytes-in start (xs ++ bs) file i low (omega (arith, all))
          ∙ get_elem?-first xs bs (i - start) (omega arith)
          ∙ there)

  append-second :
      start + length xs ≤ i
      → i < start + length xs + length bs
      → put_bytes (start + length xs) bs (put_bytes start xs file) i
        ≡ put_bytes start (xs ++ bs) file i
  append-second low high =
      let at_b : i - start - length xs ≡ i - (start + length xs) = omega arith in
      put_bytes-in (start + length xs) bs (put_bytes start xs file) i low high
      ∙ sym (
          put_bytes-in start (xs ++ bs) file i (omega arith) (omega (arith, all))
          ∙ get_elem?-second xs bs (i - start) (omega arith)
          ∙ ap (get_elem? bs) at_b)

  append-out :
      (leb start i && ltb i (start + length xs + length bs)) ≡ false
      → put_bytes (start + length xs) bs (put_bytes start xs file) i
        ≡ put_bytes start (xs ++ bs) file i
  append-out away =
      let first : (leb start i && ltb i (start + length xs)) ≡ false = ground arith in
      let second : (leb (start + length xs) i && ltb i (start + length xs + length bs)) ≡ false =
        ground arith in
      let both : (leb start i && ltb i (start + length (xs ++ bs))) ≡ false = ground (arith, all) in
      elim (Option-cases (file i)) [
        | inr (b, z) ↦
            put_bytes-kept (start + length xs) bs (put_bytes start xs file) i second
              (put_bytes-kept start xs file i first z)
            ∙ sym (put_bytes-kept start (xs ++ bs) file i both z)
        | inl z ↦
            let gap = put_bytes-gap start xs file i first z in
            let gap' = put_bytes-gap start (xs ++ bs) file i both z in
            elim (Bool-cases (ltb i start)) [
              | inl before ↦
                  put_bytes-kept (start + length xs) bs (put_bytes start xs file) i second
                    (gap ∙ if_true _ _ _ before)
                  ∙ sym (gap' ∙ if_true _ _ _ before)
              | inr behind ↦
                  let past : ltb i (start + length xs) ≡ false = ground arith in
                  put_bytes-gap (start + length xs) bs (put_bytes start xs file) i second
                    (gap ∙ if_false _ _ _ behind)
                  ∙ if_false _ _ _ past
                  ∙ sym (gap' ∙ if_false _ _ _ behind)
            ]
      ]

  pub put_bytes-append :
      put_bytes (start + length xs) bs (put_bytes start xs file) i
      ≡ put_bytes start (xs ++ bs) file i
  put_bytes-append = elim (Bool-cases (leb start i && ltb i (start + length xs + length bs))) [
    | inr away ↦ append-out away
    | inl inside ↦ elim (Bool-cases (ltb i (start + length xs))) [
      | inl early ↦ append-first (ground arith) (ground arith)
      | inr late ↦ append-second (ground arith) (ground arith)
    ]
  ]

pub put_bytes-ext :
    (start : ℕ) (bs : List ℕ) (f g : ℕ → Option ℕ) (i : ℕ)
    → f i ≡ g i
    → put_bytes start bs f i ≡ put_bytes start bs g i
unfolding put_bytes
put_bytes-ext start bs f g i e = rw (e, put_bytes) refl
