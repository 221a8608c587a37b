-- ===== src/Wasm/Types.antt =====
-- transform.go: the type section, read by index and searched for a signature.
use wago_emscripten.Common.{
  ℕ, zero, suc, ◌+◌, ◌≤◌, ◌<◌, Bool, false, ◌&&◌, ◌≡◌, refl, ◌∙◌, inl, inr, Option, none, some,
  List, [], ◌∷◌, length, take, drop, Bool-cases, Option-cases, ltb, leb, ◌==◌, bytes_eq,
  bytes_eq→eq, if◌then◌else◌, arith,
}
use wago_emscripten.Wasm.{RawSection, read_u32, find_section}

-- The parameters and the results of a function, a byte for each.
pub record FunctionType : Type 0 where
  pub params : List ℕ
  pub results : List ℕ

-- A count and as many bytes, with what follows them.
unfoldable pub read_types : List ℕ → Option (List ℕ × List ℕ)
unfolding read_u32
read_types source = elim (read_u32 source) [
  | none ↦ none
  | some (count, n) ↦
      let body = drop n source in
      if ltb (length body) count then none else some (take count body, drop count body)
]

-- One round of the loops of `functionType` and `findFunctionType`: the type at the head of what is
-- left of the payload, and what is left behind it.
unfoldable pub read_function_type : List ℕ → Option (FunctionType × List ℕ)
unfolding read_types
read_function_type [] = none
read_function_type (form ∷ source) = elim (read_types source) [
  | none ↦ none
  | some (params, rest) ↦ elim (read_types rest) [
    | none ↦ none
    | some (results, rest') ↦
        if form == 0x60 then some (record { params = params; results = results }, rest') else none
  ]
]

-- The loop of `functionType` with `fuel` types to go, at the type `index`.
unfoldable pub type_loop : ℕ → ℕ → ℕ → List ℕ → Option FunctionType
unfolding read_function_type
type_loop wanted zero index source = none
type_loop wanted (suc fuel) index source = elim (read_function_type source) [
  | none ↦ none
  | some (t, rest) ↦
      let later = type_loop wanted fuel (suc index) rest in
      if index == wanted then some t else later
]

unfoldable pub function_type : List RawSection → ℕ → Option FunctionType
unfolding find_section read_u32 type_loop
function_type sections wanted = elim (find_section 1 sections) [
  | none ↦ none
  | some s ↦ elim (read_u32 s.payload) [
    | none ↦ none
    | some (count, n) ↦
        if leb count wanted then none else type_loop wanted count 0 (drop n s.payload)
  ]
]

-- The loop of `findFunctionType`.
unfoldable pub find_type_loop : FunctionType → ℕ → ℕ → List ℕ → Option ℕ
unfolding read_function_type
find_type_loop sought zero index source = none
find_type_loop sought (suc fuel) index source = elim (read_function_type source) [
  | none ↦ none
  | some (t, rest) ↦
      let later = find_type_loop sought fuel (suc index) rest in
      if bytes_eq t.params sought.params && bytes_eq t.results sought.results
      then some index
      else later
]

unfoldable pub find_function_type : List RawSection → FunctionType → Option ℕ
unfolding find_section read_u32 find_type_loop
find_function_type sections sought = elim (find_section 1 sections) [
  | none ↦ none
  | some s ↦ elim (read_u32 s.payload) [
    | none ↦ none
    | some (count, n) ↦ find_type_loop sought count 0 (drop n s.payload)
  ]
]

-- Where both loops run over the same types, the one that is found is the one that is read at its
-- index, and at no earlier index does the other loop read it.
found_in_loop :
    (sought : FunctionType) (fuel index : ℕ) (source : List ℕ) {i : ℕ}
    → find_type_loop sought fuel index source ≡ some i
    → (type_loop i fuel index source ≡ some sought) × (index ≤ i) × (i < index + fuel)
unfolding find_type_loop type_loop
found_in_loop sought zero index source e = absurd (ground arith)
found_in_loop sought (suc fuel) index source {i} e =
    elim (Option-cases (read_function_type source)) [
      | inl z ↦ absurd (ground arith)
      | inr ((t, rest), z) ↦
          elim (Bool-cases (bytes_eq t.params sought.params && bytes_eq t.results sought.results)) [
            | inl same ↦
                let here : index ≡ i = ground arith in
                let ps : t.params ≡ sought.params =
                  bytes_eq→eq t.params sought.params (ground arith) in
                let rs : t.results ≡ sought.results =
                  bytes_eq→eq t.results sought.results (ground arith) in
                let is : t ≡ sought = cc in
                (
                  rw (z, type_loop) (rw here (ground (arith, is))),
                  omega (arith, here),
                  omega (arith, here),
                )
            | inr other ↦
                let deeper : find_type_loop sought fuel (suc index) rest ≡ some i = ground arith in
                let (read, low, high) = found_in_loop sought fuel (suc index) rest deeper in
                let away : (index == i) ≡ false = ground arith in
                (rw (z, type_loop) (rw away read), omega arith, omega arith)
          ]
    ]

-- Whether a type that was read is the one sought.
abbrev is_sought : FunctionType → Option FunctionType → Bool
is_sought sought none = false
is_sought sought (some t) = bytes_eq t.params sought.params && bytes_eq t.results sought.results

-- The first match: no earlier index reads as the signature.
first_in_loop :
    (sought : FunctionType) (fuel index : ℕ) (source : List ℕ) {i : ℕ} (j : ℕ)
    → find_type_loop sought fuel index source ≡ some i
    → index ≤ j
    → j < i
    → is_sought sought (type_loop j fuel index source) ≡ false
unfolding find_type_loop type_loop
first_in_loop sought zero index source j e low high = absurd (ground arith)
first_in_loop sought (suc fuel) index source {i} j e low high =
    elim (Option-cases (read_function_type source)) [
      | inl z ↦ absurd (ground arith)
      | inr ((t, rest), z) ↦ elim (Bool-cases (is_sought sought (some t))) [
        | inl same ↦ absurd (ground arith)
        | inr other ↦
            let deeper : find_type_loop sought fuel (suc index) rest ≡ some i = ground arith in
            elim (Bool-cases (index == j)) [
              | inl here ↦ rw (z, type_loop) (rw here other)
              | inr away ↦
                  rw (z, type_loop)
                    (rw away
                      (first_in_loop sought fuel (suc index) rest j deeper (ground arith) high))
            ]
      ]
    ]

function_type-at :
    (sections : List RawSection) (wanted : ℕ) (s : RawSection) {count n : ℕ}
    → find_section 1 sections ≡ some s
    → read_u32 s.payload ≡ some (count, n)
    → wanted < count
    → function_type sections wanted ≡ type_loop wanted count 0 (drop n s.payload)
unfolding function_type
function_type-at sections wanted s {count} z y h =
    let inside : leb count wanted ≡ false = ground arith in
    rw (z, function_type) (rw (y, function_type) (rw inside refl))

-- Whether `functionType` reads this signature at the index.
abbrev pub has_type : List RawSection → FunctionType → ℕ → Bool
has_type sections sought j = is_sought sought (function_type sections j)

-- A type that `findFunctionType` finds is the one that `functionType` reads at that index, and at no
-- earlier index does it read the same signature.
pub find_function_type-function_type :
    (sections : List RawSection) (sought : FunctionType) {i : ℕ}
    → find_function_type sections sought ≡ some i
    → (function_type sections i ≡ some sought)
      × ((j : ℕ) → (ltb j i && has_type sections sought j) ≡ false)
unfolding find_function_type function_type
find_function_type-function_type sections sought {i} e =
    elim (Option-cases (find_section 1 sections)) [
      | inl z ↦ absurd (ground arith)
      | inr (s, z) ↦ elim (Option-cases (read_u32 s.payload)) [
        | inl y ↦ absurd (ground arith)
        | inr ((count, n), y) ↦
            let found : find_type_loop sought count 0 (drop n s.payload) ≡ some i = ground arith in
            let (read, low, high) = found_in_loop sought count 0 (drop n s.payload) found in
            let inside : leb count i ≡ false = ground arith in
            (
              function_type-at sections i s z y (omega (arith, high)) ∙ read,
              λ j. elim (Bool-cases (ltb j i)) [
                | inr later ↦ rw later refl
                | inl earlier ↦ rw earlier (
                    rw (function_type-at sections j s z y (ground (arith, high)), has_type)
                      (first_in_loop sought count 0 (drop n s.payload) j found (omega arith)
                        (ground arith)))
              ],
            )
      ]
    ]
