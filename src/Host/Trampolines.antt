-- ===== src/Host/Trampolines.antt =====
-- Every trampoline that the transformer accepts has a signature that can be registered.
use wago_emscripten.Common.{
  ℕ, suc, ◌+◌, ◌≤◌, Bool, true, false, ◌&&◌, ◌||◌, ◌≡◌, refl, sym, ap, subst, ◌∙◌, inl, inr, none,
  some, List, [], ◌∷◌, ◌++◌, length, drop, Bool-cases, Option-cases, ◌==◌, bytes_eq, bytes_eq→eq,
  has_prefix, arith,
}
use wago_emscripten.Host.{
  ValType, val_i32, value_type, value_types, invoke_signature, is_listed, add_signature,
  add_signatures, integer_signatures, extra_signatures, invoke_signatures, invoke_prefix,
  supports_invoke,
}

-- Whether a signature can be registered.
is_typed : List ℕ → Bool
unfolding invoke_signature
is_typed s = elim (invoke_signature s) [ none ↦ false | some t ↦ true ]

all_typed : List (List ℕ) → Bool
unfolding is_typed
all_typed [] = true
all_typed (s ∷ ss) = is_typed s && all_typed ss

listed_typed :
    (s : List ℕ) (ss : List (List ℕ))
    → all_typed ss ≡ true
    → is_listed s ss ≡ true
    → is_typed s ≡ true
unfolding all_typed is_listed
listed_typed s [] h e = absurd (ground arith)
listed_typed s (t ∷ ts) h e = elim (Bool-cases (bytes_eq t s)) [
  | inl z ↦
      let same : t ≡ s = bytes_eq→eq t s z in subst (λ u. is_typed u ≡ true) same (ground arith)
  | inr z ↦ listed_typed s ts (ground arith) (ground arith)
]

append_typed :
    (ss : List (List ℕ)) (s : List ℕ)
    → all_typed ss ≡ true
    → is_typed s ≡ true
    → all_typed (ss ++ s ∷ []) ≡ true
unfolding all_typed
append_typed [] s h k = ground arith
append_typed (t ∷ ts) s h k = ground (arith, append_typed ts s (ground arith) k)

add_typed :
    (listed ss : List (List ℕ))
    → all_typed listed ≡ true
    → all_typed ss ≡ true
    → all_typed (add_signatures listed ss) ≡ true
unfolding all_typed add_signatures add_signature
add_typed listed [] h k = h
add_typed listed (s ∷ ss) h k = elim (Bool-cases (is_listed s listed)) [
  | inl z ↦ rw z (add_typed listed ss h (ground arith))
  | inr z ↦
      rw z (add_typed (listed ++ s ∷ []) ss (append_typed listed s h (ground arith)) (ground arith))
]

integers_typed : all_typed (integer_signatures 17 0) ≡ true
unfolding all_typed is_typed integer_signatures invoke_signature value_types
integers_typed = refl

extras_typed : all_typed extra_signatures ≡ true
unfolding all_typed is_typed invoke_signature value_types
extras_typed = refl

invoke_signatures-typed : all_typed invoke_signatures ≡ true
unfolding invoke_signatures
invoke_signatures-typed =
    add_typed (add_signatures [] (integer_signatures 17 0)) extra_signatures
      (add_typed [] (integer_signatures 17 0) (unfold all_typed in refl) integers_typed)
      extras_typed

length-value_types :
    (codes : List ℕ) (ts : List ValType) → value_types codes ≡ some ts → length ts ≡ length codes
unfolding value_types
length-value_types [] ts e = let same : [] ≡ ts = ground arith in ap length (sym same)
length-value_types (c ∷ cs) ts e = elim (Option-cases (value_type c)) [
  | inl z ↦ absurd (ground arith)
  | inr (t, z) ↦ elim (Option-cases (value_types cs)) [
    | inl y ↦ absurd (ground arith)
    | inr (us, y) ↦
        let same : t ∷ us ≡ ts = ground arith in
        ap length (sym same) ∙ ap suc (length-value_types cs us y)
  ]
]

typed_lem :
    (s : List ℕ)
    → is_typed s ≡ true
    → (params : List ValType) × (results : List ValType) × (invoke_signature s
        ≡ some (val_i32 ∷ params, results))
      × (length params + 1 ≡ length s)
      × (length results ≤ 1)
unfolding is_typed invoke_signature
typed_lem [] e = absurd (ground arith)
typed_lem (r ∷ cs) e = elim (Option-cases (value_types cs)) [
  | inl z ↦ absurd (ground arith)
  | inr (ts, z) ↦
      let size : length ts + 1 ≡ suc (length cs) = omega (arith, length-value_types cs ts z) in
      elim (Bool-cases (r == b'v')) [
        | inl y ↦ (ts, [], rw (z, invoke_signature) (rw y), size, omega arith)
        | inr y ↦ elim (Option-cases (value_type r)) [
          | inl x ↦ absurd (ground arith)
          | inr (t, x) ↦ (ts, t ∷ [], rw (z, invoke_signature) (rw y (rw x)), size, omega arith)
        ]
      ]
]

-- Every import name that `supportsInvoke` takes for a trampoline has a signature behind `invoke_`
-- that `invokeSignature` can read: the table index and one parameter for each further letter, and at
-- most one result.
pub supports_invoke_lem :
    (name : List ℕ)
    → supports_invoke name ≡ true
    → (params : List ValType) × (results : List ValType) × (invoke_signature (drop 7 name)
        ≡ some (val_i32 ∷ params, results))
      × (length params + 1 ≡ length (drop 7 name))
      × (length results ≤ 1)
unfolding supports_invoke
supports_invoke_lem name e =
    typed_lem (drop 7 name)
      (listed_typed (drop 7 name) invoke_signatures invoke_signatures-typed (ground arith))

is_listed-append :
    (s t : List ℕ) (ss : List (List ℕ))
    → is_listed s (ss ++ t ∷ []) ≡ is_listed s ss || bytes_eq t s
unfolding is_listed
is_listed-append s t [] = ground arith
is_listed-append s t (u ∷ us) = ground (arith, is_listed-append s t us)

is_listed-add_signatures :
    (s : List ℕ) (listed ss : List (List ℕ))
    → is_listed s (add_signatures listed ss) ≡ is_listed s listed || is_listed s ss
unfolding is_listed add_signatures add_signature
is_listed-add_signatures s listed [] = ground arith
is_listed-add_signatures s listed (t ∷ ts) = elim (Bool-cases (is_listed t listed)) [
  | inl z ↦ elim (Bool-cases (bytes_eq t s)) [
    | inl y ↦
        let known : is_listed s listed ≡ true =
          subst (λ u. is_listed u listed ≡ true) (bytes_eq→eq t s y) z in
        rw z (ground (arith, is_listed-add_signatures s listed ts))
    | inr y ↦ rw z (ground (arith, is_listed-add_signatures s listed ts))
  ]
  | inr z ↦ rw z (
      ground (arith, is_listed-add_signatures s (listed ++ t ∷ []) ts, is_listed-append s t listed))
]

-- An import is taken for a trampoline exactly if its name is `invoke_` with one of the signatures of
-- at most 16 integers, or with one of the extra ones; that no signature is listed twice drops none.
pub supports_invoke-exact :
    (name : List ℕ)
    → supports_invoke name
      ≡ has_prefix name invoke_prefix
        && (is_listed (drop 7 name) (integer_signatures 17 0)
            || is_listed (drop 7 name) extra_signatures)
unfolding supports_invoke invoke_signatures is_listed
supports_invoke-exact name = ground (
  arith,
  is_listed-add_signatures (drop 7 name) (add_signatures [] (integer_signatures 17 0))
      extra_signatures,
  is_listed-add_signatures (drop 7 name) [] (integer_signatures 17 0),
)
