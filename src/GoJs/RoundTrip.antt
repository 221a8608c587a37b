-- ===== src/GoJs/RoundTrip.antt =====
-- gojs.go: a value that is stored in the program's memory and loaded again.
use wago_emscripten.Common.{
  ℕ, ◌+◌, ◌^◌, ◌≤◌, ◌<◌, Bool, true, false, ◌≡◌, refl, ap, ◌∙◌, inl, inr, Option, some, List, [],
  ◌∷◌, ◌++◌, length, get_elem?, ◌==◌, Bool-cases, Option-cases, ==_refl, get_elem?-append_one,
  lookup, lookup-insert_self, nat_eq, bytes_key, arith,
}
use wago_emscripten.Memory.{put_u64}
use wago_emscripten.GoJs.{
  JsValue, undefined, null, number, boolean, string, object, array, bytes, function, GoState,
  value_at, is_inside, load_bits, load_value, put_ref, put_new, put_value, put_some, store_value,
}
use wago_emscripten.GoJs.Floats.{is_nan, is_zero}
use wago_emscripten.GoJs.Values.{entry, IsReady, normal, IsValue, load-put_u64, load-put_ref}

-- The value that is loaded back.
unfoldable pub back : List ℕ × GoState → ℕ → Option JsValue
unfolding load_value value_at
back r offset = let loaded = load_value r.1 r.0 offset in value_at loaded.1 loaded.0

entry-value_at : (st : GoState) (id : ℕ) → value_at st (lookup id st.values) ≡ entry st id
unfolding value_at entry
entry-value_at st id = elim (Option-cases (lookup id st.values)) [
  | inl z ↦ rw (z, entry) refl
  | inr (a, z) ↦ rw (z, entry) refl
]

-- A pattern that is not a NaN's is loaded as a new value.
new_value : (st : GoState) (v : JsValue) → get_elem? (st.heap ++ v ∷ []) (length st.heap) ≡ some v
new_value st v =
    get_elem?-append_one st.heap v (length st.heap) ∙ rw (==_refl (length st.heap)) refl

zero_pattern : (bits : ℕ) → bits < 2 ^ 64 → is_zero bits ≡ false → (bits == 0) ≡ false
unfolding is_zero
zero_pattern bits h e = ground arith

module _ (st : GoState) (memory : List ℕ) (offset : ℕ) (room : offset + 8 ≤ length memory)
    (ready : IsReady st) (more : st.next_id < 2 ^ 32) where
  back-put_u64 :
      (v : ℕ) {u : Option JsValue}
      → v < 2 ^ 64
      → (let l = load_bits st v in value_at l.1 l.0) ≡ u
      → back (put_u64 memory offset v, st) offset ≡ u
  unfolding back
  back-put_u64 v h e = ap (λ l. value_at l.1 l.0) (load-put_u64 st memory offset room v h) ∙ e

  back-put_ref :
      (id flag : ℕ)
      → id < 2 ^ 32
      → flag < 8
      → back (put_ref memory offset id flag, st) offset ≡ entry st id
  unfolding back entry value_at
  back-put_ref id flag small few =
      ap (λ l. value_at l.1 l.0) (load-put_ref st memory offset room id flag small few)
      ∙ entry-value_at st id

  back-put_new :
      (a flag : ℕ) → flag < 8 → back (put_new st memory offset a flag) offset ≡ get_elem? st.heap a
  unfolding back put_new value_at
  back-put_new a flag few =
      let st' : GoState = (put_new st memory offset a flag).1 in
      ap (λ l. value_at l.1 l.0) (load-put_ref st' memory offset room st.next_id flag more few)
      ∙ ap (λ r. value_at st' r) (lookup-insert_self st.next_id a st.values)

  back-put_value :
      (a : ℕ) (v : JsValue)
      → IsValue v
      → get_elem? st.heap a ≡ some v
      → back (put_value st memory offset a v) offset ≡ some (normal v)
  unfolding put_value load_bits value_at
  back-put_value a undefined h e = back-put_u64 0 (omega arith) (new_value st undefined)
  back-put_value a null h e = back-put_ref 2 0 (omega arith) (omega arith) ∙ ready.null_entry
  back-put_value a (number bits) h e = elim (Bool-cases (is_zero bits)) [
    | inl z ↦ rw z (back-put_ref 1 0 (omega arith) (omega arith) ∙ ready.zero_entry)
    | inr z ↦ elim (Bool-cases (is_nan bits)) [
      | inl y ↦ rw z (rw y (back-put_ref 0 0 (omega arith) (omega arith) ∙ ready.nan_entry))
      | inr y ↦ rw z (
          rw y
            (back-put_u64 bits h (rw (zero_pattern bits h z) (rw y (new_value st (number bits))))))
    ]
  ]
  back-put_value a (boolean true) h e =
      back-put_ref 3 0 (omega arith) (omega arith) ∙ ready.true_entry
  back-put_value a (boolean false) h e =
      back-put_ref 4 0 (omega arith) (omega arith) ∙ ready.false_entry
  back-put_value a (string text) h e = back-put_new a 2 (omega arith) ∙ e
  back-put_value a (object fields) h e = back-put_new a 1 (omega arith) ∙ e
  back-put_value a (array items) h e = back-put_new a 1 (omega arith) ∙ e
  back-put_value a (bytes bs) h e = back-put_new a 1 (omega arith) ∙ e
  back-put_value a (function f) h e = back-put_new a 4 (omega arith) ∙ e

-- A value that is stored where 8 bytes lie in memory is loaded back from there: a zero without its
-- sign, any NaN as the one NaN, and all else as it is. The predefined values must be in their places,
-- and the next identifier a 32-bit number.
pub load_value-store_value :
    (st : GoState) (memory : List ℕ) (offset a : ℕ) (v : JsValue)
    → offset + 8 ≤ length memory
    → IsReady st
    → st.next_id < 2 ^ 32
    → IsValue v
    → get_elem? st.heap a ≡ some v
    → back (store_value st memory offset (some a)) offset ≡ some (normal v)
unfolding store_value put_some value_at
load_value-store_value st memory offset a v room ready more h e =
    let inside : is_inside memory offset 8 ≡ true = ground arith in
    rw inside (rw (e) (back-put_value st memory offset room ready more a v h e))

-- The kinds that a program holds by reference.
abbrev pub is_shared : JsValue → Bool
is_shared (string text) = true
is_shared (object fields) = true
is_shared (array items) = true
is_shared (bytes bs) = true
is_shared (function f) = true
is_shared _ = false

-- A text, an object, an array, bytes or a function that is stored where 8 bytes lie in memory is loaded
-- back as the same reference, so that a change through it is seen by all its holders; the next
-- identifier must be a 32-bit number.
pub load_value-store_value_shared :
    (st : GoState) (memory : List ℕ) (offset a : ℕ) (v : JsValue)
    → offset + 8 ≤ length memory
    → st.next_id < 2 ^ 32
    → is_shared v ≡ true
    → get_elem? st.heap a ≡ some v
    → (load_value
        (store_value st memory offset (some a)).1
        (store_value st memory offset (some a)).0
        offset).0
      ≡ some a
unfolding store_value put_some put_value put_new value_at
load_value-store_value_shared st memory offset a v room more h e =
    let inside : is_inside memory offset 8 ≡ true = ground arith in rw inside (rw e (by_kind v h))
  where
    fresh :
        (flag : ℕ)
        → flag < 8
        → (load_value
            (put_new st memory offset a flag).1
            (put_new st memory offset a flag).0
            offset).0
          ≡ some a
    fresh flag few =
        ap (λ l. l.0)
          (load-put_ref (put_new st memory offset a flag).1 memory offset room st.next_id flag more
            few)
        ∙ lookup-insert_self st.next_id a st.values

    by_kind :
        (v : JsValue)
        → is_shared v ≡ true
        → (load_value
            (put_value st memory offset a v).1
            (put_value st memory offset a v).0
            offset).0
          ≡ some a
    by_kind undefined h = cc
    by_kind null h = cc
    by_kind (number bits) h = cc
    by_kind (boolean truth) h = cc
    by_kind (string text) h = fresh 2 (omega arith)
    by_kind (object fields) h = fresh 1 (omega arith)
    by_kind (array items) h = fresh 1 (omega arith)
    by_kind (bytes bs) h = fresh 1 (omega arith)
    by_kind (function f) h = fresh 4 (omega arith)
