-- ===== src/GoJs/Ready.antt =====
-- gojs.go: every call keeps the predefined values in their places.
pub mod Calling
pub mod Copying
pub mod Steps
pub mod Dispatch
pub mod Programs
use wago_emscripten.Common.{
  ℕ, zero, suc, ◌+◌, ◌-◌, ◌*◌, ◌/◌, ◌%◌, ◌^◌, ◌≤◌, ◌<◌, Bool, true, false, not, ◌&&◌, ◌||◌, ◌≡◌,
  refl, sym, ap, subst, ◌∙◌, inl, inr, Option, none, some, List, [], ◌∷◌, ◌++◌, length, get_elem?,
  set, take, drop, ltb, leb, ◌==◌, ==_refl, ==→eq, if◌then◌else◌, u32, Bool-cases, Option-cases,
  get_elem?-append_one, get_elem?-set, get_elem?-lt, length-append, get_elem?-length, Map, lookup,
  insert, lookup-insert, nat_eq, some_inj, arith,
}
use wago_emscripten.Memory.{get_u64}
use wago_emscripten.GoJs.{
  Callable, Ref, JsValue, undefined, null, number, boolean, string, object, array, bytes, function,
  GoState, allocate, value_at, is_inside, load_bits, load_value, put_new, put_value, put_some,
  store_value, store_new,
}
use wago_emscripten.GoJs.Floats.{is_nan, is_zero, nan}
use wago_emscripten.GoJs.Values.{entry, IsReady}

-- The values that are never changed.
abbrev pub is_fixed : JsValue → Bool
is_fixed null = true
is_fixed (number bits) = true
is_fixed (boolean truth) = true
is_fixed _ = false

-- Between two states, the predefined entries that hold a fixed value keep it, and at most `k`
-- identifiers have been given out.
pub record Grows (k : ℕ) (st st' : GoState) : Type 0 where
  pub keeps :
      (id : ℕ) (u : JsValue)
      → id < 7
      → is_fixed u ≡ true
      → entry st id ≡ some u
      → entry st' id ≡ some u
  pub at_least : st.next_id ≤ st'.next_id
  pub at_most : st'.next_id ≤ st.next_id + k

pub Grows-refl : (st : GoState) → Grows 0 st st
Grows-refl st = record {
  keeps = λ id u small fixed e. e;
  at_least = omega arith;
  at_most = omega arith;
}

pub Grows-trans : (j k : ℕ) (a b c : GoState) → Grows j a b → Grows k b c → Grows (j + k) a c
Grows-trans j k a b c g h = record {
  keeps = λ id u small fixed e. h.keeps id u small fixed (g.keeps id u small fixed e);
  at_least = omega (arith, g.at_least, h.at_least);
  at_most = omega (arith, g.at_most, h.at_most);
}

pub Grows-weaken : (j k : ℕ) (a b : GoState) → j ≤ k → Grows j a b → Grows k a b
Grows-weaken j k a b h g = record {
  keeps = g.keeps;
  at_least = g.at_least;
  at_most = omega (arith, g.at_most);
}

pub Grows-IsReady : (k : ℕ) (a b : GoState) → Grows k a b → IsReady a → IsReady b
Grows-IsReady k a b g r = record {
  nan_entry = g.keeps 0 (number nan) (omega arith) refl r.nan_entry;
  zero_entry = g.keeps 1 (number 0) (omega arith) refl r.zero_entry;
  null_entry = g.keeps 2 null (omega arith) refl r.null_entry;
  true_entry = g.keeps 3 (boolean true) (omega arith) refl r.true_entry;
  false_entry = g.keeps 4 (boolean false) (omega arith) refl r.false_entry;
  behind_predefined = omega (arith, r.behind_predefined, g.at_least);
}

-- An entry by its address.
pub entry-at :
    (st : GoState) (id : ℕ) {u : JsValue}
    → entry st id ≡ some u
    → (a : ℕ) × (lookup id st.values ≡ some a) × (get_elem? st.heap a ≡ some u)
unfolding entry
entry-at st id {u} e = elim (Option-cases (lookup id st.values)) [
  | inl z ↦ absurd (ground arith)
  | inr (a, z) ↦ (a, z, ground arith)
]

pub entry-of :
    (st : GoState) (id a : ℕ) → lookup id st.values ≡ some a → entry st id ≡ get_elem? st.heap a
unfolding entry
entry-of st id a z = rw (z, entry) refl

get_elem?-grown :
    (xs ys : List JsValue) (a : ℕ) {u : JsValue}
    → get_elem? xs a ≡ some u
    → get_elem? (xs ++ ys) a ≡ some u
get_elem?-grown [] ys a e = absurd (ground (arith, e))
get_elem?-grown (x ∷ xs) ys zero e = e
get_elem?-grown (x ∷ xs) ys (suc a) e = get_elem?-grown xs ys a e

-- New values stand behind the old ones.
pub Grows-append :
    (st : GoState) (vs : List JsValue) → Grows 0 st (record st { heap = st.heap ++ vs })
Grows-append st vs = record {
  keeps = λ id u small fixed e.
      (let (a, there, is) = entry-at st id e in
        entry-of (record st { heap = st.heap ++ vs }) id a there ∙ get_elem?-grown st.heap vs a is);
  at_least = omega arith;
  at_most = omega arith;
}

-- A value that is not fixed may be changed.
pub Grows-set :
    (st : GoState) (a : ℕ) (old new : JsValue)
    → get_elem? st.heap a ≡ some old
    → is_fixed old ≡ false
    → Grows 0 st (record st { heap = set st.heap a new })
Grows-set st a old new at_a loose = record {
  keeps = λ id u small fixed e.
      (let (b, there, is) = entry-at st id e in
        entry-of (record st { heap = set st.heap a new }) id b there ∙ other b u fixed is);
  at_least = omega arith;
  at_most = omega arith;
}
  where
    other :
        (b : ℕ) (u : JsValue)
        → is_fixed u ≡ true
        → get_elem? st.heap b ≡ some u
        → get_elem? (set st.heap a new) b ≡ some u
    other b u fixed is = elim (Bool-cases (a == b)) [
      | inr away ↦ get_elem?-set st.heap a b new (get_elem?-lt st.heap a at_a) ∙ rw away is
      | inl same ↦
          let here : a ≡ b = ==→eq a b same in
          let both : some u ≡ some old = sym is ∙ ap (get_elem? st.heap) (sym here) ∙ at_a in
          let equal : u ≡ old = some_inj both in
          absurd (ground (arith, ap is_fixed equal, fixed, loose))
    ]

-- An entry that is given out stands behind the predefined ones.
pub Grows-put_new :
    (st : GoState) (memory : List ℕ) (offset a flag : ℕ)
    → 7 ≤ st.next_id
    → st.next_id + 1 < 2 ^ 32
    → Grows 1 st (put_new st memory offset a flag).1
unfolding put_new
Grows-put_new st memory offset a flag low high = record {
  keeps = λ id u small fixed e.
      (let (b, there, is) = entry-at st id e in
        let away : (st.next_id == id) ≡ false = ground arith in
        entry-of (put_new st memory offset a flag).1 id b
          (lookup-insert st.next_id id a st.values ∙ rw away there)
        ∙ is);
  at_least = omega arith;
  at_most = omega arith;
}

module _ (st : GoState) (memory : List ℕ) (offset : ℕ) (low : 7 ≤ st.next_id)
    (high : st.next_id + 1 < 2 ^ 32) where
  same_state : Grows 1 st st
  same_state = Grows-weaken 0 1 st st (omega arith) (Grows-refl st)

  Grows-put_value : (a : ℕ) (v : JsValue) → Grows 1 st (put_value st memory offset a v).1
  unfolding put_value
  Grows-put_value a undefined = same_state
  Grows-put_value a null = same_state
  Grows-put_value a (number bits) = elim (Bool-cases (is_zero bits)) [
    | inl z ↦ rw z same_state
    | inr z ↦ elim (Bool-cases (is_nan bits)) [
      | inl y ↦ rw z (rw y same_state)
      | inr y ↦ rw z (rw y same_state)
    ]
  ]
  Grows-put_value a (boolean truth) = same_state
  Grows-put_value a (string text) = Grows-put_new st memory offset a 2 low high
  Grows-put_value a (object fields) = Grows-put_new st memory offset a 1 low high
  Grows-put_value a (array items) = Grows-put_new st memory offset a 1 low high
  Grows-put_value a (bytes bs) = Grows-put_new st memory offset a 1 low high
  Grows-put_value a (function f) = Grows-put_new st memory offset a 4 low high

  Grows-put_some : (r : Ref) (v : Option JsValue) → Grows 1 st (put_some st memory offset r v).1
  unfolding put_some
  Grows-put_some none v = same_state
  Grows-put_some (some a) none = same_state
  Grows-put_some (some a) (some v) = Grows-put_value a v

  -- A store gives out one identifier at most.
  pub Grows-store_value : (r : Ref) → Grows 1 st (store_value st memory offset r).1
  unfolding store_value
  Grows-store_value r = elim (Bool-cases (is_inside memory offset 8)) [
    | inl z ↦ rw z (Grows-put_some r (value_at st r))
    | inr z ↦ rw z same_state
  ]

-- A load only makes new values.
pub Grows-load_value :
    (st : GoState) (memory : List ℕ) (offset : ℕ) → Grows 0 st (load_value st memory offset).1
unfolding load_value load_bits allocate
Grows-load_value st memory offset = elim (Bool-cases (is_inside memory offset 8)) [
  | inr z ↦ rw z (Grows-refl st)
  | inl z ↦ rw z (by_bits (get_u64 memory offset))
]
  where
    by_bits : (bits : ℕ) → Grows 0 st (load_bits st bits).1
    by_bits bits = elim (Bool-cases (bits == 0)) [
      | inl y ↦ rw y (Grows-append st (undefined ∷ []))
      | inr y ↦ elim (Bool-cases (is_nan bits)) [
        | inl x ↦ rw y (rw x (Grows-refl st))
        | inr x ↦ rw y (rw x (Grows-append st (number bits ∷ [])))
      ]
    ]
