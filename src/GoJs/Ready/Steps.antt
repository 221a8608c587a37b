-- ===== src/GoJs/Ready/Steps.antt =====
-- gojs.go: the calls on values keep the predefined values in their places.
use wago_emscripten.Common.{
  ℕ, ◌≡◌, refl, inl, inr, Option, none, some, List, get_elem?, Bool-cases, Option-cases, bytes_key,
  arith,
}
use wago_emscripten.GoJs.{
  Ref, JsValue, number, string, object, array, bytes, GoState, value_at, load_value,
}
use wago_emscripten.GoJs.Floats.{Machine}
use wago_emscripten.GoJs.Access.{is_nonneg, load_go_values}
use wago_emscripten.GoJs.Calls.{
  Values, behind, go_string_val, go_value_get, set_field, go_value_set, get_item, read_or_zero,
  go_value_index, set_item, go_value_set_index, go_value_new, go_value_length, go_prepare_string,
  go_load_string,
}
use wago_emscripten.GoJs.Ready.{
  Grows, Grows-refl, Grows-weaken, Grows-append, Grows-set, Grows-load_value,
}
use wago_emscripten.GoJs.Ready.Calling.{
  HasRoom, Grows-both, Grows-store, Grows-store_new, Grows-load_go_values, Grows-call_code,
  Grows-store_returned,
}

pub Grows-set_field :
    (st : GoState) (target : Ref) (property : List ℕ) (v : Ref)
    → Grows 0 st (set_field st target property v)
unfolding set_field
Grows-set_field st none property v = Grows-refl st
Grows-set_field st (some a) property v = by_kind (get_elem? st.heap a) refl
  where
    by_kind :
        (o : Option JsValue)
        → get_elem? st.heap a ≡ o
        → Grows 0 st (set_field st (some a) property v)
    by_kind none e = rw (e, set_field) (Grows-refl st)
    by_kind (some (object fields)) e = rw (e, set_field) (Grows-set st a (object fields) _ e refl)
    by_kind (some _) e = rw (e, set_field) (Grows-refl st)

Grows-set_item :
    (k : Machine) (st : GoState) (target : Ref) (index : ℕ) (v : Ref)
    → Grows 0 st (set_item k st target index v)
unfolding set_item
Grows-set_item k st none index v = Grows-refl st
Grows-set_item k st (some a) index v = by_kind (get_elem? st.heap a) refl
  where
    by_value :
        (bs : List ℕ) (o : Option JsValue)
        → get_elem? st.heap a ≡ some (bytes bs)
        → value_at st v ≡ o
        → Grows 0 st (set_item k st (some a) index v)
    by_value bs none e f = rw (e, set_item) (rw (f, set_item) (Grows-refl st))
    by_value bs (some (number bits)) e f =
        rw (e, set_item) (rw (f, set_item) (Grows-set st a (bytes bs) _ e refl))
    by_value bs (some _) e f = rw (e, set_item) (rw (f, set_item) (Grows-refl st))

    by_kind :
        (o : Option JsValue) → get_elem? st.heap a ≡ o → Grows 0 st (set_item k st (some a) index v)
    by_kind none e = rw (e, set_item) (Grows-refl st)
    by_kind (some (array items)) e = rw (e, set_item) (Grows-set st a (array items) _ e refl)
    by_kind (some (bytes bs)) e = by_value bs (value_at st v) e refl
    by_kind (some _) e = rw (e, set_item) (Grows-refl st)

Grows-get_item :
    (st : GoState) (v : Option JsValue) (index : ℕ) → Grows 0 st (get_item st v index).1
unfolding get_item
Grows-get_item st none index = Grows-refl st
Grows-get_item st (some (bytes bs)) index = elim (Option-cases (get_elem? bs index)) [
  | inl z ↦ rw (z, get_item) (Grows-refl st)
  | inr (b, z) ↦ rw (z, get_item) (Grows-append st _)
]
Grows-get_item st (some (string text)) index = elim (Option-cases (get_elem? text index)) [
  | inl z ↦ rw (z, get_item) (Grows-refl st)
  | inr (b, z) ↦ rw (z, get_item) (Grows-append st _)
]
Grows-get_item st (some _) index = Grows-refl st

-- Each call on values gives out one identifier at most.
module _ (sp : ℕ) (w : Values) (h : HasRoom w.state) where
  pub Grows-go_string_val : Grows 1 w.state (go_string_val sp w).state
  unfolding go_string_val
  Grows-go_string_val = Grows-store_new w.state w.state _ _ _ h (Grows-refl w.state)

  pub Grows-go_value_get : Grows 1 w.state (go_value_get sp w).state
  unfolding go_value_get
  Grows-go_value_get =
      Grows-store w.state _ _ _ _ h (Grows-load_value w.state w.memory (behind sp 8))

  pub Grows-go_value_set : Grows 1 w.state (go_value_set sp w).state
  unfolding go_value_set
  Grows-go_value_set =
      let target = load_value w.state w.memory (behind sp 8) in
      let v = load_value target.1 w.memory (behind sp 32) in
      Grows-weaken 0 1 w.state _ (omega arith) (
        Grows-both w.state target.1 _ (Grows-load_value w.state w.memory (behind sp 8)) (
          Grows-both target.1 v.1 _ (Grows-load_value target.1 w.memory (behind sp 32))
            (Grows-set_field v.1 target.0 _ v.0)))

  pub Grows-go_value_index : Grows 1 w.state (go_value_index sp w).state
  unfolding go_value_index
  Grows-go_value_index =
      let index = read_or_zero w.memory (behind sp 16) in
      let v = load_value w.state w.memory (behind sp 8) in
      let loaded = Grows-load_value w.state w.memory (behind sp 8) in
      elim (Bool-cases (is_nonneg index)) [
        | inl z ↦ rw z (
            Grows-store w.state _ _ _ _ h
              (Grows-both w.state v.1 _ loaded (Grows-get_item v.1 (value_at v.1 v.0) index)))
        | inr z ↦ rw z (Grows-store w.state v.1 w.memory (behind sp 24) none h loaded)
      ]

  pub Grows-go_value_set_index : (k : Machine) → Grows 1 w.state (go_value_set_index k sp w).state
  unfolding go_value_set_index
  Grows-go_value_set_index k =
      let index = read_or_zero w.memory (behind sp 16) in
      let target = load_value w.state w.memory (behind sp 8) in
      let v = load_value target.1 w.memory (behind sp 24) in
      let loaded =
        Grows-both w.state target.1 v.1 (Grows-load_value w.state w.memory (behind sp 8))
          (Grows-load_value target.1 w.memory (behind sp 24)) in
      elim (Bool-cases (is_nonneg index)) [
        | inl z ↦ rw z (
            Grows-weaken 0 1 w.state _ (omega arith)
              (Grows-both w.state v.1 _ loaded (Grows-set_item k v.1 target.0 index v.0)))
        | inr z ↦ rw z (Grows-weaken 0 1 w.state v.1 (omega arith) loaded)
      ]

  pub Grows-go_value_new :
      (k : Machine) (millis : ℕ) → Grows 1 w.state (go_value_new k millis sp w).state
  unfolding go_value_new
  Grows-go_value_new k millis =
      let constructor = load_value w.state w.memory (behind sp 8) in
      let args = load_go_values constructor.1 w.memory (behind sp 16) in
      Grows-store_returned w.state _ (behind sp 40) _ h (
        Grows-both w.state constructor.1 _ (Grows-load_value w.state w.memory (behind sp 8)) (
          Grows-both constructor.1 args.1 _
            (Grows-load_go_values constructor.1 w.memory (behind sp 16))
            (Grows-call_code k millis _ _ args.0 args.1)))

  pub Grows-go_value_length : Grows 1 w.state (go_value_length sp w).state
  unfolding go_value_length
  Grows-go_value_length =
      Grows-weaken 0 1 w.state _ (omega arith) (Grows-load_value w.state w.memory (behind sp 8))

  pub Grows-go_prepare_string : (k : Machine) → Grows 1 w.state (go_prepare_string k sp w).state
  unfolding go_prepare_string
  Grows-go_prepare_string k =
      Grows-store_new w.state _ _ _ _ h (Grows-load_value w.state w.memory (behind sp 8))

  pub Grows-go_load_string : Grows 1 w.state (go_load_string sp w).state
  unfolding go_load_string
  Grows-go_load_string =
      Grows-weaken 0 1 w.state _ (omega arith) (Grows-load_value w.state w.memory (behind sp 8))
