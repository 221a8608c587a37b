-- ===== src/GoJs/Ready/Calling.antt =====
-- gojs.go: storing and loading values and calling functions keep a table ready.
use wago_emscripten.Common.{
  ℕ, zero, suc, ◌+◌, ◌^◌, ◌≤◌, ◌<◌, inl, inr, Option, none, some, List, [], ◌∷◌, ◌++◌, length, ltb,
  u32, Bool-cases, Option-cases, bytes_key, arith,
}
use wago_emscripten.GoJs.{
  Callable, minus_one, cwd, unsupported, fs_write, write_sync, uint8_array, now, make_func_wrapper,
  callback, Ref, JsValue, string, GoState, allocate, value_at, load_value, store_value, store_new,
}
use wago_emscripten.GoJs.Floats.{Machine}
use wago_emscripten.GoJs.Access.{
  read_pair, load_list, load_go_values, get_field, argument, bytes_of, Returned, returned, failed,
  call_function, code_of,
}
use wago_emscripten.GoJs.Calls.{Values, behind, store_returned, call_code, call_method}
use wago_emscripten.GoJs.Ready.{
  Grows, Grows-refl, Grows-trans, Grows-append, Grows-store_value, Grows-load_value,
}

-- The identifiers given out are behind the predefined ones, and there is one more.
pub record HasRoom (st : GoState) : Type 0 where
  pub low : 7 ≤ st.next_id
  pub high : st.next_id + 1 < 2 ^ 32

pub HasRoom-grown : (a b : GoState) → Grows 0 a b → HasRoom a → HasRoom b
HasRoom-grown a b g h = record {
  low = omega (arith, g.at_least, h.low);
  high = omega (arith, g.at_most, h.high);
}

-- What makes new values only, and then what makes new values or stores one.
pub Grows-both : (a b c : GoState) → Grows 0 a b → Grows 0 b c → Grows 0 a c
Grows-both a b c g h = Grows-trans 0 0 a b c g h

pub Grows-then : (a b c : GoState) → Grows 0 a b → Grows 1 b c → Grows 1 a c
Grows-then a b c g h = Grows-trans 0 1 a b c g h

pub Grows-store :
    (a b : GoState) (memory : List ℕ) (offset : ℕ) (r : Ref)
    → HasRoom a
    → Grows 0 a b
    → Grows 1 a (store_value b memory offset r).1
Grows-store a b memory offset r h g =
    let h' = HasRoom-grown a b g h in
    Grows-then a b _ g (Grows-store_value b memory offset h'.low h'.high r)

pub Grows-store_new :
    (a b : GoState) (memory : List ℕ) (offset : ℕ) (v : JsValue)
    → HasRoom a
    → Grows 0 a b
    → Grows 1 a (store_new b memory offset v).1
unfolding store_new allocate
Grows-store_new a b memory offset v h g =
    let b' : GoState = record b { heap = b.heap ++ v ∷ [] } in
    Grows-store a b' memory offset (some (length b.heap)) h
      (Grows-both a b b' g (Grows-append b (v ∷ [])))

Grows-load_list :
    (count : ℕ) (st : GoState) (memory : List ℕ) (address : ℕ)
    → Grows 0 st (load_list st memory address count).1
unfolding load_list
Grows-load_list zero st memory address = Grows-refl st
Grows-load_list (suc count) st memory address =
    let first = load_value st memory address in
    Grows-both st first.1 _ (Grows-load_value st memory address)
      (Grows-load_list count first.1 memory (u32 (address + 8)))

pub Grows-load_go_values :
    (st : GoState) (memory : List ℕ) (descriptor : ℕ)
    → Grows 0 st (load_go_values st memory descriptor).1
unfolding load_go_values
Grows-load_go_values st memory descriptor = elim (Option-cases (read_pair memory descriptor)) [
  | inl z ↦ rw (z, load_go_values) (Grows-refl st)
  | inr ((ptr, len), z) ↦ elim (Bool-cases (ltb (2 ^ 20) len)) [
    | inl y ↦ rw (z, load_go_values) (rw y (Grows-refl st))
    | inr y ↦ rw (z, load_go_values) (rw y (Grows-load_list len st memory (u32 ptr)))
  ]
]

Grows-call_function :
    (k : Machine) (millis : ℕ) (f : Callable) (args : List Ref) (st : GoState)
    → Grows 0 st (call_function k millis f args st).1
unfolding call_function
Grows-call_function k millis minus_one args st = Grows-append st _
Grows-call_function k millis cwd args st = Grows-append st _
Grows-call_function k millis unsupported args st = Grows-refl st
Grows-call_function k millis fs_write args st = Grows-append st _
Grows-call_function k millis write_sync args st =
    elim (Option-cases (bytes_of (value_at st (argument args 1)))) [
      | inl z ↦ rw (z, call_function) (Grows-append st _)
      | inr (bs, z) ↦ rw (z, call_function) (Grows-append st _)
    ]
Grows-call_function k millis uint8_array args st = Grows-append st _
Grows-call_function k millis now args st = Grows-append st _
Grows-call_function k millis make_func_wrapper args st = Grows-append st _
Grows-call_function k millis (callback id) args st = Grows-refl st

pub Grows-call_code :
    (k : Machine) (millis : ℕ) (unavailable : List ℕ) (code : Option Callable)
    (args : Option (List Ref)) (st : GoState)
    → Grows 0 st (call_code k millis unavailable code args st).1
unfolding call_code
Grows-call_code k millis unavailable (some f) (some args) st =
    Grows-call_function k millis f args st
Grows-call_code k millis unavailable (some f) none st = Grows-refl st
Grows-call_code k millis unavailable none args st = Grows-refl st

pub Grows-store_returned :
    (a : GoState) (w : Values) (at_value : ℕ) (r : Returned)
    → HasRoom a
    → Grows 0 a w.state
    → Grows 1 a (store_returned w at_value r).state
unfolding store_returned
Grows-store_returned a w at_value (returned r) h g = Grows-store a w.state w.memory at_value r h g
Grows-store_returned a w at_value (failed text) h g =
    Grows-store_new a w.state w.memory at_value (string text) h g

pub Grows-call_method :
    (k : Machine) (millis sp : ℕ) (memory method : List ℕ) (receiver : Ref)
    (args : Option (List Ref)) (a st : GoState)
    → HasRoom a
    → Grows 0 a st
    → Grows 1 a (call_method k millis sp memory method receiver args st).state
unfolding call_method
Grows-call_method k millis sp memory method receiver args a st h g =
    let code = code_of (value_at st (get_field (value_at st receiver) method)) in
    Grows-store_returned a _ (behind sp 56) _ h
      (Grows-both a st _ g (Grows-call_code k millis _ code args st))
