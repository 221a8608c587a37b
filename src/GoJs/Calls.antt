-- ===== src/GoJs/Calls.antt =====
-- gojs.go: the host calls of a Go program on values, each on the program's state and memory.
use wago_emscripten.Common.{
  ℕ, ◌+◌, Option, none, some, List, [], ◌∷◌, ◌++◌, length, get_elem?, set, take, if◌then◌else◌, u32,
  insert, bytes_key, nat_eq,
}
use wago_emscripten.Memory.{write_at}
use wago_emscripten.GoJs.{
  Callable, Ref, JsValue, null, number, boolean, string, object, array, bytes, GoState, value_at,
  is_inside, read_go_i64, write_go_i64, load_value, store_value, store_new,
}
use wago_emscripten.GoJs.Floats.{Machine, to_byte, of_nat}
use wago_emscripten.GoJs.Access.{
  is_nonneg, read_pair, load_go_string, load_go_values, get_field, argument, bytes_of, Returned,
  returned, failed, call_function, code_of,
}

-- The part of the world that a call on values changes.
pub record Values : Type 0 where
  pub state : GoState
  pub memory : List ℕ

abbrev pub values : List ℕ × GoState → Values
values r = record { state = r.1; memory = r.0 }

-- A parameter at an offset from the stack pointer.
abbrev pub behind : ℕ → ℕ → ℕ
behind sp offset = u32 (sp + offset)

unfoldable pub put_byte : List ℕ → ℕ → ℕ → List ℕ
unfolding write_at
put_byte memory offset b =
    if is_inside memory offset 1 then write_at memory offset (b ∷ []) else memory

unfoldable pub go_string_val : ℕ → Values → Values
unfolding load_go_string store_new
go_string_val sp w =
    values
      (store_new w.state w.memory (behind sp 24) (string (load_go_string w.memory (behind sp 8))))

unfoldable pub go_value_get : ℕ → Values → Values
unfolding load_go_string load_value get_field value_at store_value
go_value_get sp w =
    let property = load_go_string w.memory (behind sp 16) in
    let loaded = load_value w.state w.memory (behind sp 8) in
    values (
      store_value loaded.1 w.memory (behind sp 32)
        (get_field (value_at loaded.1 loaded.0) property))

-- `target.object[property] = value`; what is no object stays as it is.
unfoldable pub set_field : GoState → Ref → List ℕ → Ref → GoState
unfolding insert
set_field st none property v = st
set_field st (some a) property v = elim (get_elem? st.heap a) [
  | some (object fields) ↦ record st { heap = set st.heap a (object (insert property v fields)) }
  | _ ↦ st
]

unfoldable pub go_value_set : ℕ → Values → Values
unfolding load_go_string load_value set_field
go_value_set sp w =
    let property = load_go_string w.memory (behind sp 16) in
    let target = load_value w.state w.memory (behind sp 8) in
    let v = load_value target.1 w.memory (behind sp 32) in
    record { state = set_field v.1 target.0 property v.0; memory = w.memory }

-- The item at an index: of an array itself, of bytes and of text as a new value.
unfoldable pub get_item : GoState → Option JsValue → ℕ → Ref × GoState
unfolding of_nat
get_item st (some (array items)) index = (argument items index, st)
get_item st (some (bytes bs)) index = elim (get_elem? bs index) [
  | none ↦ (none, st)
  | some b ↦ (some (length st.heap), record st { heap = st.heap ++ number (of_nat b) ∷ [] })
]
get_item st (some (string text)) index = elim (get_elem? text index) [
  | none ↦ (none, st)
  | some b ↦ (some (length st.heap), record st { heap = st.heap ++ string (b ∷ []) ∷ [] })
]
get_item st _ index = (none, st)

-- `index, _ := readGoI64(...)`: 0 where it cannot be read.
abbrev pub read_or_zero : List ℕ → ℕ → ℕ
read_or_zero memory offset = elim (read_go_i64 memory offset) [ none ↦ 0 | some v ↦ v ]

unfoldable pub go_value_index : ℕ → Values → Values
unfolding read_go_i64 load_value get_item value_at store_value
go_value_index sp w =
    let index = read_or_zero w.memory (behind sp 16) in
    let v = load_value w.state w.memory (behind sp 8) in
    let item : Ref × GoState =
      if is_nonneg index then get_item v.1 (value_at v.1 v.0) index else (none, v.1) in
    values (store_value item.1 w.memory (behind sp 24) item.0)

-- Out of bounds, or a byte from what is no number, nothing is written.
unfoldable pub set_item : Machine → GoState → Ref → ℕ → Ref → GoState
unfolding value_at to_byte
set_item k st none index v = st
set_item k st (some a) index v = elim (get_elem? st.heap a) [
  | some (array items) ↦ record st { heap = set st.heap a (array (set items index v)) }
  | some (bytes bs) ↦ elim (value_at st v) [
    | some (number bits) ↦ record st {
      heap = set st.heap a (bytes (set bs index (to_byte k bits)));
    }
    | _ ↦ st
  ]
  | _ ↦ st
]

unfoldable pub go_value_set_index : Machine → ℕ → Values → Values
unfolding read_go_i64 load_value set_item
go_value_set_index k sp w =
    let index = read_or_zero w.memory (behind sp 16) in
    let target = load_value w.state w.memory (behind sp 8) in
    let v = load_value target.1 w.memory (behind sp 24) in
    record {
      state = if is_nonneg index then set_item k v.1 target.0 index v.0 else v.1;
      memory = w.memory;
    }

-- The end of a call: the value or the error's text at `at_value`. The flag is the caller's.
unfoldable pub store_returned : Values → ℕ → Returned → Values
unfolding store_value store_new
store_returned w at_value (returned r) = values (store_value w.state w.memory at_value r)
store_returned w at_value (failed text) = values (store_new w.state w.memory at_value (string text))

abbrev method_unavailable : List ℕ
method_unavailable =
    b'J' ∷ b'a' ∷ b'v' ∷ b'a' ∷ b'S' ∷ b'c' ∷ b'r' ∷ b'i' ∷ b'p' ∷ b't' ∷ 0x20 ∷ b'm' ∷ b'e' ∷ b't'
    ∷ b'h' ∷ b'o' ∷ b'd' ∷ 0x20 ∷ b'u' ∷ b'n' ∷ b'a' ∷ b'v' ∷ b'a' ∷ b'i' ∷ b'l' ∷ b'a' ∷ b'b'
    ∷ b'l' ∷ b'e' ∷ []

abbrev constructor_unavailable : List ℕ
constructor_unavailable =
    b'J' ∷ b'a' ∷ b'v' ∷ b'a' ∷ b'S' ∷ b'c' ∷ b'r' ∷ b'i' ∷ b'p' ∷ b't' ∷ 0x20 ∷ b'c' ∷ b'o' ∷ b'n'
    ∷ b's' ∷ b't' ∷ b'r' ∷ b'u' ∷ b'c' ∷ b't' ∷ b'o' ∷ b'r' ∷ 0x20 ∷ b'u' ∷ b'n' ∷ b'a' ∷ b'v'
    ∷ b'a' ∷ b'i' ∷ b'l' ∷ b'a' ∷ b'b' ∷ b'l' ∷ b'e' ∷ []

-- The host function, on arguments that could be loaded.
unfoldable pub call_code :
    Machine → ℕ → List ℕ → Option Callable → Option (List Ref) → GoState → Returned × GoState
unfolding call_function
call_code k millis unavailable (some f) (some args) st = call_function k millis f args st
call_code k millis unavailable _ _ st = (failed unavailable, st)

-- `goValueCall` behind `goAsyncFSCall`, on the loaded receiver and arguments.
unfoldable pub call_method :
    Machine → ℕ → ℕ → List ℕ → List ℕ → Ref → Option (List Ref) → GoState → Values
unfolding get_field value_at call_code store_returned put_byte
call_method k millis sp memory method receiver args st =
    let code = code_of (value_at st (get_field (value_at st receiver) method)) in
    let r = call_code k millis method_unavailable code args st in
    let stored = store_returned (record { state = r.1; memory = memory }) (behind sp 56) r.0 in
    let flag : ℕ = elim r.0 [ returned v ↦ 1 | failed text ↦ 0 ] in
    record { state = stored.state; memory = put_byte stored.memory (behind sp 64) flag }

-- The flag is set on success and, unlike that of a call, left alone on failure.
unfoldable pub go_value_new : Machine → ℕ → ℕ → Values → Values
unfolding load_value load_go_values value_at call_code store_returned put_byte
go_value_new k millis sp w =
    let constructor = load_value w.state w.memory (behind sp 8) in
    let args = load_go_values constructor.1 w.memory (behind sp 16) in
    let code = code_of (value_at args.1 constructor.0) in
    let r = call_code k millis constructor_unavailable code args.0 args.1 in
    let stored = store_returned (record { state = r.1; memory = w.memory }) (behind sp 40) r.0 in
    record {
      state = stored.state;
      memory = elim r.0 [
        | returned v ↦ put_byte stored.memory (behind sp 48) 1
        | failed text ↦ stored.memory
      ];
    }

unfoldable pub length_of : Option JsValue → ℕ
length_of (some (bytes bs)) = length bs
length_of (some (array items)) = length items
length_of (some (string text)) = length text
length_of _ = 0

unfoldable pub go_value_length : ℕ → Values → Values
unfolding load_value length_of value_at write_go_i64
go_value_length sp w =
    let v = load_value w.state w.memory (behind sp 8) in
    record {
      state = v.1;
      memory = write_go_i64 w.memory (behind sp 16) (length_of (value_at v.1 v.0));
    }

abbrev word_true : List ℕ
word_true = b't' ∷ b'r' ∷ b'u' ∷ b'e' ∷ []

abbrev word_false : List ℕ
word_false = b'f' ∷ b'a' ∷ b'l' ∷ b's' ∷ b'e' ∷ []

abbrev word_null : List ℕ
word_null = b'n' ∷ b'u' ∷ b'l' ∷ b'l' ∷ []

abbrev word_undefined : List ℕ
word_undefined = b'<' ∷ b'u' ∷ b'n' ∷ b'd' ∷ b'e' ∷ b'f' ∷ b'i' ∷ b'n' ∷ b'e' ∷ b'd' ∷ b'>' ∷ []

unfoldable pub text_of : Machine → Option JsValue → List ℕ
text_of k (some (string text)) = text
text_of k (some (number bits)) = k.sprint bits
text_of k (some (boolean truth)) = if truth then word_true else word_false
text_of k (some null) = word_null
text_of k _ = word_undefined

-- The text as bytes under a new reference, and its length.
unfoldable pub go_prepare_string : Machine → ℕ → Values → Values
unfolding load_value text_of value_at store_new write_go_i64
go_prepare_string k sp w =
    let v = load_value w.state w.memory (behind sp 8) in
    let text = text_of k (value_at v.1 v.0) in
    let stored = store_new v.1 w.memory (behind sp 16) (bytes text) in
    record { state = stored.1; memory = write_go_i64 stored.0 (behind sp 24) (length text) }

-- `copy(memory[ptr:ptr+len], bs)`, where the range lies in memory.
unfoldable pub copy_out : List ℕ → ℕ → ℕ → List ℕ → Option (List ℕ)
unfolding write_at
copy_out memory ptr len bs =
    if is_inside memory (u32 ptr) len then some (write_at memory (u32 ptr) (take len bs)) else none

unfoldable pub go_load_string : ℕ → Values → Values
unfolding load_value read_pair value_at copy_out
go_load_string sp w =
    let v = load_value w.state w.memory (behind sp 8) in
    record {
      state = v.1;
      memory = elim (bytes_of (value_at v.1 v.0)) [
        | none ↦ w.memory
        | some bs ↦ elim (read_pair w.memory (behind sp 16)) [
          | none ↦ w.memory
          | some (ptr, len) ↦ elim (copy_out w.memory ptr len bs) [
            | none ↦ w.memory
            | some memory' ↦ memory'
          ]
        ]
      ];
    }
