-- ===== src/GoJs/Access.antt =====
-- gojs.go: the parameters of a call as they lie in the program's memory, and the host functions that
-- the program can call.
use wago_emscripten.Common.{
  ℕ, zero, suc, ◌+◌, ◌^◌, Bool, ◌&&◌, ◌||◌, Option, none, some, List, [], ◌∷◌, ◌++◌, length,
  get_elem?, replicate, ltb, if◌then◌else◌, u32, lookup, bytes_key,
}
use wago_emscripten.Memory.{slice}
use wago_emscripten.GoJs.{
  Callable, minus_one, cwd, unsupported, fs_write, write_sync, uint8_array, now, make_func_wrapper,
  callback, Ref, JsValue, undefined, number, string, object, bytes, function, GoState, value_at,
  is_inside, read_go_i64, load_value,
}
use wago_emscripten.GoJs.Floats.{
  Machine, minus_one_bits, is_nan, is_negative, is_zero, to_int, to_u32, of_nat,
}

abbrev pub is_nonneg : ℕ → Bool
is_nonneg v = ltb v (2 ^ 63)

-- `ptr` and `length` at a descriptor, where both can be read and neither is negative.
unfoldable pub read_pair : List ℕ → ℕ → Option (ℕ × ℕ)
unfolding read_go_i64
read_pair memory descriptor = elim (read_go_i64 memory descriptor) [
  | none ↦ none
  | some ptr ↦ elim (read_go_i64 memory (u32 (descriptor + 8))) [
    | none ↦ none
    | some len ↦ if is_nonneg ptr && is_nonneg len then some (ptr, len) else none
  ]
]

-- The bytes at the 32-bit address, where they lie in memory.
unfoldable pub go_bytes : List ℕ → ℕ → ℕ → Option (List ℕ)
go_bytes memory ptr len =
    if is_inside memory (u32 ptr) len then some (slice memory (u32 ptr) len) else none

-- `loadGoString` for callers that take no notice of a failure, which leaves the empty string.
unfoldable pub load_go_string : List ℕ → ℕ → List ℕ
unfolding read_pair go_bytes
load_go_string memory descriptor = elim (read_pair memory descriptor) [
  | none ↦ []
  | some (ptr, len) ↦ elim (go_bytes memory ptr len) [ none ↦ [] | some text ↦ text ]
]

-- `count` values from the address on, 8 bytes each.
unfoldable pub load_list : GoState → List ℕ → ℕ → ℕ → List Ref × GoState
unfolding load_value
load_list st memory address zero = ([], st)
load_list st memory address (suc count) =
    let first = load_value st memory address in
    let rest = load_list first.1 memory (u32 (address + 8)) count in (first.0 ∷ rest.0, rest.1)

unfoldable pub load_go_values : GoState → List ℕ → ℕ → Option (List Ref) × GoState
unfolding read_pair load_list
load_go_values st memory descriptor = elim (read_pair memory descriptor) [
  | none ↦ (none, st)
  | some (ptr, len) ↦
      if ltb (2 ^ 20) len
      then (none, st)
      else (let r = load_list st memory (u32 ptr) len in (some r.0, r.1))
]

-- `target.object[property]`, with nil for a missing name and for what is no object.
unfoldable pub get_field : Option JsValue → List ℕ → Ref
unfolding lookup
get_field (some (object fields)) name = elim (lookup name fields) [ none ↦ none | some r ↦ r ]
get_field _ name = none

-- `values[i]` of the arguments, nil where there are too few.
abbrev pub argument : List Ref → ℕ → Ref
argument args i = elim (get_elem? args i) [ none ↦ none | some r ↦ r ]

-- The number behind a reference.
abbrev pub number_of : Option JsValue → Option ℕ
number_of (some (number bits)) = some bits
number_of _ = none

abbrev pub bytes_of : Option JsValue → Option (List ℕ)
bytes_of (some (bytes bs)) = some bs
bytes_of _ = none

-- What a host function returns: a value or an error's text.
pub data Returned : Type 0 where
  returned : Ref → Returned
  failed : List ℕ → Returned

abbrev pub return_new : JsValue → GoState → Returned × GoState
return_new v st = (returned (some (length st.heap)), record st { heap = st.heap ++ v ∷ [] })

-- The length of a new Uint8Array: a positive number up to 2^30, whose patterns are in the order of the
-- numbers.
unfoldable pub array_length : Machine → Option ℕ → ℕ
unfolding to_int is_nan is_zero
array_length k none = 0
array_length k (some bits) =
    if is_nan bits || is_negative bits || is_zero bits || ltb 0x41d0000000000000 bits
    then 0
    else to_int k bits

abbrev enosys : List ℕ
enosys = b'E' ∷ b'N' ∷ b'O' ∷ b'S' ∷ b'Y' ∷ b'S' ∷ []

-- A host function on its arguments; `millis` is what `performance.now` answers. A callback has no host
-- code, and its callers do not call it.
unfoldable pub call_function : Machine → ℕ → Callable → List Ref → GoState → Returned × GoState
unfolding value_at array_length of_nat to_u32
call_function k millis minus_one args st = return_new (number minus_one_bits) st
call_function k millis cwd args st = return_new (string (b'/' ∷ [])) st
call_function k millis unsupported args st = (failed enosys, st)
call_function k millis fs_write args st = return_new undefined st
call_function k millis write_sync args st = elim (bytes_of (value_at st (argument args 1))) [
  | none ↦ return_new (number 0) st
  | some bs ↦ return_new (number (of_nat (length bs))) st
]
call_function k millis uint8_array args st =
    return_new (bytes (replicate (array_length k (number_of (value_at st (argument args 0)))) 0)) st
call_function k millis now args st = return_new (number millis) st
call_function k millis make_func_wrapper args st =
    return_new
      (function (
        callback (elim (number_of (value_at st (argument args 0))) [
          | none ↦ 0
          | some bits ↦ to_u32 k bits
        ])))
      st
call_function k millis (callback id) args st = (failed [], st)

-- The host code of a value: `value.call`, nil for all but the host's functions.
abbrev pub code_of : Option JsValue → Option Callable
code_of (some (function (callback id))) = none
code_of (some (function f)) = some f
code_of _ = none
