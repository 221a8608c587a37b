-- ===== src/GoJs.antt =====
-- gojs.go: the table of JavaScript values that a Go program refers to, and how a value passes through
-- the program's memory.
pub mod Values
pub mod Floats
pub mod Initial
pub mod Access
pub mod Calls
pub mod Copies
pub mod Resume
pub mod Runtime
pub mod Programs
pub mod RoundTrip
pub mod Ready
pub mod Instances
use wago_emscripten.Common.{
  ℕ, zero, suc, ◌+◌, ◌-◌, ◌*◌, ◌/◌, ◌%◌, ◌^◌, Bool, true, false, not, ◌&&◌, ◌||◌, Option, none,
  some, List, [], ◌∷◌, ◌++◌, length, get_elem?, set, ltb, leb, ◌==◌, if◌then◌else◌, u32, Map,
  lookup, insert, nat_eq, bytes_key, arith,
}
use wago_emscripten.Memory.{write_at, le_bytes, slice, put_u64, get_u64}
use wago_emscripten.GoJs.Floats.{is_nan, is_zero}

-- The host functions of `newGoState`; a `callback` is a Go function, which has an identifier and no
-- host code.
pub data Callable : Type 0 where
  minus_one cwd unsupported fs_write write_sync uint8_array now make_func_wrapper : Callable
  callback : ℕ → Callable

-- A `*jsValue`: an address in the heap, or nil.
abbrev pub Ref : Type 0
Ref = Option ℕ

-- `jsValue` by its kind; a number is the bit pattern of its float64.
pub data JsValue : Type 0 where
  undefined null : JsValue
  number : ℕ → JsValue
  boolean : Bool → JsValue
  string : List ℕ → JsValue
  object : Map (List ℕ) Ref → JsValue
  array : List Ref → JsValue
  bytes : List ℕ → JsValue
  function : Callable → JsValue

-- `goState`, and the values that its pointers lead to: two references to one object share it.
pub record GoState : Type 0 where
  pub heap : List JsValue
  pub values : Map ℕ ℕ
  pub next_id : ℕ

unfoldable pub allocate : JsValue → GoState → ℕ × GoState
allocate v st = (length st.heap, record st { heap = st.heap ++ v ∷ [] })

unfoldable pub value_at : GoState → Ref → Option JsValue
value_at st none = none
value_at st (some a) = get_elem? st.heap a

-- `memoryRange`: whether the bytes lie in memory. A memory is taken to end below 4 GiB, so that
-- `uint32(end)` is `end`.
abbrev pub is_inside : List ℕ → ℕ → ℕ → Bool
is_inside memory offset size = leb (offset + size) (length memory)

-- `readGoI64`, on the bit pattern.
unfoldable pub read_go_i64 : List ℕ → ℕ → Option ℕ
read_go_i64 memory offset = if is_inside memory offset 8 then some (get_u64 memory offset) else none

-- `writeGoI64`: out of range nothing is written.
unfoldable pub write_go_i64 : List ℕ → ℕ → ℕ → List ℕ
write_go_i64 memory offset v = if is_inside memory offset 8 then put_u64 memory offset v else memory

-- The 8 bytes as a reference: 0 is undefined, a number is itself, and a NaN names an entry of the
-- table in its low word.
unfoldable pub load_bits : GoState → ℕ → Ref × GoState
unfolding allocate lookup is_nan
load_bits st bits =
    if bits == 0
    then (let r = allocate undefined st in (some r.0, r.1))
    else if not (is_nan bits)
    then (let r = allocate (number bits) st in (some r.0, r.1))
    else (lookup (u32 bits) st.values, st)

unfoldable pub load_value : GoState → List ℕ → ℕ → Ref × GoState
unfolding load_bits
load_value st memory offset =
    if is_inside memory offset 8 then load_bits st (get_u64 memory offset) else (none, st)

-- A reference to the table: the identifier in the low word, a NaN with the type in the high word.
unfoldable pub put_ref : List ℕ → ℕ → ℕ → ℕ → List ℕ
unfolding write_at le_bytes
put_ref memory offset id type_flag =
    write_at memory offset (le_bytes 4 id ++ le_bytes 4 (0x7ff80000 + type_flag))

-- An entry of the table under the next identifier.
unfoldable pub put_new : GoState → List ℕ → ℕ → ℕ → ℕ → List ℕ × GoState
unfolding put_ref insert
put_new st memory offset a type_flag = (
  put_ref memory offset st.next_id type_flag,
  record st { values = insert st.next_id a st.values; next_id = u32 (st.next_id + 1) },
)

-- The value behind a reference, by its kind.
unfoldable pub put_value : GoState → List ℕ → ℕ → ℕ → JsValue → List ℕ × GoState
unfolding put_ref put_new is_nan is_zero
put_value st memory offset a undefined = (put_u64 memory offset 0, st)
put_value st memory offset a null = (put_ref memory offset 2 0, st)
put_value st memory offset a (number bits) =
    if is_zero bits
    then (put_ref memory offset 1 0, st)
    else if is_nan bits
    then (put_ref memory offset 0 0, st)
    else (put_u64 memory offset bits, st)
put_value st memory offset a (boolean truth) =
    (put_ref memory offset (if truth then 3 else 4) 0, st)
put_value st memory offset a (string text) = put_new st memory offset a 2
put_value st memory offset a (object fields) = put_new st memory offset a 1
put_value st memory offset a (array items) = put_new st memory offset a 1
put_value st memory offset a (bytes bs) = put_new st memory offset a 1
put_value st memory offset a (function f) = put_new st memory offset a 4

-- A nil pointer is stored as undefined; the heap has a value at every other.
unfoldable pub put_some : GoState → List ℕ → ℕ → Ref → Option JsValue → List ℕ × GoState
unfolding put_value
put_some st memory offset (some a) (some v) = put_value st memory offset a v
put_some st memory offset _ _ = (put_u64 memory offset 0, st)

unfoldable pub store_value : GoState → List ℕ → ℕ → Ref → List ℕ × GoState
unfolding put_some value_at
store_value st memory offset r =
    if is_inside memory offset 8 then put_some st memory offset r (value_at st r) else (memory, st)

-- A new value that is stored at once.
unfoldable pub store_new : GoState → List ℕ → ℕ → JsValue → List ℕ × GoState
unfolding allocate store_value
store_new st memory offset v = let r = allocate v st in store_value r.1 memory offset (some r.0)
