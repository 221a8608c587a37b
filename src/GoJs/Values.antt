-- ===== src/GoJs/Values.antt =====
-- gojs.go: a value table that is ready, and the words that stand for its entries.
use wago_emscripten.Common.{
  ℕ, ◌+◌, ◌*◌, ◌/◌, ◌%◌, ◌^◌, ◌≤◌, ◌<◌, true, false, ◌≡◌, refl, ap, ◌∙◌, Option, none, some, List,
  ◌++◌, length, get_elem?, ◌==◌, if◌then◌else◌, u32, lookup, nat_eq, bytes_key, arith,
}
use wago_emscripten.Memory.{le_bytes, of_le, put_u64, get_u64}
use wago_emscripten.Memory.Words.{length-write_at, slice-write_at, of_le-le_bytes}
use wago_emscripten.GoJs.{
  JsValue, null, number, boolean, GoState, is_inside, load_bits, load_value, put_ref,
}
use wago_emscripten.GoJs.Floats.{is_nan, is_zero, nan}

-- The value behind an identifier.
unfoldable pub entry : GoState → ℕ → Option JsValue
unfolding lookup
entry st id = elim (lookup id st.values) [ none ↦ none | some a ↦ get_elem? st.heap a ]

-- The predefined values are in their places, and new ones get identifiers behind theirs.
pub record IsReady (st : GoState) : Type 0 where
  pub nan_entry : entry st 0 ≡ some (number nan)
  pub zero_entry : entry st 1 ≡ some (number 0)
  pub null_entry : entry st 2 ≡ some null
  pub true_entry : entry st 3 ≡ some (boolean true)
  pub false_entry : entry st 4 ≡ some (boolean false)
  pub behind_predefined : 7 ≤ st.next_id

-- What comes back of a value: a zero loses its sign, and a NaN its payload.
abbrev pub normal : JsValue → JsValue
normal (number bits) = number (if is_zero bits then 0 else if is_nan bits then nan else bits)
normal v = v

-- A float64 is a 64-bit pattern.
abbrev pub IsValue : JsValue → Type 0
IsValue (number bits) = bits < 2 ^ 64
IsValue v = Unit

-- The two words of a reference, read as one.
ref_bits :
    (id hi : ℕ)
    → id < 2 ^ 32
    → hi < 2 ^ 32
    → of_le (le_bytes 4 id ++ le_bytes 4 hi) ≡ id + 2 ^ 32 * hi
unfolding of_le le_bytes
ref_bits id hi h k = omega arith

get-put_u64 :
    (memory : List ℕ) (offset v : ℕ)
    → offset + 8 ≤ length memory
    → v < 2 ^ 64
    → get_u64 (put_u64 memory offset v) offset ≡ v
unfolding le_bytes
get-put_u64 memory offset v room h =
    ap of_le (slice-write_at memory offset (le_bytes 8 v) room) ∙ of_le-le_bytes 8 v h

get-put_ref :
    (memory : List ℕ) (offset id flag : ℕ)
    → offset + 8 ≤ length memory
    → id < 2 ^ 32
    → flag < 8
    → get_u64 (put_ref memory offset id flag) offset ≡ id + 2 ^ 32 * (0x7ff80000 + flag)
unfolding put_ref le_bytes
get-put_ref memory offset id flag room small few =
    ap of_le (slice-write_at memory offset (le_bytes 4 id ++ le_bytes 4 (0x7ff80000 + flag)) room)
    ∙ ref_bits id (0x7ff80000 + flag) small (omega arith)

-- Such a pattern is a NaN with the identifier in its low word.
load_bits-ref :
    (st : GoState) (id flag : ℕ)
    → id < 2 ^ 32
    → flag < 8
    → load_bits st (id + 2 ^ 32 * (0x7ff80000 + flag)) ≡ (lookup id st.values, st)
unfolding load_bits is_nan
load_bits-ref st id flag small few =
    let bits : ℕ = id + 2 ^ 32 * (0x7ff80000 + flag) in
    let ones : bits / 2 ^ 52 % 2 ^ 11 ≡ 0x7ff = omega arith in
    let part : (bits % 2 ^ 52 == 0) ≡ false = ground arith in
    let nonzero : (bits == 0) ≡ false = ground arith in
    let low : u32 bits ≡ id = omega arith in rw nonzero (rw ones (rw part (rw low refl)))

-- Loading what was put, by the two forms that it is put in.
module _ (st : GoState) (memory : List ℕ) (offset : ℕ) (room : offset + 8 ≤ length memory) where
  pub load-put_u64 :
      (v : ℕ) → v < 2 ^ 64 → load_value st (put_u64 memory offset v) offset ≡ load_bits st v
  unfolding load_value
  load-put_u64 v h =
      let inside : is_inside (put_u64 memory offset v) offset 8 ≡ true =
        ground (arith, length-write_at memory offset (le_bytes 8 v)) in
      rw inside (ap (load_bits st) (get-put_u64 memory offset v room h))

  pub load-put_ref :
      (id flag : ℕ)
      → id < 2 ^ 32
      → flag < 8
      → load_value st (put_ref memory offset id flag) offset ≡ (lookup id st.values, st)
  unfolding load_value put_ref
  load-put_ref id flag small few =
      let inside : is_inside (put_ref memory offset id flag) offset 8 ≡ true =
        ground (
          arith,
          length-write_at memory offset (le_bytes 4 id ++ le_bytes 4 (0x7ff80000 + flag)),
        ) in
      rw inside (
        ap (load_bits st) (get-put_ref memory offset id flag room small few)
        ∙ load_bits-ref st id flag small few)
