-- ===== src/GoJs/Copies.antt =====
-- gojs.go: `goCopyBytes`, between the program and a host array.
use wago_emscripten.Common.{
  ℕ, Bool, not, ◌&&◌, Option, none, some, List, length, set, if◌then◌else◌, bytes_key, nat_eq,
}
use Prim.Native.Nat.{min}
use wago_emscripten.Memory.{write_at}
use wago_emscripten.GoJs.{Ref, bytes, value_at, read_go_i64, write_go_i64, load_value}
use wago_emscripten.GoJs.Access.{is_nonneg, go_bytes, bytes_of}
use wago_emscripten.GoJs.Calls.{Values, behind, put_byte, read_or_zero, copy_out}

-- What a copy did: the count of bytes, or none where it could not be made.
pub record Copied : Type 0 where
  pub world : Values
  pub count : Option ℕ

-- `copy(guest, host.bytes)`
unfoldable pub copy_to_go : Values → ℕ → ℕ → List ℕ → Copied
unfolding copy_out
copy_to_go w ptr len bs = elim (copy_out w.memory ptr len bs) [
  | none ↦ record { world = w; count = none }
  | some memory' ↦ record {
    world = record w { memory = memory' };
    count = some (min len (length bs));
  }
]

-- `copy(host.bytes, guest)`
unfoldable pub copy_to_js : Values → ℕ → ℕ → Ref → List ℕ → Copied
unfolding go_bytes write_at
copy_to_js w ptr len none bs = record { world = w; count = none }
copy_to_js w ptr len (some a) bs = elim (go_bytes w.memory ptr len) [
  | none ↦ record { world = w; count = none }
  | some guest ↦
      let heap' = set w.state.heap a (bytes (write_at bs 0 guest)) in
      record {
        world = record w { state = record (w.state) { heap = heap' } };
        count = some (min (length bs) len);
      }
]

-- The end of `goCopyBytes`: the count, which is 0 without success, and the flag, which is left alone
-- without success.
unfoldable pub report_copy : ℕ → Copied → Values
unfolding write_go_i64 put_byte
report_copy sp c = elim c.count [
  | none ↦ record (c.world) { memory = write_go_i64 c.world.memory (behind sp 40) 0 }
  | some n ↦ record (c.world) {
    memory = put_byte (write_go_i64 c.world.memory (behind sp 40) n) (behind sp 48) 1;
  }
]

unfoldable pub copy_bytes : Bool → Values → Ref → ℕ → ℕ → Copied
unfolding value_at copy_to_go copy_to_js
copy_bytes to_go w host ptr len = elim (bytes_of (value_at w.state host)) [
  | none ↦ record { world = w; count = none }
  | some bs ↦
      if not (is_nonneg ptr && is_nonneg len)
      then record { world = w; count = none }
      else if to_go
      then copy_to_go w ptr len bs
      else copy_to_js w ptr len host bs
]

-- `goCopyBytes`, with the host array and the guest's slice at the places of the direction.
unfoldable pub go_copy_bytes : Bool → ℕ → Values → Values
unfolding load_value read_go_i64 copy_bytes report_copy
go_copy_bytes to_go sp w =
    let host = load_value w.state w.memory (if to_go then behind sp 32 else behind sp 8) in
    let ptr = read_or_zero w.memory (if to_go then behind sp 8 else behind sp 16) in
    let len = read_or_zero w.memory (if to_go then behind sp 16 else behind sp 24) in
    report_copy sp (copy_bytes to_go (record { state = host.1; memory = w.memory }) host.0 ptr len)
