-- ===== src/GoJs/Runtime.antt =====
-- gojs.go: the calls of the Go runtime itself, and the table of all the calls.
use wago_emscripten.Common.{
  ℕ, ◌+◌, true, false, not, ◌&&◌, none, some, List, if◌then◌else◌, u32, Map, lookup, bytes_key,
  nat_eq,
}
use wago_emscripten.Memory.{put_u32, get_u32}
use wago_emscripten.FileSystem.Reply.{Stdio}
use wago_emscripten.GoJs.{GoState, is_inside, read_go_i64, write_go_i64}
use wago_emscripten.GoJs.Initial.{new_go_state}
use wago_emscripten.GoJs.Access.{is_nonneg, read_pair, go_bytes}
use wago_emscripten.GoJs.Calls.{
  Values, behind, copy_out, go_string_val, go_value_get, go_value_set, go_value_index,
  go_value_set_index, go_value_new, go_value_length, go_prepare_string, go_load_string,
}
use wago_emscripten.GoJs.Copies.{go_copy_bytes}
use wago_emscripten.GoJs.Resume.{
  World, GoEnd, done, exited, Env, write_stream, stream_of, go_value_call,
}

-- `goExit`: the code, or 0 where it cannot be read.
unfoldable pub go_exit : ℕ → List ℕ → GoEnd
go_exit sp memory =
    if is_inside memory (behind sp 8) 4 then exited (get_u32 memory (behind sp 8)) else exited 0

-- `goWrite`: bytes in memory to a stream.
unfoldable pub go_write : ℕ → List ℕ → Stdio → Stdio
unfolding read_go_i64 go_bytes write_stream
go_write sp memory io = elim (read_go_i64 memory (behind sp 8)) [
  | none ↦ io
  | some fd ↦ elim (read_go_i64 memory (behind sp 16)) [
    | none ↦ io
    | some ptr ↦
        if not (is_inside memory (behind sp 24) 4 && is_nonneg ptr)
        then io
        else elim (go_bytes memory ptr (get_u32 memory (behind sp 24))) [
          | none ↦ io
          | some data' ↦ (write_stream (stream_of fd) data' io).1
        ]
  ]
]

abbrev pub write_word : List ℕ → ℕ → ℕ → List ℕ
write_word memory offset v = if is_inside memory offset 4 then put_u32 memory offset v else memory

-- `goWalltime`: without room for the seconds, no nanoseconds either.
unfoldable pub go_walltime : Env → ℕ → List ℕ → List ℕ
unfolding write_go_i64
go_walltime e sp memory =
    if is_inside memory (behind sp 8) 8
    then write_word (write_go_i64 memory (behind sp 8) e.seconds) (behind sp 16) e.subseconds
    else memory

-- `goRandom`: the slice at the descriptor, filled.
unfoldable pub go_random : Env → ℕ → List ℕ → List ℕ
unfolding read_pair copy_out
go_random e sp memory = elim (read_pair memory (behind sp 8)) [
  | none ↦ memory
  | some (ptr, len) ↦ elim (copy_out memory ptr len (e.random len)) [
    | none ↦ memory
    | some memory' ↦ memory'
  ]
]

-- The imports of `registerGoJS`. `quiet` is one of those that do nothing.
pub data GoCall : Type 0 where
  reset_memory wasm_exit wasm_write nanotime walltime schedule_timeout random_data quiet : GoCall
  string_val value_get value_set value_index value_set_index call_value new_value : GoCall
  value_length prepare_string load_string bytes_to_go bytes_to_js : GoCall

abbrev pub on_values : World → (Values → Values) → World × GoEnd
on_values w f = (record w { here = f w.here }, done)

abbrev pub on_memory : World → List ℕ → World × GoEnd
on_memory w memory = (record w { here = record (w.here) { memory = memory } }, done)

-- A call on the caller's state and memory, with the stack pointer.
unfoldable pub go_dispatch : Env → GoCall → ℕ → World → World × GoEnd
unfolding go_exit go_write go_walltime go_random go_value_call go_copy_bytes go_string_val
    go_value_get go_value_set go_value_index go_value_set_index go_value_new go_value_length
    go_prepare_string go_load_string write_go_i64
go_dispatch e reset_memory sp w = (w, done)
go_dispatch e quiet sp w = (w, done)
go_dispatch e wasm_exit sp w = (w, go_exit sp w.here.memory)
go_dispatch e wasm_write sp w = (record w { stdio = go_write sp w.here.memory w.stdio }, done)
go_dispatch e nanotime sp w = on_memory w (write_go_i64 w.here.memory (behind sp 8) e.nanos)
go_dispatch e walltime sp w = on_memory w (go_walltime e sp w.here.memory)
go_dispatch e schedule_timeout sp w =
    let id = u32 (w.timeouts + 1) in
    on_memory (record w { timeouts = id }) (write_word w.here.memory (behind sp 16) id)
go_dispatch e random_data sp w = on_memory w (go_random e sp w.here.memory)
go_dispatch e string_val sp w = on_values w (go_string_val sp)
go_dispatch e value_get sp w = on_values w (go_value_get sp)
go_dispatch e value_set sp w = on_values w (go_value_set sp)
go_dispatch e value_index sp w = on_values w (go_value_index sp)
go_dispatch e value_set_index sp w = on_values w (go_value_set_index e.machine sp)
go_dispatch e call_value sp w = go_value_call e sp w
go_dispatch e new_value sp w = on_values w (go_value_new e.machine e.millis sp)
go_dispatch e value_length sp w = on_values w (go_value_length sp)
go_dispatch e prepare_string sp w = on_values w (go_prepare_string e.machine sp)
go_dispatch e load_string sp w = on_values w (go_load_string sp)
go_dispatch e bytes_to_go sp w = on_values w (go_copy_bytes true sp)
go_dispatch e bytes_to_js sp w = on_values w (go_copy_bytes false sp)

-- `goStateFor`: the state of an identity, made on its first use.
unfoldable pub go_state_for : Map ℕ GoState → ℕ → GoState
unfolding lookup
go_state_for states id = elim (lookup id states) [ none ↦ new_go_state | some st ↦ st ]
