-- ===== src/Tests/Values.antt =====
-- gojs.go: the value table at the start of a Go program.
use wago_emscripten.Common.{
  ℕ, ◌≡◌, refl, some, List, [], ◌∷◌, ◌++◌, length, replicate, bytes_eq, arith,
}
use wago_emscripten.Memory.{le_bytes, of_le}
use wago_emscripten.GoJs.{GoState, callback, cwd, number, function, load_value, store_value}
use wago_emscripten.GoJs.Floats.{Machine, is_nan, is_zero, minus_one_bits, of_nat}
use wago_emscripten.GoJs.Initial.{new_go_state, initial_heap, name_write}
use wago_emscripten.GoJs.Values.{entry, IsReady}
use wago_emscripten.GoJs.RoundTrip.{back, load_value-store_value, load_value-store_value_shared}
use wago_emscripten.GoJs.Resume.{World, came_back, Env}
use wago_emscripten.GoJs.Runtime.{string_val, call_value}
use wago_emscripten.GoJs.Programs.{Program, returned, host_call, run_program}

abbrev room : List ℕ
room = replicate 64 0

new_go_state-IsReady : IsReady new_go_state
unfolding entry
new_go_state-IsReady = record {
  nan_entry = refl;
  zero_entry = refl;
  null_entry = refl;
  true_entry = refl;
  false_entry = refl;
  behind_predefined = omega arith;
}

load_value-store_value_example :
    back (store_value new_go_state room 8 (some 10)) 8 ≡ some (number minus_one_bits)
unfolding is_nan is_zero
load_value-store_value_example =
    load_value-store_value new_go_state room 8 10 (number minus_one_bits) (omega arith)
      new_go_state-IsReady (omega arith) (omega arith) refl

load_value-store_value_shared_example :
    (load_value
      (store_value new_go_state room 8 (some 12)).1
      (store_value new_go_state room 8 (some 12)).0
      8).0
    ≡ some 12
load_value-store_value_shared_example =
    load_value-store_value_shared new_go_state room 8 12 (function cwd) (omega arith) (omega arith)
      refl refl

abbrev plain_machine : Machine
plain_machine = record {
  wild_int = λ x. 0;
  wild_u32 = λ x. 0;
  wild_byte = λ x. 0;
  sprint = λ x. [];
}

abbrev calm : Env
calm = record {
  machine = plain_machine;
  millis = 0;
  nanos = 0;
  seconds = 0;
  subseconds = 0;
  random = λ n. replicate n 7;
  resume = λ w. (came_back, w);
}

abbrev fresh_world : World
fresh_world = record {
  here = record { state = new_go_state; memory = room };
  stdio = record { answers = []; sent = []; chunks = [] };
  timeouts = 0;
}

-- A program that calls `write` on `global.fs` with a callback, and whose `resume` makes two texts. Memory
-- has the references to `fs` and the callback as entries 7 and 8.
abbrev busy_state : GoState
busy_state = record {
  heap = initial_heap ++ function (callback 1) ∷ [];
  values =
      (0, 0)
      ∷ (1, 1)
      ∷ (2, 2)
      ∷ (3, 3)
      ∷ (4, 4)
      ∷ (5, 5)
      ∷ (6, 6)
      ∷ (7, 8)
      ∷ (8, length initial_heap)
      ∷ [];
  next_id = 9;
}

abbrev busy_memory : List ℕ
busy_memory =
    replicate 8 0
    ++ le_bytes 4 7
    ++ le_bytes 4 0x7ff80001
    ++ le_bytes 8 80
    ++ le_bytes 8 5
    ++ le_bytes 8 96
    ++ le_bytes 8 1
    ++ replicate 32 0
    ++ name_write
    ++ replicate 11 0
    ++ le_bytes 4 8
    ++ le_bytes 4 0x7ff80004

abbrev busy_world : World
busy_world = record {
  here = record { state = busy_state; memory = busy_memory };
  stdio = record { answers = []; sent = []; chunks = [] };
  timeouts = 0;
}

abbrev busy_program : Program
busy_program =
    host_call (λ m. m) call_value 0
      (host_call (λ m. m) string_val 16 returned
        (host_call (λ m. m) string_val 16 returned returned))
      returned

-- The two texts have taken the entries 9 and 10, and the write itself answers undefined.
busy_program-ends : (run_program calm busy_program busy_world).1.here.state.next_id ≡ 11
unfolding run_program bytes_eq of_le
busy_program-ends = refl

-- 5 and 1000000 as float64.
of_nat_5 : of_nat 5 ≡ 0x4014000000000000
unfolding of_nat
of_nat_5 = refl

of_nat_1000000 : of_nat 1000000 ≡ 0x412e848000000000
unfolding of_nat
of_nat_1000000 = refl
