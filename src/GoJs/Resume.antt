-- ===== src/GoJs/Resume.antt =====
-- gojs.go: `goValueCall`, whose reads and writes of files come back into the program.
use wago_emscripten.Common.{
  ℕ, ◌+◌, ◌-◌, Bool, true, false, not, ◌&&◌, ◌||◌, Option, none, some, List, [], ◌∷◌, ◌++◌, length,
  set, take, drop, leb, ◌==◌, bytes_eq, if◌then◌else◌, lookup, bytes_key, nat_eq,
}
use wago_emscripten.Memory.{slice, write_at}
use wago_emscripten.FileSystem.Reply.{Stdio}
use wago_emscripten.FileSystem.Streams.{next_answer}
use wago_emscripten.GoJs.{
  callback, Ref, JsValue, undefined, null, number, object, array, bytes, function, GoState,
  value_at, load_value, store_new,
}
use wago_emscripten.GoJs.Initial.{
  name_fs, name_write, name_read, name_pending_event, name_id, name_this, name_args,
}
use wago_emscripten.GoJs.Floats.{Machine, to_int, of_nat}
use wago_emscripten.GoJs.Access.{
  is_nonneg, load_go_string, load_go_values, get_field, argument, number_of, bytes_of,
}
use wago_emscripten.GoJs.Calls.{Values, behind, put_byte, set_field, call_method}

-- The world of all calls: the values, the standard streams and the timeout identifiers given out.
pub record World : Type 0 where
  pub here : Values
  pub stdio : Stdio
  pub timeouts : ℕ

-- How a call of the guest's `resume` ends: with no error or an exit with code 0, or with another error.
pub data Resumed : Type 0 where
  came_back fell : Resumed

-- How a host call ends: it returns, traps, panics, or the program exits with a code.
pub data GoEnd : Type 0 where
  done trapped panicked : GoEnd
  exited : ℕ → GoEnd

-- The runtime and the machine: clocks, random bytes, floats, and the guest's `resume`, which may make
-- host calls of its own.
pub record Env : Type 0 where
  pub machine : Machine
  pub millis : ℕ
  pub nanos : ℕ
  pub seconds : ℕ
  pub subseconds : ℕ
  pub random : ℕ → List ℕ
  pub resume : World → Resumed × World

-- `writer.Write`: the count that the writer answers.
unfoldable pub write_stream : ℕ → List ℕ → Stdio → ℕ × Stdio
write_stream fd data' io =
    let a = next_answer (length data') io.answers in
    (a.0.0, record io { answers = a.1; sent = io.sent ++ (fd, data') ∷ [] })

-- `stdin.Read`: at most `size` bytes of the next chunk.
unfoldable pub read_stream : ℕ → Stdio → List ℕ × Stdio
read_stream size io = elim io.chunks [
  | [] ↦ ([], io)
  | c ∷ cs ↦ (take size c, record io { chunks = cs })
]

-- The descriptor of a write: 1 is stdout, all else goes to stderr.
abbrev pub stream_of : ℕ → ℕ
stream_of fd = if fd == 1 then 1 else 2

-- `int(args[i].number)`, where the argument is a number.
unfoldable pub int_argument : Machine → GoState → List Ref → ℕ → ℕ → ℕ
unfolding value_at to_int
int_argument k st args i default' = elim (number_of (value_at st (argument args i))) [
  | none ↦ default'
  | some bits ↦ to_int k bits
]

-- The read or write of `goAsyncFSCall` on the bytes of an array, from an offset and for a length that
-- have been checked: the count and what it leaves.
unfoldable pub transfer :
    Machine → Bool → GoState → Stdio → List Ref → ℕ → List ℕ → ℕ → ℕ → ℕ × GoState × Stdio
unfolding read_stream write_stream write_at int_argument
transfer k reads st io args a bs offset len =
    if reads
    then (let got = read_stream len io in
        (
          length got.0,
          record st { heap = set st.heap a (bytes (write_at bs offset got.0)) },
          got.1,
        ))
    else (let sent =
          write_stream (stream_of (int_argument k st args 0 1)) (slice bs offset len) io in
        (sent.0, st, sent.1))

-- The offset and the length, where the arguments say them, must lie within the bytes; else nothing is
-- transferred.
unfoldable pub try_transfer : Machine → Bool → GoState → Stdio → List Ref → ℕ × GoState × Stdio
unfolding value_at int_argument transfer
try_transfer k reads st io args = elim (argument args 1) [
  | none ↦ (0, st, io)
  | some a ↦ elim (bytes_of (value_at st (some a))) [
    | none ↦ (0, st, io)
    | some bs ↦
        let offset = int_argument k st args 2 0 in
        let len = int_argument k st args 3 (length bs) in
        if leb 4 (length args)
          && is_nonneg offset
          && is_nonneg len
          && leb offset (length bs)
          && leb len (length bs - offset)
        then transfer k reads st io args a bs offset len
        else (0, st, io)
  ]
]

-- The values of an event from address `base` on: the two arguments, their array, the identifier,
-- `this`, and the event itself.
abbrev pub event_values : ℕ → ℕ → ℕ → List JsValue
event_values base id count =
    null
    ∷ number (of_nat count)
    ∷ array (some base ∷ some (base + 1) ∷ [])
    ∷ number (of_nat id)
    ∷ undefined
    ∷ object (
        (name_id, some (base + 3))
        ∷ (name_this, some (base + 4))
        ∷ (name_args, some (base + 2))
        ∷ [])
    ∷ []

abbrev pub is_object : Option JsValue → Bool
is_object (some (object fields)) = true
is_object _ = false

-- The event that the program's `resume` finds as a property of entry 6. Where that entry is no object,
-- the assignment to a nil map panics.
unfoldable pub pending_event : ℕ → ℕ → GoState → Option GoState
unfolding of_nat lookup value_at set_field
pending_event id count st =
    let base = length st.heap in
    if is_object (value_at st (lookup 6 st.values))
    then some (
        set_field (record st { heap = st.heap ++ event_values base id count }) (lookup 6 st.values)
          name_pending_event (some (base + 5)))
    else none

-- The last argument's callback identifier; 0 is none.
unfoldable pub last_callback : GoState → List Ref → ℕ
unfolding value_at
last_callback st [] = 0
last_callback st (r ∷ []) = elim (value_at st r) [ some (function (callback id)) ↦ id | _ ↦ 0 ]
last_callback st (r ∷ q ∷ rs) = last_callback st (q ∷ rs)

abbrev pub same_ref : Ref → Ref → Bool
same_ref none none = true
same_ref (some a) (some b) = a == b
same_ref _ _ = false

-- Whether a call is one of `goAsyncFSCall`: `read` or `write` of the object that `global.fs` is, with a
-- callback as its last argument.
unfoldable pub is_async : GoState → Ref → List ℕ → List Ref → Bool
unfolding lookup value_at get_field last_callback
is_async st receiver method args = elim (lookup 5 st.values) [
  | none ↦ false
  | some global ↦
      same_ref receiver (get_field (value_at st (some global)) name_fs)
      && (bytes_eq method name_write || bytes_eq method name_read)
      && not (last_callback st args == 0)
]

-- The end of an asynchronous call: `undefined` and the flag, or a trap. They are written through the
-- slice of memory that was taken before `resume`, `size` bytes long; a memory that grows meanwhile stays
-- in place.
unfoldable pub finish_async : ℕ → ℕ → Resumed × World → World × GoEnd
unfolding store_new put_byte
finish_async sp size (fell, w) = (w, trapped)
finish_async sp size (came_back, w) =
    let stored = store_new w.here.state (take size w.here.memory) (behind sp 56) undefined in
    let memory = put_byte stored.0 (behind sp 64) 1 ++ drop size w.here.memory in
    (record w { here = record { state = stored.1; memory = memory } }, done)

-- `goAsyncFSCall` behind its tests, and what `goValueCall` does after it.
unfoldable pub async_call : Env → ℕ → World → List ℕ → List Ref → World × GoEnd
unfolding try_transfer pending_event last_callback finish_async
async_call e sp w method args =
    let st = w.here.state in
    let moved = try_transfer e.machine (bytes_eq method name_read) st w.stdio args in
    elim (pending_event (last_callback st args) moved.0 moved.1) [
      | none ↦ (record w { here = record (w.here) { state = moved.1 }; stdio = moved.2 }, panicked)
      | some pending ↦
          finish_async sp (length w.here.memory)
            (e.resume (record w { here = record (w.here) { state = pending }; stdio = moved.2 }))
    ]

-- `goValueCall` on what it has loaded.
unfoldable pub value_call :
    Env → ℕ → World → List ℕ → Ref → Option (List Ref) → GoState → World × GoEnd
unfolding is_async async_call call_method
value_call e sp w method receiver none st = (
  record w { here = call_method e.machine e.millis sp w.here.memory method receiver none st },
  done,
)
value_call e sp w method receiver (some args) st =
    if is_async st receiver method args
    then async_call e sp (record w { here = record (w.here) { state = st } }) method args
    else (
      record w {
        here = call_method e.machine e.millis sp w.here.memory method receiver (some args) st;
      },
      done,
    )

unfoldable pub go_value_call : Env → ℕ → World → World × GoEnd
unfolding load_go_string load_value load_go_values value_call
go_value_call e sp w =
    let memory = w.here.memory in
    let method = load_go_string memory (behind sp 16) in
    let receiver = load_value w.here.state memory (behind sp 8) in
    let args = load_go_values receiver.1 memory (behind sp 32) in
    value_call e sp w method receiver.0 args.0 args.1
