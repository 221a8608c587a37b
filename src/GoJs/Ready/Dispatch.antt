-- ===== src/GoJs/Ready/Dispatch.antt =====
-- gojs.go: every host call of a Go program keeps the predefined values and counts its identifiers.
use wago_emscripten.Common.{
  ℕ, suc, ◌+◌, ◌^◌, ◌<◌, ◌≤◌, ◌≡◌, subst, take, true, false, inl, inr, Option, none, some, List,
  ◌++◌, length, bytes_eq, Bool-cases, Option-cases, lookup, bytes_key, nat_eq, arith,
}
use wago_emscripten.GoJs.{Ref, undefined, GoState, value_at, load_value}
use wago_emscripten.GoJs.Access.{load_go_string, load_go_values}
use wago_emscripten.GoJs.Calls.{behind, set_field}
use wago_emscripten.GoJs.Initial.{name_read, name_pending_event}
use wago_emscripten.GoJs.Resume.{
  World, Resumed, came_back, fell, Env, try_transfer, event_values, pending_event, last_callback,
  is_object, is_async, finish_async, async_call, value_call, go_value_call,
}
use wago_emscripten.GoJs.Runtime.{
  GoCall, reset_memory, wasm_exit, wasm_write, nanotime, walltime, schedule_timeout, random_data,
  quiet, string_val, value_get, value_set, value_index, value_set_index, call_value, new_value,
  value_length, prepare_string, load_string, bytes_to_go, bytes_to_js, go_dispatch,
}
use wago_emscripten.GoJs.Ready.{
  Grows, Grows-refl, Grows-trans, Grows-weaken, Grows-append, Grows-load_value,
}
use wago_emscripten.GoJs.Ready.Calling.{
  HasRoom, Grows-both, Grows-store_new, Grows-load_go_values, Grows-call_method,
}
use wago_emscripten.GoJs.Ready.Steps.{
  Grows-set_field, Grows-go_string_val, Grows-go_value_get, Grows-go_value_set,
  Grows-go_value_index, Grows-go_value_set_index, Grows-go_value_new, Grows-go_value_length,
  Grows-go_prepare_string, Grows-go_load_string,
}
use wago_emscripten.GoJs.Ready.Copying.{Grows-go_copy_bytes, Grows-try_transfer}

Grows-pending_event :
    (id count : ℕ) (st : GoState) {pending : GoState}
    → pending_event id count st ≡ some pending
    → Grows 0 st pending
unfolding pending_event
Grows-pending_event id count st {pending} e =
    let st' : GoState = record st { heap = st.heap ++ event_values (length st.heap) id count } in
    elim (Bool-cases (is_object (value_at st (lookup 6 st.values)))) [
      | inr z ↦ absurd (ground arith)
      | inl z ↦
          let same : set_field st' (lookup 6 st.values) name_pending_event
                (some (length st.heap + 5))
              ≡ pending =
            ground arith in
          subst (Grows 0 st) same (
            Grows-both st st' _ (Grows-append st (event_values (length st.heap) id count))
              (Grows-set_field st' (lookup 6 st.values) _ _))
    ]

Grows-finish_async :
    (sp size : ℕ) (r : Resumed × World)
    → HasRoom r.1.here.state
    → Grows 1 r.1.here.state (finish_async sp size r).0.here.state
unfolding finish_async
Grows-finish_async sp size (fell, w) room =
    Grows-weaken 0 1 w.here.state w.here.state (omega arith) (Grows-refl w.here.state)
Grows-finish_async sp size (came_back, w) room =
    Grows-store_new w.here.state w.here.state (take size w.here.memory) (behind sp 56) undefined
      room (Grows-refl w.here.state)

-- A `resume` that gives out at most `n` identifiers.
module _ (e : Env) (n : ℕ)
    (resumes : (v : World)
      → 7 ≤ v.here.state.next_id
      → v.here.state.next_id + n < 2 ^ 32
      → Grows n v.here.state (e.resume v).1.here.state) where
  Grows-async_call :
      (sp : ℕ) (w : World) (method : List ℕ) (args : List Ref)
      → 7 ≤ w.here.state.next_id
      → w.here.state.next_id + suc n < 2 ^ 32
      → Grows (suc n) w.here.state (async_call e sp w method args).0.here.state
  unfolding async_call
  Grows-async_call sp w method args low high =
      let st = w.here.state in
      let moved = try_transfer e.machine (bytes_eq method name_read) st w.stdio args in
      let transferred = Grows-try_transfer e.machine (bytes_eq method name_read) st w.stdio args in
      elim (Option-cases (pending_event (last_callback st args) moved.0 moved.1)) [
        | inl z ↦ rw (z, async_call) (Grows-weaken 0 (suc n) st moved.1 (omega arith) transferred)
        | inr (pending, z) ↦
            let before =
              Grows-both st moved.1 pending transferred
                (Grows-pending_event (last_callback st args) moved.0 moved.1 z) in
            let called : World = record w {
              here = record (w.here) { state = pending };
              stdio = moved.2;
            } in
            let inside =
              resumes called (omega (arith, low, before.at_least))
                (omega (arith, high, before.at_most)) in
            let room : HasRoom (e.resume called).1.here.state = record {
              low = omega (arith, low, before.at_least, inside.at_least);
              high = omega (arith, high, before.at_most, inside.at_most);
            } in
            rw (z, async_call)
              (Grows-weaken (0 + n + 1) (suc n) st _ (omega arith) (
                Grows-trans (0 + n) 1 st (e.resume called).1.here.state _
                  (Grows-trans 0 n st pending (e.resume called).1.here.state before inside)
                  (Grows-finish_async sp (length w.here.memory) (e.resume called) room)))
      ]

  Grows-value_call :
      (sp : ℕ) (w : World) (method : List ℕ) (receiver : Ref) (args : Option (List Ref))
      (st : GoState)
      → Grows 0 w.here.state st
      → 7 ≤ w.here.state.next_id
      → w.here.state.next_id + suc n < 2 ^ 32
      → Grows (suc n) w.here.state (value_call e sp w method receiver args st).0.here.state
  unfolding value_call
  Grows-value_call sp w method receiver none st g low high =
      let room : HasRoom w.here.state = record { low = low; high = omega (arith, high) } in
      Grows-weaken 1 (suc n) w.here.state _ (omega arith) (
        Grows-call_method e.machine e.millis sp w.here.memory method receiver none w.here.state st
          room g)
  Grows-value_call sp w method receiver (some args) st g low high =
      let room : HasRoom w.here.state = record { low = low; high = omega (arith, high) } in
      elim (Bool-cases (is_async st receiver method args)) [
        | inl z ↦ rw z (
            Grows-weaken (0 + suc n) (suc n) w.here.state _ (omega arith) (
              Grows-trans 0 (suc n) w.here.state st _ g (
                Grows-async_call sp (record w { here = record (w.here) { state = st } }) method args
                  (omega (arith, low, g.at_least)) (omega (arith, high, g.at_most)))))
        | inr z ↦ rw z (
            Grows-weaken 1 (suc n) w.here.state _ (omega arith) (
              Grows-call_method e.machine e.millis sp w.here.memory method receiver (some args)
                w.here.state st room g))
      ]

  Grows-go_value_call :
      (sp : ℕ) (w : World)
      → 7 ≤ w.here.state.next_id
      → w.here.state.next_id + suc n < 2 ^ 32
      → Grows (suc n) w.here.state (go_value_call e sp w).0.here.state
  unfolding go_value_call
  Grows-go_value_call sp w low high =
      let receiver = load_value w.here.state w.here.memory (behind sp 8) in
      let args = load_go_values receiver.1 w.here.memory (behind sp 32) in
      Grows-value_call sp w (load_go_string w.here.memory (behind sp 16)) receiver.0 args.0 args.1
        (Grows-both w.here.state receiver.1 args.1
          (Grows-load_value w.here.state w.here.memory (behind sp 8))
          (Grows-load_go_values receiver.1 w.here.memory (behind sp 32)))
        low high

  -- A host call gives out one identifier more than its `resume`.
  pub Grows-go_dispatch :
      (call : GoCall) (sp : ℕ) (w : World)
      → 7 ≤ w.here.state.next_id
      → w.here.state.next_id + suc n < 2 ^ 32
      → Grows (suc n) w.here.state (go_dispatch e call sp w).0.here.state
  unfolding go_dispatch
  Grows-go_dispatch call sp w low high = by_call call
    where
      room : HasRoom w.here.state
      room = record { low = low; high = omega (arith, high) }

      one : {st : GoState} → Grows 1 w.here.state st → Grows (suc n) w.here.state st
      one g = Grows-weaken 1 (suc n) w.here.state _ (omega arith) g

      none_given : {st : GoState} → Grows 0 w.here.state st → Grows (suc n) w.here.state st
      none_given g = Grows-weaken 0 (suc n) w.here.state _ (omega arith) g

      same : Grows (suc n) w.here.state w.here.state
      same = none_given (Grows-refl w.here.state)

      by_call : (call : GoCall) → Grows (suc n) w.here.state (go_dispatch e call sp w).0.here.state
      by_call reset_memory = same
      by_call quiet = same
      by_call wasm_exit = same
      by_call wasm_write = same
      by_call nanotime = same
      by_call walltime = same
      by_call schedule_timeout = same
      by_call random_data = same
      by_call string_val = one (Grows-go_string_val sp w.here room)
      by_call value_get = one (Grows-go_value_get sp w.here room)
      by_call value_set = one (Grows-go_value_set sp w.here room)
      by_call value_index = one (Grows-go_value_index sp w.here room)
      by_call value_set_index = one (Grows-go_value_set_index sp w.here room e.machine)
      by_call call_value = Grows-go_value_call sp w low high
      by_call new_value = one (Grows-go_value_new sp w.here room e.machine e.millis)
      by_call value_length = one (Grows-go_value_length sp w.here room)
      by_call prepare_string = one (Grows-go_prepare_string sp w.here room e.machine)
      by_call load_string = one (Grows-go_load_string sp w.here room)
      by_call bytes_to_go = none_given (Grows-go_copy_bytes true sp w.here)
      by_call bytes_to_js = none_given (Grows-go_copy_bytes false sp w.here)
