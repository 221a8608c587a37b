-- ===== src/GoJs/Instances.antt =====
-- gojs.go: the state of each instance, and what a call does before it works on a state.
use wago_emscripten.Common.{
  ℕ, Bool, true, false, none, some, List, [], ◌∷◌, if◌then◌else◌, u32, Map, insert, erase, nat_eq,
}
use wago_emscripten.FileSystem.Reply.{Stdio, Module}
use wago_emscripten.GoJs.{GoState}
use wago_emscripten.GoJs.Initial.{new_go_state}
use wago_emscripten.GoJs.Resume.{World, GoEnd, done, exited, Env}
use wago_emscripten.GoJs.Runtime.{
  GoCall, wasm_exit, wasm_write, nanotime, walltime, schedule_timeout, random_data, quiet,
  go_dispatch, go_state_for,
}

-- The part of the plugin that the calls use: `p.states`, the streams, and `nextTimeoutID`.
pub record GoPlugin : Type 0 where
  pub states : Map ℕ GoState
  pub stdio : Stdio
  pub timeouts : ℕ

pub record GoOutcome : Type 0 where
  pub plugin : GoPlugin
  pub memory : List ℕ
  pub ended : GoEnd

-- The calls that work on memory alone take no state, and make none.
abbrev pub needs_state : GoCall → Bool
needs_state wasm_exit = false
needs_state wasm_write = false
needs_state nanotime = false
needs_state walltime = false
needs_state schedule_timeout = false
needs_state random_data = false
needs_state quiet = false
needs_state _ = true

abbrev pub world_of : GoPlugin → List ℕ → GoState → World
world_of p memory st = record {
  here = record { state = st; memory = memory };
  stdio = p.stdio;
  timeouts = p.timeouts;
}

-- What a call on memory alone leaves.
abbrev pub keep_streams : GoPlugin → World × GoEnd → GoOutcome
keep_streams p r = record {
  plugin = record p { stdio = r.0.stdio; timeouts = r.0.timeouts };
  memory = r.0.here.memory;
  ended = r.1;
}

-- Without parameters `goExit` ends the program and every other call does nothing.
abbrev pub without_parameters : GoPlugin → List ℕ → GoCall → GoOutcome
without_parameters p memory wasm_exit = record { plugin = p; memory = memory; ended = exited 0 }
without_parameters p memory _ = record { plugin = p; memory = memory; ended = done }

-- A call on values of a resolved caller: its state is made on its first use, also where the parameters
-- are missing.
unfoldable pub call_on_state : Env → GoPlugin → ℕ → List ℕ → GoCall → List ℕ → GoOutcome
unfolding go_state_for insert go_dispatch
call_on_state e p id memory call [] =
    without_parameters (record p { states = insert id (go_state_for p.states id) p.states }) memory
      call
call_on_state e p id memory call (sp ∷ params) =
    let r = go_dispatch e call (u32 sp) (world_of p memory (go_state_for p.states id)) in
    keep_streams (record p { states = insert id r.0.here.state p.states }) r

unfoldable pub call_on_memory : Env → GoPlugin → List ℕ → GoCall → List ℕ → GoOutcome
unfolding go_dispatch
call_on_memory e p memory call [] = without_parameters p memory call
call_on_memory e p memory call (sp ∷ params) =
    keep_streams p (go_dispatch e call (u32 sp) (world_of p memory new_go_state))

-- A host call: a caller that is not resolved gets no value call.
unfoldable pub go_call : Env → GoPlugin → Module → GoCall → List ℕ → GoOutcome
unfolding call_on_state call_on_memory
go_call e p m call params =
    if needs_state call
    then elim m.identity [
      | none ↦ record { plugin = p; memory = m.memory; ended = done }
      | some id ↦ call_on_state e p id m.memory call params
    ]
    else call_on_memory e p m.memory call params

-- `delete(p.states, event.Instance)`
unfoldable pub go_closed : ℕ → GoPlugin → GoPlugin
unfolding erase
go_closed id p = record p { states = erase id p.states }
