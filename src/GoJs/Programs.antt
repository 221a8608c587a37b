-- ===== src/GoJs/Programs.antt =====
-- gojs.go: a Go program as the host sees it, with the `resume` that comes back into it.
use wago_emscripten.Common.{ℕ, suc, ◌+◌, List, ◌==◌, if◌then◌else◌}
use wago_emscripten.GoJs.Resume.{
  World, Resumed, came_back, fell, GoEnd, done, trapped, panicked, exited, Env,
}
use wago_emscripten.GoJs.Runtime.{GoCall, go_dispatch}

-- What a guest's function does: it returns or fails, or it changes memory and makes a host call with a
-- stack pointer. A call that enters `resume` runs the first program inside it; the second program is
-- what the function does afterwards.
pub data Program : Type 0 where
  returned : Program
  failed : Program
  host_call : (List ℕ → List ℕ) → GoCall → ℕ → Program → Program → Program

-- The host calls of a program, those inside `resume` included.
unfoldable pub call_count : Program → ℕ
call_count returned = 0
call_count failed = 0
call_count (host_call change call sp inner rest) = suc (call_count inner + call_count rest)

-- A call that does not return ends the function; an exit with code 0 is no error.
abbrev pub after_end : GoEnd → World → Resumed × World → Resumed × World
after_end done w rest = rest
after_end trapped w rest = (fell, w)
after_end panicked w rest = (fell, w)
after_end (exited code) w rest = (if code == 0 then came_back else fell, w)

-- A run of the function, with the programs of its `resume` in the place of the environment's.
unfoldable pub run_program : Env → Program → World → Resumed × World
unfolding go_dispatch
run_program e returned w = (came_back, w)
run_program e failed w = (fell, w)
run_program e (host_call change call sp inner rest) w =
    let changed : World = record w { here = record (w.here) { memory = change w.here.memory } } in
    let r = go_dispatch (record e { resume = run_program e inner }) call sp changed in
    after_end r.1 r.0 (run_program e rest r.0)
