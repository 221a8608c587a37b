-- ===== src/FileSystem/Environ.antt =====
-- filesystem.go: the configured environment of standalone modules.
use wago_emscripten.Common.{ℕ, suc, ◌+◌, ◌*◌, ◌||◌, List, [], ◌∷◌, length, ltb, if◌then◌else◌, u32}
use wago_emscripten.Memory.{write_at, put_u32}
use wago_emscripten.FileSystem.{err_fault}
use wago_emscripten.FileSystem.Reply.{wasi_errno, Plugin, Module, Outcome, refuse}

-- `total`: every entry with its NUL.
unfoldable pub env_size : List (List ℕ) → ℕ
env_size [] = 0
env_size (entry ∷ env) = length entry + 1 + env_size env

unfoldable pub wasi_environ_sizes_get : Plugin → Module → ℕ → ℕ → Outcome
unfolding env_size write_at
wasi_environ_sizes_get p m p0 p1 =
    if ltb (length m.memory) (u32 p0 + 4) || ltb (length m.memory) (u32 p1 + 4)
    then refuse p m (wasi_errno err_fault)
    else record {
      plugin = p;
      memory = put_u32 (put_u32 m.memory (u32 p0) (length p.env)) (u32 p1) (env_size p.env);
      result = wasi_errno 0;
    }

-- The loop of `wasiEnvironGet` from entry `i` on: the pointer, the entry, its NUL. The caller has
-- checked that all of it lies in memory.
unfoldable pub environ_loop : ℕ → ℕ → ℕ → List (List ℕ) → List ℕ → List ℕ
unfolding write_at
environ_loop pointers i offset [] mem = mem
environ_loop pointers i offset (entry ∷ env) mem =
    let mem' = write_at (put_u32 mem (u32 (pointers + u32 (i * 4))) offset) offset entry in
    let end = u32 (offset + length entry) in
    environ_loop pointers (suc i) (u32 (end + 1)) env (write_at mem' end (0 ∷ []))

unfoldable pub wasi_environ_get : Plugin → Module → ℕ → ℕ → Outcome
unfolding env_size environ_loop
wasi_environ_get p m p0 p1 =
    if ltb (length m.memory) (u32 p0 + length p.env * 4)
      || ltb (length m.memory) (u32 p1 + env_size p.env)
    then refuse p m (wasi_errno err_fault)
    else record {
      plugin = p;
      memory = environ_loop (u32 p0) 0 (u32 p1) p.env m.memory;
      result = wasi_errno 0;
    }
