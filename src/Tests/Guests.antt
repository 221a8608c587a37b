-- ===== src/Tests/Guests.antt =====
-- A plugin with two instances, and the calls on guest memory and on the guest's exports.
use wago_emscripten.Common.{
  ℕ, ◌+◌, ◌*◌, ◌^◌, ◌≤◌, true, ◌≡◌, ◌≢◌, refl, none, some, Option, List, [], ◌∷◌, ◌++◌, length,
  take, drop, if◌then◌else◌, ◌==◌, ◌-◌, has_prefix, lookup, insert, erase, bytes_eq, nat_eq,
  bytes_key, arith,
}
use wago_emscripten.Memory.{slice, c_string, until_nul}
use wago_emscripten.Paths.{
  clean_guest_path, clean, split_slash, resolve, render, join, dir, dir_part,
}
use wago_emscripten.FileSystem.{FileSystem, new_file_system, retain, is_dir, deref, size_of}
use wago_emscripten.FileSystem.Reply.{Plugin, Module, file_system, with_file_system}
use wago_emscripten.FileSystem.Accounts.{live_bytes, live_size}
use wago_emscripten.FileSystem.Descriptors.{
  syscall_openat, openat_on, open_file, create_file, new_handle,
}
use wago_emscripten.FileSystem.Mappings.{Memalign}
use wago_emscripten.FileSystem.Calls.{Call, openat, dispatch}
use wago_emscripten.FileSystem.Calls.Runs.{dispatch-IsSound}
use wago_emscripten.FileSystem.Serves.{IsSound}
use wago_emscripten.FileSystem.Invariant.{IsLimits, names_of, holders_of}
use wago_emscripten.Lifecycle.{
  Config, Json, Event, called, closed, step, run, limits_of, decode_config, known_keys, is_accepted,
  has_bad_entry,
}
use wago_emscripten.Lifecycle.Runs.{fresh-IsSound, run-quota, run-others, decode_config-IsLimits}
use wago_emscripten.Host.{
  returned, memcpy_big, put_c_string, ValType, val_i32, invoke_signature, supports_invoke,
  is_listed, integer_signatures,
}
use wago_emscripten.Host.Copies.{memcpy_big_lem, put_c_string_lem}
use wago_emscripten.Host.Trampolines.{supports_invoke_lem, supports_invoke-exact}
use wago_emscripten.Host.Reentry.{
  answered, longjmp, Invoker, stack_get_current, stack_restore, set_threw, wrapper_prefix, invoke,
  invoke-unwinds,
}
use wago_emscripten.Tests.Fixtures.{small_limits, small_limits-IsLimits}

abbrev memalign : Memalign
memalign mem size = (none, mem)

abbrev plugin : Plugin
plugin = record {
  files = [];
  limits = small_limits;
  env = [];
  stdio = record { answers = []; sent = []; chunks = [] };
}

-- Instance 1, with the path `a` at address 4.
abbrev guest : Module
guest = record { identity = some 1; memory = 0 ∷ 0 ∷ 0 ∷ 0 ∷ b'a' ∷ 0 ∷ [] }

-- `openat(AT_FDCWD, "a", O_RDWR|O_CREAT, 0)`
abbrev open_a : Call
open_a = openat 0xffffff9c 4 66 0

dispatch-IsSound_example : IsSound (dispatch memalign plugin guest open_a).plugin
dispatch-IsSound_example =
    dispatch-IsSound memalign plugin guest open_a (fresh-IsSound plugin small_limits-IsLimits refl)

abbrev events : List Event
events = called guest open_a ∷ closed 2 ∷ []

found_by : Option FileSystem → FileSystem
found_by none = new_file_system
found_by (some fs) = fs

opened_fs : FileSystem
unfolding found_by
opened_fs = found_by (lookup 1 (run memalign plugin events).files)

opened_lem : lookup 1 (run memalign plugin events).files ≡ some opened_fs
unfolding opened_fs found_by run step dispatch syscall_openat with_file_system file_system c_string
    until_nul clean_guest_path clean split_slash resolve render join lookup insert erase openat_on
    create_file open_file new_handle retain deref dir dir_part is_dir bytes_eq
opened_lem = refl

run-quota_example :
    (opened_fs.bytes ≡ live_bytes opened_fs.heap)
    × ((p : ℕ)
        → (if names_of opened_fs p + holders_of opened_fs p == 0
            then 0
            else size_of (deref opened_fs.heap p))
          ≤ live_size (deref opened_fs.heap p))
    × (opened_fs.bytes ≤ 65536)
    × (length opened_fs.fds + 3 ≤ 16)
run-quota_example =
    run-quota memalign plugin events 1 opened_fs small_limits-IsLimits refl opened_lem

other_identity : guest.identity ≢ some 7
other_identity e = ground arith

run-others_example : lookup 7 (run memalign plugin events).files ≡ lookup 7 plugin.files
run-others_example = run-others memalign plugin events 7 (other_identity, (refl, tt))

abbrev default_config : Config
default_config = record {
  stdin = [];
  stdout = [];
  stderr = [];
  env = [];
  max_filesystem_bytes = 0;
  max_open_files = 0;
}

-- The parser as the two texts need it.
abbrev json : Json
json = record { keys = λ text. some []; config = λ text. some default_config }

decode_config-IsLimits_example :
    (65536 ≤ (limits_of default_config).max_filesystem_bytes)
    × ((limits_of default_config).max_filesystem_bytes ≤ 256 * 2 ^ 20)
    × (3 ≤ (limits_of default_config).max_open_files)
    × ((limits_of default_config).max_open_files ≤ 65536)
    × IsLimits (limits_of default_config)
unfolding decode_config known_keys is_accepted has_bad_entry bytes_eq
decode_config-IsLimits_example = decode_config-IsLimits json [] default_config refl

-- Overlapping ranges.
memcpy_big_lem_example :
    ((memcpy_big (1 ∷ 2 ∷ 3 ∷ 4 ∷ 5 ∷ []) 1 0 3).1 ≡ returned (1 ∷ []))
    × (slice (memcpy_big (1 ∷ 2 ∷ 3 ∷ 4 ∷ 5 ∷ []) 1 0 3).0 1 3 ≡ 1 ∷ 2 ∷ 3 ∷ [])
    × (take 1 (memcpy_big (1 ∷ 2 ∷ 3 ∷ 4 ∷ 5 ∷ []) 1 0 3).0 ≡ 1 ∷ [])
    × (drop 4 (memcpy_big (1 ∷ 2 ∷ 3 ∷ 4 ∷ 5 ∷ []) 1 0 3).0 ≡ 5 ∷ [])
memcpy_big_lem_example =
    memcpy_big_lem (1 ∷ 2 ∷ 3 ∷ 4 ∷ 5 ∷ []) 1 0 3 (omega arith) (omega arith) (omega arith)
      (omega arith) (omega arith)

-- Two of the three letters fit.
put_c_string_lem_example :
    (c_string (put_c_string (9 ∷ 9 ∷ 9 ∷ 9 ∷ 9 ∷ []) 1 (b'a' ∷ b'b' ∷ b'c' ∷ []) 3) 1
      ≡ some (b'a' ∷ b'b' ∷ []))
    × (take 1 (put_c_string (9 ∷ 9 ∷ 9 ∷ 9 ∷ 9 ∷ []) 1 (b'a' ∷ b'b' ∷ b'c' ∷ []) 3) ≡ 9 ∷ [])
    × (length (put_c_string (9 ∷ 9 ∷ 9 ∷ 9 ∷ 9 ∷ []) 1 (b'a' ∷ b'b' ∷ b'c' ∷ []) 3) ≡ 5)
put_c_string_lem_example =
    put_c_string_lem (9 ∷ 9 ∷ 9 ∷ 9 ∷ 9 ∷ []) 1 (b'a' ∷ b'b' ∷ b'c' ∷ []) 3 (omega arith)
      (omega arith) refl

abbrev invoke_vii : List ℕ
invoke_vii = b'i' ∷ b'n' ∷ b'v' ∷ b'o' ∷ b'k' ∷ b'e' ∷ b'_' ∷ b'v' ∷ b'i' ∷ b'i' ∷ []

vii_supported : supports_invoke invoke_vii ≡ true
unfolding is_listed integer_signatures bytes_eq has_prefix
vii_supported = supports_invoke-exact invoke_vii

supports_invoke_lem_example :
    (params : List ValType) × (results : List ValType) × (invoke_signature (b'v' ∷ b'i' ∷ b'i' ∷ [])
      ≡ some (val_i32 ∷ params, results))
    × (length params + 1 ≡ 3)
    × (length results ≤ 1)
supports_invoke_lem_example = supports_invoke_lem invoke_vii vii_supported

-- A guest that is its stack pointer. The callback takes 16 bytes of stack and leaves by longjmp; the
-- last clause is for any other export.
first_of : List ℕ → ℕ
first_of [] = 0
first_of (n ∷ ns) = n

guest_call : Invoker ℕ
guest_call name params pointer =
    if bytes_eq name stack_get_current
    then (answered (pointer ∷ []), pointer)
    else if bytes_eq name set_threw
    then (answered [], pointer)
    else if bytes_eq name stack_restore
    then (answered [], first_of params)
    else (longjmp, pointer - 16)

guest_reads : (w : ℕ) → guest_call stack_get_current [] w ≡ (answered (w ∷ []), w)
unfolding guest_call first_of bytes_eq
guest_reads w = refl

guest_restores :
    (n w : ℕ) → (w' : ℕ) × (guest_call stack_restore (n ∷ []) w ≡ (answered [], w')) × (w' ≡ n)
unfolding guest_call first_of bytes_eq
guest_restores n w = (n, refl, refl)

guest_throws :
    (w : ℕ) → (w' : ℕ) × (guest_call set_threw (1 ∷ 0 ∷ []) w ≡ (answered [], w')) × (w' ≡ w)
unfolding guest_call first_of bytes_eq
guest_throws w = (w, refl, refl)

guest_jumps : guest_call (wrapper_prefix ++ invoke_vii) (5 ∷ 1 ∷ 2 ∷ []) 4096 ≡ (longjmp, 4080)
unfolding guest_call first_of bytes_eq
guest_jumps = refl

invoke-unwinds_example :
    ((invoke guest_call invoke_vii (5 ∷ 1 ∷ 2 ∷ []) (77 ∷ []) 4096).0 ≡ returned (0 ∷ []))
    × ((invoke guest_call invoke_vii (5 ∷ 1 ∷ 2 ∷ []) (77 ∷ []) 4096).1 ≡ 4096)
invoke-unwinds_example =
    invoke-unwinds guest_call (λ w. w) invoke_vii (5 ∷ 1 ∷ 2 ∷ []) (77 ∷ []) 4096 4080 guest_reads
      guest_restores guest_throws guest_jumps
