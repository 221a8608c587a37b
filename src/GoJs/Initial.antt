-- ===== src/GoJs/Initial.antt =====
-- gojs.go: the object graph that a Go program starts with.
use wago_emscripten.Common.{ℕ, true, false, some, List, [], ◌∷◌, ◌++◌, Map}
use wago_emscripten.GoJs.{
  Ref, JsValue, null, number, boolean, object, function, minus_one, cwd, unsupported, fs_write,
  write_sync, uint8_array, now, make_func_wrapper, GoState,
}
use wago_emscripten.GoJs.Floats.{nan, minus_one_bits}

-- The names of properties.
abbrev pub name_fs : List ℕ
name_fs = b'f' ∷ b's' ∷ []

abbrev pub name_process : List ℕ
name_process = b'p' ∷ b'r' ∷ b'o' ∷ b'c' ∷ b'e' ∷ b's' ∷ b's' ∷ []

abbrev pub name_constants : List ℕ
name_constants = b'c' ∷ b'o' ∷ b'n' ∷ b's' ∷ b't' ∷ b'a' ∷ b'n' ∷ b't' ∷ b's' ∷ []

abbrev pub name_write : List ℕ
name_write = b'w' ∷ b'r' ∷ b'i' ∷ b't' ∷ b'e' ∷ []

abbrev pub name_write_sync : List ℕ
name_write_sync = b'w' ∷ b'r' ∷ b'i' ∷ b't' ∷ b'e' ∷ b'S' ∷ b'y' ∷ b'n' ∷ b'c' ∷ []

abbrev pub name_read : List ℕ
name_read = b'r' ∷ b'e' ∷ b'a' ∷ b'd' ∷ []

abbrev pub name_uint8_array : List ℕ
name_uint8_array = b'U' ∷ b'i' ∷ b'n' ∷ b't' ∷ b'8' ∷ b'A' ∷ b'r' ∷ b'r' ∷ b'a' ∷ b'y' ∷ []

abbrev pub name_crypto : List ℕ
name_crypto = b'c' ∷ b'r' ∷ b'y' ∷ b'p' ∷ b't' ∷ b'o' ∷ []

abbrev pub name_performance : List ℕ
name_performance = b'p' ∷ b'e' ∷ b'r' ∷ b'f' ∷ b'o' ∷ b'r' ∷ b'm' ∷ b'a' ∷ b'n' ∷ b'c' ∷ b'e' ∷ []

abbrev pub name_make_func_wrapper : List ℕ
name_make_func_wrapper =
    b'_' ∷ b'm' ∷ b'a' ∷ b'k' ∷ b'e' ∷ b'F' ∷ b'u' ∷ b'n' ∷ b'c' ∷ b'W' ∷ b'r' ∷ b'a' ∷ b'p' ∷ b'p'
    ∷ b'e' ∷ b'r' ∷ []

abbrev pub name_pending_event : List ℕ
name_pending_event =
    b'_' ∷ b'p' ∷ b'e' ∷ b'n' ∷ b'd' ∷ b'i' ∷ b'n' ∷ b'g' ∷ b'E' ∷ b'v' ∷ b'e' ∷ b'n' ∷ b't' ∷ []

abbrev pub name_id : List ℕ
name_id = b'i' ∷ b'd' ∷ []

abbrev pub name_this : List ℕ
name_this = b't' ∷ b'h' ∷ b'i' ∷ b's' ∷ []

abbrev pub name_args : List ℕ
name_args = b'a' ∷ b'r' ∷ b'g' ∷ b's' ∷ []

abbrev pub name_cwd : List ℕ
name_cwd = b'c' ∷ b'w' ∷ b'd' ∷ []

abbrev pub name_pid : List ℕ
name_pid = b'p' ∷ b'i' ∷ b'd' ∷ []

abbrev pub name_ppid : List ℕ
name_ppid = b'p' ∷ b'p' ∷ b'i' ∷ b'd' ∷ []

-- The flags of `constants`, all -1.
abbrev flag_names : List (List ℕ)
flag_names =
    (b'O' ∷ b'_' ∷ b'W' ∷ b'R' ∷ b'O' ∷ b'N' ∷ b'L' ∷ b'Y' ∷ [])
    ∷ (b'O' ∷ b'_' ∷ b'R' ∷ b'D' ∷ b'W' ∷ b'R' ∷ [])
    ∷ (b'O' ∷ b'_' ∷ b'C' ∷ b'R' ∷ b'E' ∷ b'A' ∷ b'T' ∷ [])
    ∷ (b'O' ∷ b'_' ∷ b'T' ∷ b'R' ∷ b'U' ∷ b'N' ∷ b'C' ∷ [])
    ∷ (b'O' ∷ b'_' ∷ b'A' ∷ b'P' ∷ b'P' ∷ b'E' ∷ b'N' ∷ b'D' ∷ [])
    ∷ (b'O' ∷ b'_' ∷ b'E' ∷ b'X' ∷ b'C' ∷ b'L' ∷ [])
    ∷ []

-- The functions of `process` that answer -1.
abbrev user_names : List (List ℕ)
user_names =
    (b'g' ∷ b'e' ∷ b't' ∷ b'u' ∷ b'i' ∷ b'd' ∷ [])
    ∷ (b'g' ∷ b'e' ∷ b't' ∷ b'g' ∷ b'i' ∷ b'd' ∷ [])
    ∷ (b'g' ∷ b'e' ∷ b't' ∷ b'e' ∷ b'u' ∷ b'i' ∷ b'd' ∷ [])
    ∷ (b'g' ∷ b'e' ∷ b't' ∷ b'e' ∷ b'g' ∷ b'i' ∷ b'd' ∷ [])
    ∷ []

-- The functions of `fs` that answer an error.
abbrev unsupported_names : List (List ℕ)
unsupported_names =
    (b'r' ∷ b'e' ∷ b'a' ∷ b'd' ∷ [])
    ∷ (b'o' ∷ b'p' ∷ b'e' ∷ b'n' ∷ [])
    ∷ (b'c' ∷ b'l' ∷ b'o' ∷ b's' ∷ b'e' ∷ [])
    ∷ (b's' ∷ b't' ∷ b'a' ∷ b't' ∷ [])
    ∷ (b'f' ∷ b's' ∷ b't' ∷ b'a' ∷ b't' ∷ [])
    ∷ (b'l' ∷ b's' ∷ b't' ∷ b'a' ∷ b't' ∷ [])
    ∷ (b'r' ∷ b'e' ∷ b'a' ∷ b'd' ∷ b'd' ∷ b'i' ∷ b'r' ∷ [])
    ∷ (b'r' ∷ b'e' ∷ b'a' ∷ b'd' ∷ b'l' ∷ b'i' ∷ b'n' ∷ b'k' ∷ [])
    ∷ (b'm' ∷ b'k' ∷ b'd' ∷ b'i' ∷ b'r' ∷ [])
    ∷ (b'r' ∷ b'm' ∷ b'd' ∷ b'i' ∷ b'r' ∷ [])
    ∷ (b'r' ∷ b'e' ∷ b'n' ∷ b'a' ∷ b'm' ∷ b'e' ∷ [])
    ∷ (b'u' ∷ b'n' ∷ b'l' ∷ b'i' ∷ b'n' ∷ b'k' ∷ [])
    ∷ (b'c' ∷ b'h' ∷ b'm' ∷ b'o' ∷ b'd' ∷ [])
    ∷ (b'c' ∷ b'h' ∷ b'o' ∷ b'w' ∷ b'n' ∷ [])
    ∷ (b'f' ∷ b'c' ∷ b'h' ∷ b'm' ∷ b'o' ∷ b'd' ∷ [])
    ∷ (b'f' ∷ b'c' ∷ b'h' ∷ b'o' ∷ b'w' ∷ b'n' ∷ [])
    ∷ (b'f' ∷ b's' ∷ b'y' ∷ b'n' ∷ b'c' ∷ [])
    ∷ (b'f' ∷ b't' ∷ b'r' ∷ b'u' ∷ b'n' ∷ b'c' ∷ b'a' ∷ b't' ∷ b'e' ∷ [])
    ∷ (b'l' ∷ b'i' ∷ b'n' ∷ b'k' ∷ [])
    ∷ (b's' ∷ b'y' ∷ b'm' ∷ b'l' ∷ b'i' ∷ b'n' ∷ b'k' ∷ [])
    ∷ (b't' ∷ b'r' ∷ b'u' ∷ b'n' ∷ b'c' ∷ b'a' ∷ b't' ∷ b'e' ∷ [])
    ∷ (b'u' ∷ b't' ∷ b'i' ∷ b'm' ∷ b'e' ∷ b's' ∷ [])
    ∷ []

abbrev name_now : List ℕ
name_now = b'n' ∷ b'o' ∷ b'w' ∷ []

-- An object's fields that hold one value.
unfoldable pub fields_at : ℕ → List (List ℕ) → Map (List ℕ) Ref
fields_at a [] = []
fields_at a (name ∷ names) = (name, some a) ∷ fields_at a names

-- The values of `newGoState` by their addresses. The source makes a number and a function anew for each
-- name; neither is ever changed, so that one stands for all.
abbrev pub initial_heap : List JsValue
initial_heap =
    number nan
    ∷ number 0
    ∷ null
    ∷ boolean true
    ∷ boolean false
    ∷ object (
        (name_fs, some 8)
        ∷ (name_process, some 9)
        ∷ (name_uint8_array, some 16)
        ∷ (name_crypto, some 18)
        ∷ (name_performance, some 19)
        ∷ [])
    ∷ object ((name_make_func_wrapper, some 20) ∷ [])
    ∷ object (fields_at 10 flag_names)
    ∷ object (
        (name_constants, some 7) ∷ fields_at 13 unsupported_names
        ++ (name_write, some 14) ∷ (name_write_sync, some 15) ∷ [])
    ∷ object (
        (name_pid, some 10) ∷ (name_ppid, some 10) ∷ fields_at 11 user_names
        ++ (name_cwd, some 12) ∷ [])
    ∷ number minus_one_bits
    ∷ function minus_one
    ∷ function cwd
    ∷ function unsupported
    ∷ function fs_write
    ∷ function write_sync
    ∷ function uint8_array
    ∷ function now
    ∷ object []
    ∷ object ((name_now, some 17) ∷ [])
    ∷ function make_func_wrapper
    ∷ []

-- `newGoState`
abbrev pub new_go_state : GoState
new_go_state = record {
  heap = initial_heap;
  values = (0, 0) ∷ (1, 1) ∷ (2, 2) ∷ (3, 3) ∷ (4, 4) ∷ (5, 5) ∷ (6, 6) ∷ [];
  next_id = 7;
}
