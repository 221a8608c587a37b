-- ===== src/Tests/Fixtures.antt =====
-- filesystem.go: small filesystems and what holds of them.
use wago_emscripten.Common.{
  ℕ, zero, suc, ◌+◌, ◌≤◌, ◌<◌, true, ◌≡◌, refl, none, some, List, [], ◌∷◌, lookup, bytes_eq,
  bytes_key, nat_eq, sum_by, arith,
}
use wago_emscripten.Paths.{root, dir}
use wago_emscripten.FileSystem.{FileSystem, OpenFile, pos, deref, size_of, is_dir}
use wago_emscripten.FileSystem.Reply.{Limits}
use wago_emscripten.FileSystem.Accounts.{Sound, live_bytes, link_count, Covers}
use wago_emscripten.FileSystem.Invariant.{IsLimits, IsValid, names_of, holders_of}

abbrev pub small_limits : Limits
small_limits = record { max_filesystem_bytes = 65536; max_open_files = 16 }

pub small_limits-IsLimits : IsLimits small_limits
small_limits-IsLimits = record { small = omega arith; room = omega arith }

abbrev pub name_a : List ℕ
name_a = b'/' ∷ b'a' ∷ []

abbrev pub name_b : List ℕ
name_b = b'/' ∷ b'b' ∷ []

abbrev pub handle : OpenFile
handle = record { file = 0; offset = 1; flags = 2 }

abbrev pub demo : FileSystem
demo = record {
  heap = record { contents = 1 ∷ 2 ∷ 3 ∷ []; linked = true; refs = pos 1 } ∷ [];
  files = (name_a, 0) ∷ [];
  dirs = (root, true) ∷ [];
  fds = (3, handle) ∷ [];
  next_fd = 4;
  bytes = 3;
  temp_ret0 = 0;
  mappings = [];
}

demo_named : (p : ℕ) → names_of demo p ≡ link_count (deref demo.heap p)
unfolding sum_by deref
demo_named zero = ground arith
demo_named (suc p) = ground arith

demo_held : (p : ℕ) → Covers (holders_of demo p) (deref demo.heap p).refs
unfolding sum_by deref
demo_held zero = ground arith
demo_held (suc p) = ground arith

demo-Sound : Sound 65536 demo.heap demo.bytes (names_of demo) (holders_of demo)
unfolding sum_by deref live_bytes
demo-Sound = record { accounted = refl; within = omega arith; named = demo_named; held = demo_held }

pub demo-IsValid : IsValid small_limits demo
unfolding lookup
demo-IsValid = record {
  sound = demo-Sound;
  few = omega arith;
  unique_files = (refl, tt);
  unique_dirs = (refl, tt);
  unique_fds = (refl, tt);
  unique_mappings = tt;
}

pub demo_open : lookup 3 demo.fds ≡ some handle
unfolding lookup
demo_open = refl

pub demo_free : lookup 4 demo.fds ≡ none
unfolding lookup
demo_free = refl

pub demo_named_a : lookup name_a demo.files ≡ some 0
unfolding lookup bytes_eq
demo_named_a = refl

pub demo_room : 3 + (2 + 3) ≤ 65536 + size_of (deref demo.heap 0)
unfolding deref
demo_room = omega arith

pub demo_used : 1 ≤ names_of demo 0 + holders_of demo 0
unfolding sum_by
demo_used = omega arith

pub demo-dir : (name : List ℕ) → dir name ≡ root → is_dir demo (dir name) ≡ true
unfolding is_dir lookup bytes_eq
demo-dir name e = rw e refl

-- A quota of two bytes less than the file asks for.
abbrev pub tight_limits : Limits
tight_limits = record { max_filesystem_bytes = 3; max_open_files = 16 }

pub tight_limits-IsLimits : IsLimits tight_limits
tight_limits-IsLimits = record { small = omega arith; room = omega arith }

abbrev pub full : FileSystem
full = record {
  heap =
      record { contents = 1 ∷ 2 ∷ []; linked = true; refs = pos 0 }
      ∷ record { contents = 9 ∷ []; linked = true; refs = pos 0 }
      ∷ [];
  files = (name_a, 0) ∷ (name_b, 1) ∷ [];
  dirs = (root, true) ∷ [];
  fds = [];
  next_fd = 3;
  bytes = 3;
  temp_ret0 = 0;
  mappings = [];
}

full_named : (p : ℕ) → names_of full p ≡ link_count (deref full.heap p)
unfolding sum_by deref
full_named zero = ground arith
full_named (suc zero) = ground arith
full_named (suc (suc p)) = ground arith

full_held : (p : ℕ) → Covers (holders_of full p) (deref full.heap p).refs
unfolding sum_by deref
full_held zero = ground arith
full_held (suc zero) = ground arith
full_held (suc (suc p)) = ground arith

pub full-IsValid : IsValid tight_limits full
unfolding lookup live_bytes bytes_eq
full-IsValid = record {
  sound = record { accounted = refl; within = omega arith; named = full_named; held = full_held };
  few = omega arith;
  unique_files = (refl, (refl, tt));
  unique_dirs = (refl, tt);
  unique_fds = tt;
  unique_mappings = tt;
}

pub full_used : 1 ≤ names_of full 1 + holders_of full 1
unfolding sum_by
full_used = omega arith

pub full_over : 3 + size_of (deref full.heap 1) < 3 + 3
unfolding deref
full_over = omega arith
