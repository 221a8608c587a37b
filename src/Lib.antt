-- ===== src/Lib.antt =====
-- Verification of the wago-emscripten plugin, which runs Emscripten, Go js/wasm and Ruby modules on
-- the Wago runtime.
--
-- The program. `plugin.go` reads the configuration and registers host imports and a transformer of
-- modules with the runtime. `transform.go` rewrites a WebAssembly module before it is compiled: it
-- decodes the sections, renames imports and adds wrappers and a launcher with its block of
-- arguments. `emscripten.go` holds the table of the host imports and the calls on guest memory and on
-- the guest's exports. `filesystem.go` gives each instance a filesystem in memory, with a quota over
-- the bytes of all its files and a limit on open descriptors; the plugin keeps one filesystem for
-- each instance identity under one mutex.
--
-- The files:
--   Common, Common/*: tests, lists and maps over the native numbers, signed words as bit patterns.
--   Memory, Memory/*: guest memory as a list of bytes, little-endian words, strings (`cString`).
--   Paths, Paths/*: `cleanGuestPath` and path.Clean, path.Dir on rooted paths (filesystem.go).
--   FileSystem: the state (`fileSystem`, `openFile`, `memoryFile`, `fileMapping`). A file is a pointer
--     into a heap, so that two handles on one file share its bytes as they do in the source.
--   FileSystem/Reply: how a call finds the caller's filesystem (`p.fileSystem`) and ends. A handler is
--     a function from the plugin, the caller and its parameter slots to an outcome; its part under the
--     mutex is a function `..._on` of the memory and the filesystem. A Go panic is a result.
--   FileSystem/Descriptors, Names, Sizes, ReadWrite, Streams, Stat, Mappings, Environ: the handlers,
--     one definition for each `syscall...`, `wasi...`, `mmap...` and `munmap` of filesystem.go.
--   FileSystem/Accounts, Invariant, Serves and the files below them: the invariant of a filesystem, and
--     that each handler keeps it.
--   FileSystem/Behaviour/*: what the calls do for the guest.
--   FileSystem/Calls: the import table of `registerEmscripten` as a type of calls with its dispatcher.
--   Lifecycle: `decodeConfig`, the limits of `Register`, closing an instance and stopping (plugin.go).
--   Host, Host/*: memcpy, C strings, console, time zone, signatures of trampolines, `invoke` under
--     longjmp (emscripten.go).
--   Wasm: LEB128 numbers, names, sections and vector items (transform.go). Below it: Imports (the ends of
--     descriptors), Types (`functionType`, `findFunctionType`), Exports (`exportedFunctions`,
--     `functionTypeForIndex`), Signed (`appendS32`), Arguments (the argument blocks), Wrappers (the
--     functions and the memory that are added), Launchers (the two launchers), Rewrite
--     (`rewriteImports`), Names (the names it compares) and Transform (`classifyModule` and
--     `transformModuleWithEnvironment`). A loop over a payload works on what is left of it.
--   GoJs: the value table of a Go program (gojs.go): `loadValue` and `storeValue` over a heap of values,
--     so that two references to one object share it. Below it: Floats (float64 patterns), Initial
--     (`newGoState`), Access (parameters in memory, host functions), Calls (the calls on values), Copies
--     (`goCopyBytes`), Resume (`goAsyncFSCall`), Runtime (the calls of the Go runtime and the table of
--     `registerGoJS`), Programs (a program as its host calls, with the `resume` inside them), Instances
--     (`goStateFor`).
--   Tests, Tests/*: runs at concrete inputs.
--
-- Numbers. Words are natural numbers with their wrap-around written out; a signed word is its bit
-- pattern. The length of guest memory is not bounded; a 32-bit pointer into it is. In gojs.go a memory is
-- taken to end below 4 GiB, and one that grows during `resume` to stay in place. A float64 is its bit pattern.
--
-- Fuel. The search for a free descriptor gets one round more than there are handles, and a theorem
-- says that this finds one while there are fewer than 2^32 - 1. Writing a number gets five rounds, and
-- the round trip says that they write it whole. Decoding sections gets one round more than the source
-- has bytes, and a theorem says that more changes nothing. A signed number gets five rounds, and its
-- round trip says that they write it whole.
--
-- Parameters. The guest's memalign, the runtime's caller invoker and the JSON decoder are arguments of
-- the definitions that use them; so are, for a Go program, its `resume`, the clocks, random bytes, the
-- text of a float, and the float conversions that Go leaves to the machine. Whether a Go slice has room
-- behind its end is an argument of `insert_standard_section`. Writers and readers of the standard
-- streams are lists of events.
--
-- Not modelled: the Ruby imports (ruby.go), which answer constants, calendar time and the fixed answers
-- of emscripten.go, the corpus fetcher (cmd/corpusfetch), and the registration calls. The helpers of
-- gojs.go that nothing calls are left out. Mutual exclusion is taken from the source: a call's locked
-- part is one step.
pub mod Common
pub mod Memory
pub mod Paths
pub mod FileSystem
pub mod Lifecycle
pub mod Host
pub mod Wasm
pub mod GoJs
pub mod Tests
