-- ===== src/Lifecycle/Runs.antt =====
-- Whatever happens to a plugin, in whatever order: the quota and the limits hold, and instances do not
-- reach each other's files.
use wago_emscripten.Common.{
  ℕ, ◌+◌, ◌*◌, ◌^◌, ◌≤◌, ◌≡◌, ◌≢◌, true, false, ◌&&◌, ◌||◌, refl, sym, ap, subst, ◌∙◌, inl, inr,
  none, some, List, [], ◌∷◌, lookup, erase, lookup-erase_ne, lookup-erase_self, erase-UniqueKeys,
  UniqueKeys, length, nat_eq, All, Bool-cases, Option-cases, leb, ◌==◌, ==→eq, if◌then◌else◌, arith,
}
use wago_emscripten.FileSystem.{FileSystem, deref, size_of}
use wago_emscripten.FileSystem.Reply.{Plugin, Limits}
use wago_emscripten.FileSystem.Mappings.{Memalign}
use wago_emscripten.FileSystem.Calls.Runs.{dispatch-Serves}
use wago_emscripten.FileSystem.Invariant.{IsLimits, IsValid, names_of, holders_of}
use wago_emscripten.FileSystem.Accounts.{live_bytes, live_size}
use wago_emscripten.FileSystem.Serves.{IsSound}
use wago_emscripten.Lifecycle.{
  Config, Json, known_keys, is_accepted, decode_config, limits_of, Event, called, closed, stopped,
  step, run,
}

erased :
    (id j : ℕ) (files : List (ℕ × FileSystem)) {fs : FileSystem}
    → UniqueKeys files
    → lookup j (erase id files) ≡ some fs
    → lookup j files ≡ some fs
erased id j files {fs} u e = elim (Bool-cases (id == j)) [
  | inl z ↦
      let same : id ≡ j = ==→eq id j z in
      let gone : lookup j (erase id files) ≡ none =
        subst (λ t. lookup t (erase id files) ≡ none) same (lookup-erase_self id files u) in
      absurd (ground arith)
  | inr z ↦ sym (lookup-erase_ne id j files z) ∙ e
]

step-IsSound :
    (memalign : Memalign) (p : Plugin) (event : Event) → IsSound p → IsSound (step memalign p event)
unfolding step
step-IsSound memalign p (called m call) s = (dispatch-Serves memalign p m call).still_sound s
step-IsSound memalign p (closed id) s = record {
  limits_ok = s.limits_ok;
  unique = erase-UniqueKeys id p.files s.unique;
  each = λ j fs e. s.each j fs (erased id j p.files s.unique e);
}
step-IsSound memalign p stopped s = record {
  limits_ok = s.limits_ok;
  unique = tt;
  each = λ j fs e. absurd (unfold lookup in ground arith);
}

step-limits :
    (memalign : Memalign) (p : Plugin) (event : Event) → (step memalign p event).limits ≡ p.limits
unfolding step
step-limits memalign p (called m call) = (dispatch-Serves memalign p m call).same_limits
step-limits memalign p (closed id) = refl
step-limits memalign p stopped = refl

run-IsSound :
    (memalign : Memalign) (p : Plugin) (events : List Event)
    → IsSound p
    → IsSound (run memalign p events)
unfolding run
run-IsSound memalign p [] s = s
run-IsSound memalign p (event ∷ events) s =
    run-IsSound memalign (step memalign p event) events (step-IsSound memalign p event s)

run-limits :
    (memalign : Memalign) (p : Plugin) (events : List Event)
    → (run memalign p events).limits ≡ p.limits
unfolding run
run-limits memalign p [] = refl
run-limits memalign p (event ∷ events) =
    run-limits memalign (step memalign p event) events ∙ step-limits memalign p event

-- A plugin that has just been made: no instance has a filesystem yet.
abbrev pub IsFresh : Plugin → Type 0
IsFresh p = p.files ≡ []

pub fresh-IsSound : (p : Plugin) → IsLimits p.limits → IsFresh p → IsSound p
fresh-IsSound p l f = record {
  limits_ok = l;
  unique = subst UniqueKeys (sym f) tt;
  each = λ id fs e.
      let none_here : lookup id p.files ≡ none = ap (lookup id) f ∙ unfold lookup in refl in
      absurd (ground arith);
}

-- A file that a name, a handle or a mapping points to counts with all its bytes.
reachable_counts :
    (l : Limits) (fs : FileSystem)
    → IsValid l fs
    → (p : ℕ)
    → (if names_of fs p + holders_of fs p == 0 then 0 else size_of (deref fs.heap p))
      ≤ live_size (deref fs.heap p)
reachable_counts l fs v p = ground (arith, v.sound.named p, v.sound.held p)

-- However the instances of a plugin have called it since it was made, and been closed, in whatever
-- order: the byte account of every instance's filesystem is the sum of the sizes of the files in its
-- heap that are marked as linked or whose stored count of references is not zero. Every file that a
-- name, a descriptor or a mapping points to is among these. The account is no more than the quota, and
-- no more descriptors are open than the limit allows. A count may be above the number of a file's
-- descriptors and mappings, where one of them has been overwritten.
pub run-quota :
    (memalign : Memalign) (p : Plugin) (events : List Event) (id : ℕ) (fs : FileSystem)
    → IsLimits p.limits
    → IsFresh p
    → lookup id (run memalign p events).files ≡ some fs
    → (fs.bytes ≡ live_bytes fs.heap)
      × ((p : ℕ)
          → (if names_of fs p + holders_of fs p == 0 then 0 else size_of (deref fs.heap p))
            ≤ live_size (deref fs.heap p))
      × (fs.bytes ≤ p.limits.max_filesystem_bytes)
      × (length fs.fds + 3 ≤ p.limits.max_open_files)
run-quota memalign p events id fs l f e =
    let v : IsValid p.limits fs =
      subst (λ l. IsValid l fs) (run-limits memalign p events)
        ((run-IsSound memalign p events (fresh-IsSound p l f)).each id fs e) in
    (v.sound.accounted, reachable_counts p.limits fs v, v.sound.within, v.few)

-- The event is a call of another instance, or of one that has no identity, or its end.
abbrev pub IsElsewhere : ℕ → Event → Type 0
IsElsewhere id (called m call) = m.identity ≢ some id
IsElsewhere id (closed j) = (j == id) ≡ false
IsElsewhere id stopped = ⊥

step-others :
    (memalign : Memalign) (p : Plugin) (event : Event) (id : ℕ)
    → IsElsewhere id event
    → lookup id (step memalign p event).files ≡ lookup id p.files
unfolding step
step-others memalign p (called m call) id h = (dispatch-Serves memalign p m call).others id h
step-others memalign p (closed j) id h = lookup-erase_ne j id p.files h
step-others memalign p stopped id h = elim h [ ]

-- An instance finds its filesystem as it was, whatever other instances have called, and whichever of
-- them have been closed, in the meantime.
pub run-others :
    (memalign : Memalign) (p : Plugin) (events : List Event) (id : ℕ)
    → All (IsElsewhere id) events
    → lookup id (run memalign p events).files ≡ lookup id p.files
unfolding run
run-others memalign p [] id h = refl
run-others memalign p (event ∷ events) id h =
    run-others memalign (step memalign p event) events id h.1 ∙ step-others memalign p event id h.0

accepted_lem :
    (c : Config)
    → is_accepted c ≡ true
    → (c.max_filesystem_bytes == 0
          || leb 65536 c.max_filesystem_bytes && leb c.max_filesystem_bytes (256 * 2 ^ 20))
        && (c.max_open_files == 0 || leb 3 c.max_open_files && leb c.max_open_files 65536)
      ≡ true
unfolding is_accepted
accepted_lem c e = ground arith

accepted-IsLimits :
    (c : Config)
    → is_accepted c ≡ true
    → (65536 ≤ (limits_of c).max_filesystem_bytes)
      × ((limits_of c).max_filesystem_bytes ≤ 256 * 2 ^ 20)
      × (3 ≤ (limits_of c).max_open_files)
      × ((limits_of c).max_open_files ≤ 65536)
      × IsLimits (limits_of c)
accepted-IsLimits c e =
    let fields = accepted_lem c e in
    (
      ground (arith, fields),
      ground (arith, fields),
      ground (arith, fields),
      ground (arith, fields),
      record { small = ground (arith, fields); room = ground (arith, fields) },
    )

decoded :
    (json : Json) (raw : List ℕ) (c : Config)
    → decode_config json raw ≡ some c
    → is_accepted c ≡ true
unfolding decode_config
decoded json raw c e = elim (Option-cases (json.keys text)) [
  | inl z ↦ absurd (ground arith)
  | inr (keys, z) ↦ elim (Bool-cases (known_keys keys)) [
    | inr y ↦ absurd (ground arith)
    | inl y ↦ elim (Option-cases (json.config text)) [
      | inl x ↦ absurd (ground arith)
      | inr (d, x) ↦ elim (Bool-cases (is_accepted d)) [
        | inr w ↦ absurd (ground arith)
        | inl w ↦ let same : d ≡ c = ground arith in subst (λ t. is_accepted t ≡ true) same w
      ]
    ]
  ]
]
  where
    text : List ℕ
    text = if length raw == 0 then b'{' ∷ b'}' ∷ [] else raw

-- Every configuration that `decodeConfig` accepts, one without limits included, gives a quota of at
-- least 64 KiB and at most 256 MiB, and between 3 and 65536 open files. These are limits for which the
-- invariant of a filesystem is stated.
pub decode_config-IsLimits :
    (json : Json) (raw : List ℕ) (c : Config)
    → decode_config json raw ≡ some c
    → (65536 ≤ (limits_of c).max_filesystem_bytes)
      × ((limits_of c).max_filesystem_bytes ≤ 256 * 2 ^ 20)
      × (3 ≤ (limits_of c).max_open_files)
      × ((limits_of c).max_open_files ≤ 65536)
      × IsLimits (limits_of c)
decode_config-IsLimits json raw c e = accepted-IsLimits c (decoded json raw c e)
