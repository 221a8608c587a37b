-- ===== src/FileSystem/Serves.antt =====
-- What every call does at the level of the plugin: it keeps the invariant of each instance's
-- filesystem, leaves the other instances alone, and changes no limit.
pub mod Files
pub mod Data
pub mod Views
pub mod Maps
use wago_emscripten.Common.{
  ℕ, Bool, true, false, ◌≡◌, ◌≢◌, refl, sym, subst, ◌∙◌, inl, inr, Option, none, some, List,
  Bool-cases, Option-cases, lookup, insert, lookup-insert, UniqueKeys, insert-UniqueKeys,
  if◌then◌else◌, nat_eq, ◌==◌, ==→eq, ap, arith,
}
use wago_emscripten.FileSystem.{FileSystem, new_file_system}
use wago_emscripten.FileSystem.Reply.{
  Result, Reply, Limits, Plugin, Module, Outcome, refuse, file_system, with_file_system,
}
use wago_emscripten.FileSystem.Invariant.{IsLimits, IsValid, new_file_system-IsValid}

pub record IsSound (p : Plugin) : Type 0 where
  pub limits_ok : IsLimits p.limits
  pub unique : UniqueKeys p.files
  pub each : (id : ℕ) (fs : FileSystem) → lookup id p.files ≡ some fs → IsValid p.limits fs

pub record Serves (p : Plugin) (m : Module) (o : Outcome) : Type 0 where
  pub same_limits : o.plugin.limits ≡ p.limits
  pub still_sound : IsSound p → IsSound o.plugin
  pub others : (id : ℕ) → m.identity ≢ some id → lookup id o.plugin.files ≡ lookup id p.files

-- An outcome that leaves the plugin's tables as they were.
pub unchanged-Serves :
    (p : Plugin) (m : Module) (o : Outcome)
    → o.plugin.limits ≡ p.limits
    → o.plugin.files ≡ p.files
    → Serves p m o
unchanged-Serves p m o same files = record {
  same_limits = same;
  still_sound = λ s. record {
    limits_ok = subst IsLimits (sym same) s.limits_ok;
    unique = subst UniqueKeys (sym files) s.unique;
    each = λ id fs e.
        subst (λ l. IsValid l fs) (sym same)
          (s.each id fs (subst (λ t. lookup id t ≡ some fs) files e));
  };
  others = λ id h. ap (lookup id) files;
}

pub refuse-Serves : (p : Plugin) (m : Module) (r : Result) → Serves p m (refuse p m r)
refuse-Serves p m r = unchanged-Serves p m _ refl refl

pub file_system-IsValid :
    (p : Plugin) (m : Module) {id : ℕ} {fs : FileSystem}
    → IsSound p
    → file_system p m ≡ some (id, fs)
    → IsValid p.limits fs
unfolding file_system
file_system-IsValid p m {id} {fs} s e = elim (Option-cases m.identity) [
  | inl z ↦ absurd (ground arith)
  | inr (i, z) ↦ elim (Option-cases (lookup i p.files)) [
    | inl fresh ↦
        let same : new_file_system ≡ fs = ground arith in
        subst (IsValid p.limits) same (new_file_system-IsValid p.limits s.limits_ok)
    | inr (old, known) ↦
        let same : old ≡ fs = ground arith in subst (IsValid p.limits) same (s.each i old known)
  ]
]

identified :
    (p : Plugin) (m : Module) {id : ℕ} {fs : FileSystem}
    → file_system p m ≡ some (id, fs)
    → m.identity ≡ some id
unfolding file_system
identified p m {id} {fs} e = ground arith

-- A body that keeps the invariant serves its caller.
pub with_file_system-Serves :
    (p : Plugin) (m : Module) (r : Result) (body : List ℕ → FileSystem → Reply)
    → (IsSound p
        → (mem : List ℕ) (fs : FileSystem) → IsValid p.limits fs
        → IsValid p.limits (body mem fs).fs)
    → Serves p m (with_file_system p m r body)
unfolding with_file_system
with_file_system-Serves p m r body keeps = elim (Option-cases (file_system p m)) [
  | inl z ↦ rw (z, with_file_system) (refuse-Serves p m r)
  | inr ((id, fs), z) ↦
      rw (z, with_file_system)
        (record {
          same_limits = refl;
          still_sound = λ s. record {
            limits_ok = s.limits_ok;
            unique = insert-UniqueKeys id (body m.memory fs).fs p.files s.unique;
            each = λ id' fs' e. elim (Bool-cases (id == id')) [
              | inl q ↦
                  let same : (body m.memory fs).fs ≡ fs' =
                    ground (arith, lookup-insert id id' (body m.memory fs).fs p.files) in
                  subst (IsValid p.limits) same (keeps s m.memory fs (file_system-IsValid p m s z))
              | inr q ↦
                  s.each id' fs'
                    (ground (arith, lookup-insert id id' (body m.memory fs).fs p.files))
            ];
          };
          others = λ id' h. elim (Bool-cases (id == id')) [
            | inl q ↦ absurd (h (identified p m z ∙ ap some (==→eq id id' q)))
            | inr q ↦ ground (arith, lookup-insert id id' (body m.memory fs).fs p.files)
          ];
        })
]

-- One call after another, for the same caller.
pub then-Serves :
    (p : Plugin) (m : Module) (o o' : Outcome) → Serves p m o → Serves o.plugin m o' → Serves p m o'
then-Serves p m o o' s t = record {
  same_limits = t.same_limits ∙ s.same_limits;
  still_sound = λ h. t.still_sound (s.still_sound h);
  others = λ id h. t.others id h ∙ s.others id h;
}
