-- ===== src/Proc.antt =====
-- src/proc/proc.cppm: the process table and its operations. The kernel that the manager refers to is
-- a parameter, with the calls that the manager makes of it.
mod Tests
pub mod Table
pub mod Top
pub mod Lifecycle
pub mod Invariant
pub mod Reaping
use rp4_demo.Base.{
  ℕ, zero, suc, ◌+◌, ◌%◌, ◌^◌, Bool, true, false, ◌&&◌, Option, none, some, List, [], ◌∷◌, ◌++◌,
  ◌==◌, if◌then◌else◌, Text, text_eq, length, get_elem?,
}
use mathlib.Core.Option

-- The errors that the manager raises, and those of the kernel that it hands on.
pub data KernelError : Type 0 where
  not_found would_block : KernelError
  other : ℕ → KernelError

pub data Result {ℓ} (A : Type ℓ) : Type ℓ where
  ok : A → Result A
  err : KernelError → Result A

-- The kernel's calls, each with the kernel's new state. The manager drops what the last two return.
pub record KernelCalls : Type 1 where
  pub State : Type 0
  pub thread_create : ℕ → ℕ → State → Result ℕ × State
  pub thread_destroy : ℕ → State → State
  pub capability_revoke : ℕ → State → State

pub data ProcessState : Type 0 where
  running stopped zombie dead : ProcessState

-- `struct Process`. Identifiers and exit codes are only moved and compared, so each is a number.
pub record Process : Type 0 where
  pub pid : ℕ
  pub name : Text
  pub state : ProcessState
  pub threads : List ℕ
  pub channels : List ℕ
  pub connections : List ℕ
  pub capabilities : List ℕ
  pub mem_used : ℕ
  pub exit_code : ℕ
  pub parent : ℕ

pub record SpawnInfo : Type 0 where
  pub name : Text
  pub priority : ℕ
  pub parent : ℕ

abbrev pub is_running : ProcessState → Bool
is_running running = true
is_running stopped = false
is_running zombie = false
is_running dead = false

abbrev pub is_zombie : ProcessState → Bool
is_zombie running = false
is_zombie stopped = false
is_zombie zombie = true
is_zombie dead = false

-- The index of the first process with the pid.
pub find : ℕ → List Process → Option ℕ
find pid [] = none
find pid (p ∷ ps) = if p.pid == pid then some 0 else Option.map suc (find pid ps)

-- `procs_[i]`, read and changed in place.
pub modify : ℕ → (Process → Process) → List Process → List Process
modify i f [] = []
modify zero f (p ∷ ps) = f p ∷ ps
modify (suc i) f (p ∷ ps) = p ∷ modify i f ps

pub info : ℕ → List Process → Option Process
info pid [] = none
info pid (p ∷ ps) = if p.pid == pid then some p else info pid ps

pub find_by_name : Text → List Process → Option Process
find_by_name name [] = none
find_by_name name (p ∷ ps) = if text_eq p.name name then some p else find_by_name name ps

-- The number of running processes.
pub count : List Process → ℕ
count [] = 0
count (p ∷ ps) = if is_running p.state then suc (count ps) else count ps

abbrev pub total : List Process → ℕ
total ps = length ps

-- What `spawn` pushes.
abbrev pub spawned : ℕ → ℕ → SpawnInfo → Process
spawned pid tid i = record {
  pid = pid;
  name = i.name;
  state = running;
  threads = tid ∷ [];
  channels = [];
  connections = [];
  capabilities = [];
  mem_used = 0;
  exit_code = 0;
  parent = i.parent;
}

-- What `kill`, `exit` and `wait` leave of a process.
abbrev pub killed : Process → Process
killed p = record p {
  state = zombie;
  threads = [];
  channels = [];
  connections = [];
  capabilities = [];
}

abbrev pub exited : ℕ → Process → Process
exited code p = record p { state = zombie; exit_code = code; threads = [] }

-- The first zombie child of `parent`: its exit code, and the table in which it is dead.
pub reap : ℕ → List Process → Option (ℕ × List Process)
reap parent [] = none
reap parent (p ∷ ps) =
    if p.parent == parent && is_zombie p.state
    then some (p.exit_code, record p { state = dead } ∷ ps)
    else Option.map (λ r. (r.0, p ∷ r.1)) (reap parent ps)

module _ (k : KernelCalls) where
  open k use {State, thread_create, thread_destroy, capability_revoke}

  -- `class ProcessManager`, with the state of the kernel that it refers to.
  pub record Manager : Type 0 where
    pub procs : List Process
    pub next_pid : ℕ
    pub kernel : State

  abbrev pub destroy_all : List ℕ → State → State
  destroy_all [] s = s
  destroy_all (t ∷ ts) s = destroy_all ts (thread_destroy t s)

  abbrev pub revoke_all : List ℕ → State → State
  revoke_all [] s = s
  revoke_all (c ∷ cs) s = revoke_all cs (capability_revoke c s)

  -- The pid is used up also where the kernel refuses the thread. `next_pid_` is an `int`, here its 32 bits.
  pub spawn : SpawnInfo → Manager → Result ℕ × Manager
  spawn i m =
      let pid = m.next_pid in
      let (r, s) = thread_create pid i.priority m.kernel in
      elim r [
        | err e ↦ (err e, record m { next_pid = (pid + 1) % 2 ^ 32; kernel = s })
        | ok tid ↦ (
          ok pid,
          record {
            procs = m.procs ++ spawned pid tid i ∷ [];
            next_pid = (pid + 1) % 2 ^ 32;
            kernel = s;
          },
        )
      ]

  -- An index that `find` gives is in range, so the inner `none` is not met.
  pub kill : ℕ → Manager → Result (Unit {0}) × Manager
  kill pid m = elim (find pid m.procs) [
    | none ↦ (err not_found, m)
    | some i ↦ elim (get_elem? m.procs i) [
      | none ↦ (err not_found, m)
      | some p ↦ (
        ok tt,
        record m {
          procs = modify i killed m.procs;
          kernel = revoke_all p.capabilities (destroy_all p.threads m.kernel);
        },
      )
    ]
  ]

  pub wait : ℕ → Manager → Result ℕ × Manager
  wait parent m = elim (reap parent m.procs) [
    | none ↦ (err would_block, m)
    | some (code, ps) ↦ (ok code, record m { procs = ps })
  ]

  pub exit : ℕ → ℕ → Manager → Result (Unit {0}) × Manager
  exit pid code m = elim (find pid m.procs) [
    | none ↦ (err not_found, m)
    | some i ↦ elim (get_elem? m.procs i) [
      | none ↦ (err not_found, m)
      | some p ↦ (
        ok tt,
        record m {
          procs = modify i (exited code) m.procs;
          kernel = destroy_all p.threads m.kernel;
        },
      )
    ]
  ]

  pub thread_add : ℕ → ℕ → Manager → Result ℕ × Manager
  thread_add pid pri m = elim (find pid m.procs) [
    | none ↦ (err not_found, m)
    | some i ↦
        let (r, s) = thread_create pid pri m.kernel in
        elim r [
          | err e ↦ (err e, record m { kernel = s })
          | ok tid ↦ (
            ok tid,
            record m {
              procs = modify i (λ p. record p { threads = p.threads ++ tid ∷ [] }) m.procs;
              kernel = s;
            },
          )
        ]
  ]

  -- `if (auto i = find(pid)) procs_[*i]...`
  pub track : ℕ → (Process → Process) → Manager → Manager
  track pid f m = elim (find pid m.procs) [
    | none ↦ m
    | some i ↦ record m { procs = modify i f m.procs }
  ]

  unfoldable pub track_channel : ℕ → ℕ → Manager → Manager
  track_channel pid ch = track pid (λ p. record p { channels = p.channels ++ ch ∷ [] })

  unfoldable pub track_connection : ℕ → ℕ → Manager → Manager
  track_connection pid c = track pid (λ p. record p { connections = p.connections ++ c ∷ [] })

  unfoldable pub track_capability : ℕ → ℕ → Manager → Manager
  track_capability pid c = track pid (λ p. record p { capabilities = p.capabilities ++ c ∷ [] })

  unfoldable pub track_alloc : ℕ → ℕ → Manager → Manager
  track_alloc pid bytes = track pid (λ p. record p { mem_used = (p.mem_used + bytes) % 2 ^ 64 })
