-- ===== src/Proc/Invariant.antt =====
-- The invariant of the process table (src/proc/proc.cppm), kept by every operation.
use rp4_demo.Base.{
  ℕ, zero, suc, ◌+◌, ◌%◌, ◌^◌, length, ◌≤◌, ◌<◌, ◌≡◌, ◌≢◌, refl, ◌&&◌, none, some, List, [], ◌∷◌,
  ◌++◌, ◌==◌, arith, Option-cases, Bool-cases, inl, inr, ◌⊎◌, All, get_elem?,
}
use rp4_demo.Proc.Lifecycle.{Result-cases}
use rp4_demo.Proc.{
  Process, KernelCalls, Manager, SpawnInfo, find, modify, info, reap, dead, stopped, killed, exited,
  spawned, spawn, kill, wait, exit, thread_add, track, track_channel, track_connection,
  track_capability, track_alloc, is_zombie,
}

-- No two processes share a pid.
abbrev pub Distinct : List Process → Type 0
Distinct [] = Unit
Distinct (p ∷ ps) = (info p.pid ps ≡ none) × Distinct ps

-- The pid was handed out, the pids below 100 being reserved; and the process is not `stopped`.
abbrev pub Known : ℕ → Process → Type 0
Known next p = (100 ≤ p.pid) × (p.pid < next) × (p.state ≢ stopped)

pub record IsValid (k : KernelCalls) (m : Manager k) : Type 0 where
  pub distinct : Distinct m.procs
  pub known : All (Known m.next_pid) m.procs
  pub reserved : 100 ≤ m.next_pid

info-modify-none :
    (q i : ℕ) (f : Process → Process) (ps : List Process)
    → ((p : Process) → (f p).pid ≡ p.pid)
    → info q ps ≡ none
    → info q (modify i f ps) ≡ none
unfolding info modify
info-modify-none q i f [] keeps h = refl
info-modify-none q zero f (p ∷ ps) keeps h = ground (arith, keeps p)
info-modify-none q (suc i) f (p ∷ ps) keeps h = ground (arith, info-modify-none q i f ps keeps)

Distinct-modify :
    (i : ℕ) (f : Process → Process) (ps : List Process)
    → ((p : Process) → (f p).pid ≡ p.pid)
    → Distinct ps
    → Distinct (modify i f ps)
unfolding modify
Distinct-modify i f [] keeps h = tt
Distinct-modify zero f (p ∷ ps) keeps h = (rw (keeps p) h.0, h.1)
Distinct-modify (suc i) f (p ∷ ps) keeps h =
    (info-modify-none p.pid i f ps keeps h.0, Distinct-modify i f ps keeps h.1)

Known-modify :
    (next i : ℕ) (f : Process → Process) (ps : List Process)
    → ((p : Process) → Known next p → Known next (f p))
    → All (Known next) ps
    → All (Known next) (modify i f ps)
unfolding modify
Known-modify next i f [] keeps h = tt
Known-modify next zero f (p ∷ ps) keeps h = (keeps p h.0, h.1)
Known-modify next (suc i) f (p ∷ ps) keeps h = (h.0, Known-modify next i f ps keeps h.1)

Known-suc : (next : ℕ) (ps : List Process) → All (Known next) ps → All (Known (next + 1)) ps
Known-suc next [] h = tt
Known-suc next (p ∷ ps) h = ((h.0.0, omega arith, h.0.2), Known-suc next ps h.1)

Known-append :
    (next : ℕ) (ps : List Process) (p : Process)
    → All (Known next) ps
    → Known next p
    → All (Known next) (ps ++ p ∷ [])
Known-append next [] p h g = (g, tt)
Known-append next (q ∷ ps) p h g = (h.0, Known-append next ps p h.1 g)

-- The next pid is not taken.
pub info_next : (next : ℕ) (ps : List Process) → All (Known next) ps → info next ps ≡ none
unfolding info
info_next next [] h = refl
info_next next (p ∷ ps) h = ground (arith, info_next next ps)

info-append_none :
    (q : ℕ) (ps : List Process) (p : Process)
    → info q ps ≡ none
    → p.pid ≢ q
    → info q (ps ++ p ∷ []) ≡ none
unfolding info
info-append_none q [] p h ne = ground arith
info-append_none q (r ∷ ps) p h ne = ground (arith, info-append_none q ps p)

Distinct-append :
    (next : ℕ) (ps : List Process) (p : Process)
    → Distinct ps
    → All (Known next) ps
    → p.pid ≡ next
    → Distinct (ps ++ p ∷ [])
unfolding info
Distinct-append next [] p d h e = (refl, tt)
Distinct-append next (q ∷ ps) p d h e =
    (info-append_none q.pid ps p d.0 (omega arith), Distinct-append next ps p d.1 h.1 e)

-- What `wait` does to the table is a change of one process.
pub reap-modify :
    (parent : ℕ) (ps : List Process)
    → (reap parent ps ≡ none)
      ⊎ ((code i : ℕ) × (reap parent ps
            ≡ some (code, modify i (λ p. record p { state = dead }) ps)))
unfolding reap modify
reap-modify parent [] = inl refl
reap-modify parent (p ∷ ps) = elim (Bool-cases (p.parent == parent && is_zombie p.state)) [
  | inl here ↦ inr (p.exit_code, 0, rw here)
  | inr other ↦ elim (reap-modify parent ps) [
    | inl e ↦ inl (rw (other, e))
    | inr (code, i, e) ↦ inr (code, suc i, rw (other, e))
  ]
]

-- A call of the manager.
pub data Call : Type 0 where
  do_spawn : SpawnInfo → Call
  do_kill : ℕ → Call
  do_wait : ℕ → Call
  do_exit : ℕ → ℕ → Call
  do_thread_add : ℕ → ℕ → Call
  do_track_channel do_track_connection do_track_capability do_track_alloc : ℕ → ℕ → Call

abbrev pub step : (k : KernelCalls) → Call → Manager k → Manager k
step k (do_spawn i) m = (spawn k i m).1
step k (do_kill pid) m = (kill k pid m).1
step k (do_wait pid) m = (wait k pid m).1
step k (do_exit pid code) m = (exit k pid code m).1
step k (do_thread_add pid pri) m = (thread_add k pid pri m).1
step k (do_track_channel pid c) m = track_channel k pid c m
step k (do_track_connection pid c) m = track_connection k pid c m
step k (do_track_capability pid c) m = track_capability k pid c m
step k (do_track_alloc pid bytes) m = track_alloc k pid bytes m

abbrev pub steps : (k : KernelCalls) → List Call → Manager k → Manager k
steps k [] m = m
steps k (c ∷ cs) m = steps k cs (step k c m)

module _ (k : KernelCalls) (m : Manager k) (v : IsValid k m) where
  -- A valid state in which at most one more pid was handed out.
  Kept : Manager k → Type 0
  Kept m' = IsValid k m' × (m'.next_pid ≤ m.next_pid + 1)

  keep : (m' : Manager k) → IsValid k m' → m'.next_pid ≡ m.next_pid → Kept m'
  unfolding Kept
  keep m' w e = (w, omega arith)

  -- A change of one process that keeps its pid and does not stop it.
  changed :
      (i : ℕ) (f : Process → Process) (s : k.State)
      → ((p : Process) → (f p).pid ≡ p.pid)
      → ((p : Process) → p.state ≢ stopped → (f p).state ≢ stopped)
      → Kept (record m { procs = modify i f m.procs; kernel = s })
  changed i f s keeps runs =
      keep _
        (record {
          distinct = Distinct-modify i f m.procs keeps v.distinct;
          known =
              Known-modify m.next_pid i f m.procs (λ p h. rw (keeps p) (h.0, h.1, runs p h.2))
                v.known;
          reserved = v.reserved;
        })
        refl

  quiet : (s : k.State) → Kept (record m { kernel = s })
  quiet s = keep _ (record { distinct = v.distinct; known = v.known; reserved = v.reserved }) refl

  track-Kept :
      (pid : ℕ) (f : Process → Process)
      → ((p : Process) → (f p).pid ≡ p.pid)
      → ((p : Process) → p.state ≢ stopped → (f p).state ≢ stopped)
      → Kept (track k pid f m)
  unfolding track
  track-Kept pid f keeps runs = elim (Option-cases (find pid m.procs)) [
    | inl lost ↦ rw (track, lost) (keep m v refl)
    | inr (i, found) ↦ rw (track, found) (changed i f m.kernel keeps runs)
  ]

  kill-Kept : (pid : ℕ) → Kept (kill k pid m).1
  unfolding kill
  kill-Kept pid = elim (Option-cases (find pid m.procs)) [
    | inl lost ↦ rw (kill, lost) (keep m v refl)
    | inr (i, found) ↦ elim (Option-cases (get_elem? m.procs i)) [
      | inl out ↦ rw (kill, found, out) (keep m v refl)
      | inr (p, at) ↦ rw (kill, found, at) (changed i killed _ (λ q. refl) (λ q h. cc))
    ]
  ]

  exit-Kept : (pid code : ℕ) → Kept (exit k pid code m).1
  unfolding exit
  exit-Kept pid code = elim (Option-cases (find pid m.procs)) [
    | inl lost ↦ rw (exit, lost) (keep m v refl)
    | inr (i, found) ↦ elim (Option-cases (get_elem? m.procs i)) [
      | inl out ↦ rw (exit, found, out) (keep m v refl)
      | inr (p, at) ↦ rw (exit, found, at) (changed i (exited code) _ (λ q. refl) (λ q h. cc))
    ]
  ]

  wait-Kept : (parent : ℕ) → Kept (wait k parent m).1
  unfolding wait
  wait-Kept parent = elim (reap-modify parent m.procs) [
    | inl lost ↦ rw (wait, lost) (keep m v refl)
    | inr (code, i, e) ↦
        rw (wait, e) (changed i (λ p. record p { state = dead }) m.kernel (λ q. refl) (λ q h. cc))
  ]

  thread_add-Kept : (pid pri : ℕ) → Kept (thread_add k pid pri m).1
  unfolding thread_add
  thread_add-Kept pid pri = elim (Option-cases (find pid m.procs)) [
    | inl lost ↦ rw (thread_add, lost) (keep m v refl)
    | inr (i, found) ↦ elim (Result-cases (k.thread_create pid pri m.kernel).0) [
      | inl (e, r) ↦ rw (thread_add, found, r) (quiet _)
      | inr (t, r) ↦
          rw (thread_add, found, r)
            (changed i (λ p. record p { threads = p.threads ++ t ∷ [] }) _ (λ q. refl) (λ q h. h))
    ]
  ]

  spawn-Kept : m.next_pid + 1 < 2 ^ 31 → (i : SpawnInfo) → Kept (spawn k i m).1
  unfolding spawn Kept
  spawn-Kept room i =
      let small : (m.next_pid + 1) % 2 ^ 32 ≡ m.next_pid + 1 = omega arith in
      elim (Result-cases (k.thread_create m.next_pid i.priority m.kernel).0) [
        | inl (e, r) ↦
            rw (spawn, r, small)
              (
                record {
                  distinct = v.distinct;
                  known = Known-suc m.next_pid m.procs v.known;
                  reserved = omega arith;
                },
                omega arith,
              )
        | inr (t, r) ↦
            let here : Known (m.next_pid + 1) (spawned m.next_pid t i) =
              (v.reserved, omega arith, cc) in
            rw (spawn, r, small)
              (
                record {
                  distinct =
                      Distinct-append m.next_pid m.procs (spawned m.next_pid t i) v.distinct v.known
                        refl;
                  known =
                      Known-append (m.next_pid + 1) m.procs (spawned m.next_pid t i)
                        (Known-suc m.next_pid m.procs v.known) here;
                  reserved = omega arith;
                },
                omega arith,
              )
      ]

  step-Kept : m.next_pid + 1 < 2 ^ 31 → (c : Call) → Kept (step k c m)
  unfolding track_channel track_connection track_capability track_alloc
  step-Kept room (do_spawn i) = spawn-Kept room i
  step-Kept room (do_kill pid) = kill-Kept pid
  step-Kept room (do_wait parent) = wait-Kept parent
  step-Kept room (do_exit pid code) = exit-Kept pid code
  step-Kept room (do_thread_add pid pri) = thread_add-Kept pid pri
  step-Kept room (do_track_channel pid c) = track-Kept pid _ (λ q. refl) (λ q h. h)
  step-Kept room (do_track_connection pid c) = track-Kept pid _ (λ q. refl) (λ q h. h)
  step-Kept room (do_track_capability pid c) = track-Kept pid _ (λ q. refl) (λ q h. h)
  step-Kept room (do_track_alloc pid bytes) = track-Kept pid _ (λ q. refl) (λ q h. h)

-- Over any calls that leave the 32-bit counter of pids room, each call counted as one pid, and whatever
-- the kernel answers: no two processes share a pid, every pid is one that was handed out and at least
-- 100, and no process is ever in the state `stopped`.
pub steps-IsValid :
    (k : KernelCalls) (cs : List Call) (m : Manager k)
    → IsValid k m
    → m.next_pid + length cs < 2 ^ 31
    → IsValid k (steps k cs m)
unfolding Kept
steps-IsValid k [] m v room = v
steps-IsValid k (c ∷ cs) m v room =
    let (w, next) = step-Kept k m v (omega arith) c in
    steps-IsValid k cs (step k c m) w (omega arith)

-- The manager as its constructor leaves it.
abbrev pub initial : (k : KernelCalls) → k.State → Manager k
initial k s = record { procs = []; next_pid = 100; kernel = s }

pub initial-IsValid : (k : KernelCalls) (s : k.State) → IsValid k (initial k s)
initial-IsValid k s = record { distinct = tt; known = tt; reserved = omega arith }
