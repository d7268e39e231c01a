-- ===== src/Proc/Lifecycle.antt =====
-- What each operation of the process manager does (src/proc/proc.cppm), on every branch.
use rp4_demo.Base.{
  ℕ, ◌+◌, ◌%◌, ◌^◌, ◌≡◌, ◌∙◌, refl, Bool, true, false, ◌&&◌, Option, none, some, List, [], ◌∷◌,
  ◌++◌, ◌==◌, if◌then◌else◌, Bool-cases, inl, inr, get_elem?, ap, ◌⊎◌, All,
}
use mathlib.Core.Option
use rp4_demo.Proc.{
  Process, KernelCalls, KernelError, not_found, Result, ok, err, Manager, SpawnInfo, find, modify,
  info, count, reap, is_zombie, running, zombie, dead, killed, exited, spawned, spawn, kill, exit,
  thread_add, destroy_all, revoke_all,
}
use rp4_demo.Proc.Table.{find-info, info-modify, info-append, count-append}

-- A zombie child of `parent`.
abbrev pub is_reapable : ℕ → Process → Bool
is_reapable parent p = p.parent == parent && is_zombie p.state

-- A kernel call made of each number in turn.
abbrev pub each {ℓ} : {S : Type ℓ} → (ℕ → S → S) → List ℕ → S → S
each f [] s = s
each f (x ∷ xs) s = each f xs (f x s)

-- The process at one pid has become `p`, and every other is as it was.
abbrev pub Updated : ℕ → Process → List Process → List Process → Type 0
Updated pid p ps ps' = (q : ℕ) → info q ps' ≡ (if pid == q then some p else info q ps)

destroy_all-each :
    (k : KernelCalls) (ts : List ℕ) (s : k.State) → destroy_all k ts s ≡ each k.thread_destroy ts s
destroy_all-each k [] s = refl
destroy_all-each k (t ∷ ts) s = destroy_all-each k ts (k.thread_destroy t s)

revoke_all-each :
    (k : KernelCalls) (cs : List ℕ) (s : k.State)
    → revoke_all k cs s ≡ each k.capability_revoke cs s
revoke_all-each k [] s = refl
revoke_all-each k (c ∷ cs) s = revoke_all-each k cs (k.capability_revoke c s)

module _ (k : KernelCalls) (m : Manager k) (pid : ℕ) where
  pub kill_found :
      (i : ℕ) (p : Process)
      → find pid m.procs ≡ some i
      → get_elem? m.procs i ≡ some p
      → kill k pid m ≡ (
        ok tt,
        record m {
          procs = modify i killed m.procs;
          kernel = revoke_all k p.capabilities (destroy_all k p.threads m.kernel);
        },
      )
  unfolding kill
  kill_found i p a c = rw (a, kill, c)

  pub exit_found :
      (code i : ℕ) (p : Process)
      → find pid m.procs ≡ some i
      → get_elem? m.procs i ≡ some p
      → exit k pid code m ≡ (
        ok tt,
        record m {
          procs = modify i (exited code) m.procs;
          kernel = destroy_all k p.threads m.kernel;
        },
      )
  unfolding exit
  exit_found code i p a c = rw (a, exit, c)

  -- `kill` fails on an unknown pid and changes nothing. Otherwise it succeeds, the kernel is asked to
  -- destroy the process's threads in order and then to revoke its capabilities in order, the process is
  -- a zombie with no thread, channel, connection or capability and is otherwise as it was, and every
  -- other process is as before.
  pub kill_lem :
      ((info pid m.procs ≡ none) × (kill k pid m ≡ (err not_found, m)))
      ⊎ ((p : Process) × (info pid m.procs ≡ some p)
          × ((kill k pid m).0 ≡ ok tt)
          × Updated pid
              (record p {
                state = zombie;
                threads = [];
                channels = [];
                connections = [];
                capabilities = [];
              })
              m.procs
              (kill k pid m).1.procs
          × ((kill k pid m).1.kernel
              ≡ each k.capability_revoke p.capabilities (each k.thread_destroy p.threads m.kernel))
          × ((kill k pid m).1.next_pid ≡ m.next_pid))
  unfolding kill
  kill_lem = elim (find-info pid m.procs) [
    | inl (a, b) ↦ inl (b, rw (a, kill))
    | inr (i, p, a, b, c, d) ↦
        let see = λ (q : ℕ). info-modify pid q i killed m.procs (λ r. refl) a in
        let run = kill_found i p a c in
        let asked =
          revoke_all-each k p.capabilities (destroy_all k p.threads m.kernel)
          ∙ ap (each k.capability_revoke p.capabilities) (destroy_all-each k p.threads m.kernel) in
        inr (p, b, rw run, rw run (λ q. rw (see q, b)), rw run asked, rw run)
  ]

  -- `exit` fails on an unknown pid and changes nothing. Otherwise it succeeds, the kernel is asked to
  -- destroy the process's threads, the process is a zombie with no thread and the given code, which
  -- keeps its channels, connections and capabilities, and every other process is as before.
  pub exit_lem :
      (code : ℕ)
      → ((info pid m.procs ≡ none) × (exit k pid code m ≡ (err not_found, m)))
        ⊎ ((p : Process) × (info pid m.procs ≡ some p)
            × ((exit k pid code m).0 ≡ ok tt)
            × Updated pid
                (record p { state = zombie; exit_code = code; threads = [] })
                m.procs
                (exit k pid code m).1.procs
            × ((exit k pid code m).1.kernel ≡ each k.thread_destroy p.threads m.kernel)
            × ((exit k pid code m).1.next_pid ≡ m.next_pid))
  unfolding exit
  exit_lem code = elim (find-info pid m.procs) [
    | inl (a, b) ↦ inl (b, rw (a, exit))
    | inr (i, p, a, b, c, d) ↦
        let see = λ (q : ℕ). info-modify pid q i (exited code) m.procs (λ r. refl) a in
        let run = exit_found code i p a c in
        let asked = destroy_all-each k p.threads m.kernel in
        inr (p, b, rw run, rw run (λ q. rw (see q, b)), rw run asked, rw run)
  ]

-- What `wait` does to the table: nothing where no zombie child is there, and otherwise the first one
-- becomes dead and its exit code is the result.
pub data Reaped (parent : ℕ) (ps : List Process) : Option (ℕ × List Process) → Type 0 where
  none_there : All (λ p. is_reapable parent p ≡ false) ps → Reaped parent ps none
  first_one :
      (xs ys : List Process) (p : Process)
      → ps ≡ xs ++ p ∷ ys
      → All (λ q. is_reapable parent q ≡ false) xs
      → is_reapable parent p ≡ true
      → Reaped parent ps (some (p.exit_code, xs ++ record p { state = dead } ∷ ys))

Reaped-cons :
    (parent : ℕ) (p : Process) (ps : List Process) (r : Option (ℕ × List Process))
    → is_reapable parent p ≡ false
    → Reaped parent ps r
    → Reaped parent (p ∷ ps) (Option.map (λ s. (s.0, p ∷ s.1)) r)
Reaped-cons parent p ps r no_match (none_there h) = none_there (no_match, h)
Reaped-cons parent p ps r no_match (first_one xs ys q e before here) =
    first_one (p ∷ xs) ys q (ap (◌∷◌ p) e) (no_match, before) here

pub reap-Reaped : (parent : ℕ) (ps : List Process) → Reaped parent ps (reap parent ps)
unfolding reap
reap-Reaped parent [] = none_there tt
reap-Reaped parent (p ∷ ps) = elim (Bool-cases (is_reapable parent p)) [
  | inl here ↦ rw here (first_one [] ps p refl tt here)
  | inr other ↦ rw other (Reaped-cons parent p ps _ other (reap-Reaped parent ps))
]

pub Result-cases {ℓ} :
    {A : Type ℓ} (r : Result A) → ((e : KernelError) × (r ≡ err e)) ⊎ ((a : A) × (r ≡ ok a))
Result-cases (ok a) = inr (a, refl)
Result-cases (err e) = inl (e, refl)

module _ (k : KernelCalls) (m : Manager k) where
  -- `thread_add` fails on an unknown pid and changes nothing; where the kernel refuses, its error is
  -- the result and the table is as before; otherwise the new thread is added behind the process's
  -- others, whatever the state of that process, and every other process is as before.
  pub thread_add_lem :
      (pid pri : ℕ)
      → ((info pid m.procs ≡ none) × (thread_add k pid pri m ≡ (err not_found, m)))
        ⊎ ((p : Process) × (info pid m.procs ≡ some p)
            × ((e : KernelError)
                → (k.thread_create pid pri m.kernel).0 ≡ err e
                → ((thread_add k pid pri m).0 ≡ err e)
                  × ((thread_add k pid pri m).1.procs ≡ m.procs))
            × ((t : ℕ)
                → (k.thread_create pid pri m.kernel).0 ≡ ok t
                → ((thread_add k pid pri m).0 ≡ ok t)
                  × Updated pid
                      (record p { threads = p.threads ++ t ∷ [] })
                      m.procs
                      (thread_add k pid pri m).1.procs))
  unfolding thread_add
  thread_add_lem pid pri = elim (find-info pid m.procs) [
    | inl (a, b) ↦ inl (b, rw (a, thread_add))
    | inr (i, p, a, b, c, d) ↦ inr (
      p,
      b,
      (λ e h. rw (thread_add, a, h) (refl, refl)),
      λ t h.
          rw (thread_add, a, h)
            (
              refl,
              λ q. rw (
                info-modify pid q i (λ r. record r { threads = r.threads ++ t ∷ [] }) m.procs
                    (λ r. refl) a,
                b,
              ),
            ),
    )
  ]

  -- Where the kernel grants the thread and the next pid is not taken, `spawn` returns that pid, under
  -- which there is now a running process of the given name and parent with that one thread, no
  -- channel, connection or capability, no memory used and the exit code 0; every other process is as
  -- before and one more is running. Where the kernel refuses, its error is the result, and the table is
  -- as before. Either way the next pid is one larger in 32 bits.
  pub spawn_lem :
      (i : SpawnInfo)
      → info m.next_pid m.procs ≡ none
      → ((spawn k i m).1.next_pid ≡ (m.next_pid + 1) % 2 ^ 32)
        × ((e : KernelError)
            → (k.thread_create m.next_pid i.priority m.kernel).0 ≡ err e
            → ((spawn k i m).0 ≡ err e) × ((spawn k i m).1.procs ≡ m.procs))
        × ((t : ℕ)
            → (k.thread_create m.next_pid i.priority m.kernel).0 ≡ ok t
            → ((spawn k i m).0 ≡ ok m.next_pid)
              × Updated m.next_pid
                  (record {
                    pid = m.next_pid;
                    name = i.name;
                    state = running;
                    threads = t ∷ [];
                    channels = [];
                    connections = [];
                    capabilities = [];
                    mem_used = 0;
                    exit_code = 0;
                    parent = i.parent;
                  })
                  m.procs
                  (spawn k i m).1.procs
              × (count (spawn k i m).1.procs ≡ count m.procs + 1))
  unfolding spawn
  spawn_lem i fresh = (
    elim (Result-cases (k.thread_create m.next_pid i.priority m.kernel).0) [
      | inl (e, h) ↦ rw (spawn, h) refl
      | inr (t, h) ↦ rw (spawn, h) refl
    ],
    (λ e h. rw (spawn, h) (refl, refl)),
    λ t h.
        rw (spawn, h)
          (
            refl,
            (λ q. info-append q m.procs (spawned m.next_pid t i) fresh),
            count-append m.procs (spawned m.next_pid t i),
          ),
  )
