-- ===== src/Proc/Tests.antt =====
-- Runs of the process manager (src/proc/proc.cppm), and its theorems at concrete inputs. The kernel
-- of the tests grants every thread a fresh number, except at priority 0.
use rp4_demo.Base.{ℕ, arith, ◌+◌, ◌≡◌, refl, none, some, [], ◌∷◌, ◌==◌, if◌then◌else◌, codes, ◌⊎◌}
use rp4_demo.Proc.{
  Process, running, zombie, KernelCalls, KernelError, not_found, would_block, other, ok, err,
  Manager, SpawnInfo, spawn, kill, wait, exit, thread_add, info, find, modify, count, reap, spawned,
  track, track_alloc,
}
use rp4_demo.Proc.Lifecycle.{Updated, each, spawn_lem}
use rp4_demo.Proc.Invariant.{
  do_spawn, do_wait, do_exit, do_thread_add, steps, initial, IsValid, steps-IsValid,
  initial-IsValid,
}
use rp4_demo.Proc.Reaping.{reaped_twice}
use rp4_demo.Proc.Lifecycle

abbrev counting : KernelCalls
counting = record {
  State = ℕ;
  thread_create = λ pid pri s. if pri == 0 then (err (other 1), s) else (ok s, s + 1);
  thread_destroy = λ t s. s;
  capability_revoke = λ c s. s;
}

abbrev audiomgr : SpawnInfo
audiomgr = record { name = codes "audiomgr"; priority = 20; parent = 0 }

abbrev one_running : Manager counting
one_running = record { procs = spawned 100 7 audiomgr ∷ []; next_pid = 101; kernel = 8 }

program : Unit {0}
unfolding spawn kill wait exit thread_add info find modify count reap track track_alloc
program = tt

spawn_one : spawn counting audiomgr (initial counting 7) ≡ (ok 100, one_running)
unfolding program
spawn_one = refl

spawn_refused : (spawn counting (record audiomgr { priority = 0 }) one_running).0 ≡ err (other 1)
unfolding program
spawn_refused = refl

wait_empty : wait counting 0 one_running ≡ (err would_block, one_running)
unfolding program
wait_empty = refl

kill_lem_example :
    ((info 100 one_running.procs ≡ none)
      × (kill counting 100 one_running ≡ (err not_found, one_running)))
    ⊎ ((p : Process) × (info 100 one_running.procs ≡ some p)
        × ((kill counting 100 one_running).0 ≡ ok tt)
        × Updated 100
            (record p {
              state = zombie;
              threads = [];
              channels = [];
              connections = [];
              capabilities = [];
            })
            one_running.procs
            (kill counting 100 one_running).1.procs
        × ((kill counting 100 one_running).1.kernel
            ≡ each counting.capability_revoke p.capabilities
                (each counting.thread_destroy p.threads 8))
        × ((kill counting 100 one_running).1.next_pid ≡ 101))
kill_lem_example = Lifecycle.kill_lem counting one_running 100

spawn_lem_example :
    ((spawn counting audiomgr one_running).1.next_pid ≡ 102)
    × ((e : KernelError)
        → (counting.thread_create 101 20 8).0 ≡ err e
        → ((spawn counting audiomgr one_running).0 ≡ err e)
          × ((spawn counting audiomgr one_running).1.procs ≡ one_running.procs))
    × ((t : ℕ)
        → (counting.thread_create 101 20 8).0 ≡ ok t
        → ((spawn counting audiomgr one_running).0 ≡ ok 101)
          × Updated 101
              (record {
                pid = 101;
                name = codes "audiomgr";
                state = running;
                threads = t ∷ [];
                channels = [];
                connections = [];
                capabilities = [];
                mem_used = 0;
                exit_code = 0;
                parent = 0;
              })
              one_running.procs
              (spawn counting audiomgr one_running).1.procs
          × (count (spawn counting audiomgr one_running).1.procs ≡ count one_running.procs + 1))
unfolding info
spawn_lem_example = spawn_lem counting one_running audiomgr refl

steps-IsValid_example : IsValid counting (
    steps counting
      (do_spawn audiomgr ∷ do_thread_add 100 5 ∷ do_exit 100 3 ∷ do_wait 0 ∷ [])
      (initial counting 7))
steps-IsValid_example =
    steps-IsValid counting
      (do_spawn audiomgr ∷ do_thread_add 100 5 ∷ do_exit 100 3 ∷ do_wait 0 ∷ [])
      (initial counting 7) (initial-IsValid counting 7) (omega arith)

reaped_twice_example :
    ((wait counting 0 (exit counting 100 3 one_running).1).0 ≡ ok 3)
    × ((wait counting 0
          (kill counting 100 (wait counting 0 (exit counting 100 3 one_running).1).1).1).0
        ≡ ok 3)
unfolding info
reaped_twice_example =
    reaped_twice counting one_running 100 3 (spawned 100 7 audiomgr) refl (refl, tt)
