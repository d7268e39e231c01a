-- ===== src/Proc/Top.antt =====
-- src/apps/top.cpp: the process monitor over the process table.
use rp4_demo.Base.{
  ℕ, ◌+◌, ◌-◌, Bool, true, false, List, [], ◌∷◌, ◌++◌, if◌then◌else◌, Text, codes, length,
  replicate, to_string,
}
use rp4_demo.Proc.{
  KernelCalls, Manager, Process, ProcessState, running, stopped, zombie, dead, SpawnInfo, Result,
  ok, err, spawn, kill, track_alloc, thread_add, count, is_running,
}

abbrev pub is_dead : ProcessState → Bool
is_dead dead = true
is_dead _ = false

abbrev pub state_str : ProcessState → Text
state_str running = codes "running"
state_str stopped = codes "stopped"
state_str zombie = codes "zombie"
state_str dead = codes "dead"

-- `{:<n}` on ASCII.
abbrev pub left : ℕ → Text → Text
left n t = t ++ replicate (n - length t) b' '

-- A row; `max_pri` stays 0.
pub row : Process → Text
row p =
    codes "  "
    ++ left 4 (to_string p.pid)
    ++ codes " "
    ++ left 15 p.name
    ++ codes " "
    ++ left 8 (state_str p.state)
    ++ codes " "
    ++ left 8 (to_string (length p.threads))
    ++ codes " "
    ++ left 9 (to_string p.mem_used)
    ++ codes " "
    ++ to_string 0

pub rows : List Process → List Text
unfolding row
rows [] = []
rows (p ∷ ps) = if is_dead p.state then rows ps else row p ∷ rows ps

-- The number behind "threads:".
pub running_threads : List Process → ℕ
running_threads [] = 0
running_threads (p ∷ ps) =
    if is_running p.state then length p.threads + running_threads ps else running_threads ps

pub top_display : List Process → List Text
unfolding rows running_threads
top_display ps =
    codes "  PID  NAME            STATE    THREADS  MEM       PRI"
      ∷ codes "  ---  ----            -----    -------  ---       ---"
      ∷ rows ps
    ++ []
      ∷ (codes "  processes: "
          ++ to_string (count ps)
          ++ codes "  threads: "
          ++ to_string (running_threads ps))
      ∷ []

module _ (k : KernelCalls) where
  abbrev pub system : Text → ℕ → SpawnInfo
  system name priority = record { name = name; priority = priority; parent = 0 }

  -- `if (pid) pm.track_alloc(*pid, bytes)` and `if (pid) (void)pm.thread_add(*pid, priority)`
  abbrev pub tracked : Result ℕ → ℕ → Manager k → Manager k
  tracked (err e) bytes m = m
  tracked (ok pid) bytes m = track_alloc k pid bytes m

  abbrev pub with_thread : Result ℕ → ℕ → Manager k → Manager k
  with_thread (err e) priority m = m
  with_thread (ok pid) priority m = (thread_add k pid priority m).1

  -- What `top_main` prints of a manager just made, line by line.
  pub top_main : Manager k → List Text
  unfolding top_display
  top_main m0 =
      let (audio, m1) = spawn k (system (codes "audiomgr") 20) m0 in
      let (con, m2) = spawn k (system (codes "console") 15) m1 in
      let (shell, m3) = spawn k (system (codes "dash") 10) m2 in
      let (net, m4) = spawn k (system (codes "lwip") 18) m3 in
      let (db, m5) = spawn k (system (codes "sqlite") 8) m4 in
      let counted = tracked net 16384 (tracked db 65536 (tracked audio 3840 m5)) in
      let m = with_thread db 8 (with_thread net 18 counted) in
      codes "=== rp4 top ===" ∷ [] ∷ top_display m.procs ++ elim db [
        | err e ↦ []
        | ok pid ↦
            (codes "  kill sqlite (pid=" ++ to_string pid ++ codes ")")
            ∷ []
            ∷ top_display (kill k pid m).1.procs
      ]
