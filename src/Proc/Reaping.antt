-- ===== src/Proc/Reaping.antt =====
-- Zombies and their parents (src/proc/proc.cppm): `exit` or `kill`, and then `wait`.
use rp4_demo.Base.{
  ℕ, zero, suc, ◌≡◌, refl, false, some, List, [], ◌∷◌, ◌==◌, if◌then◌else◌, arith, inl, inr,
  get_elem?, ◌∙◌, ap, All,
}
use mathlib.Core.Option
use rp4_demo.Proc.{
  Process, KernelCalls, ok, Manager, modify, info, reap, zombie, dead, killed, exited, kill, wait,
  exit, destroy_all, revoke_all,
}
use rp4_demo.Proc.Table.{find-info, info-modify}
use rp4_demo.Proc.Lifecycle.{is_reapable, Updated, kill_found, exit_found}

abbrev pub NoneReapable : ℕ → List Process → Type 0
NoneReapable parent ps = All (λ p. is_reapable parent p ≡ false) ps

abbrev pub make_dead : Process → Process
make_dead p = record p { state = dead }

module _ (parent : ℕ) (f : Process → Process) (to_zombie : (p : Process) → (f p).state ≡ zombie)
    (same_parent : (p : Process) → (f p).parent ≡ p.parent) where
  -- The only zombie child is reaped.
  reap-modify_zombie :
      (i : ℕ) (p : Process) (ps : List Process)
      → NoneReapable parent ps
      → get_elem? ps i ≡ some p
      → p.parent ≡ parent
      → reap parent (modify i f ps) ≡ some ((f p).exit_code, modify i (λ q. make_dead (f q)) ps)
  unfolding reap modify
  reap-modify_zombie i p [] h e same = ground arith
  reap-modify_zombie zero p (q ∷ ps) h e same = ground (arith, to_zombie q, same_parent q)
  reap-modify_zombie (suc i) p (q ∷ ps) h e same = rw (h.0, reap-modify_zombie i p ps h.1 e same)

  -- A dead child is no zombie.
  None_reapable-modify :
      (i : ℕ) (ps : List Process)
      → NoneReapable parent ps
      → NoneReapable parent (modify i (λ q. make_dead (f q)) ps)
  unfolding modify
  None_reapable-modify i [] h = tt
  None_reapable-modify zero (q ∷ ps) h = (ground arith, h.1)
  None_reapable-modify (suc i) (q ∷ ps) h = (h.0, None_reapable-modify i ps h.1)

module _ (k : KernelCalls) where
  wait_found :
      (m : Manager k) (parent code : ℕ) (ps : List Process)
      → reap parent m.procs ≡ some (code, ps)
      → wait k parent m ≡ (ok code, record m { procs = ps })
  unfolding wait
  wait_found m parent code ps e = rw (wait, e)

  pub wait-exit :
      (m : Manager k) (pid code : ℕ) (p : Process)
      → info pid m.procs ≡ some p
      → NoneReapable p.parent m.procs
      → let m' = (exit k pid code m).1 in
        ((wait k p.parent m').0 ≡ ok code)
        × Updated pid (make_dead (exited code p)) m.procs (wait k p.parent m').1.procs
        × NoneReapable p.parent (wait k p.parent m').1.procs
  wait-exit m pid code p e quiet = elim (find-info pid m.procs) [
    | inl (a, b) ↦ absurd (ground arith)
    | inr (i, q, a, b, c, d) ↦
        let same : q ≡ p = ground arith in
        let at = c ∙ ap some same in
        let reaped =
          reap-modify_zombie p.parent (exited code) (λ r. refl) (λ r. refl) i p m.procs quiet at
            refl in
        let m' : Manager k = record m {
          procs = modify i (exited code) m.procs;
          kernel = destroy_all k p.threads m.kernel;
        } in
        rw (exit_found k m pid code i p a at) (
          rw (wait_found m' p.parent code _ reaped) (
            refl,
            (λ j.
                info-modify pid j i (λ r. make_dead (exited code r)) m.procs (λ r. refl) a
                ∙ ap
                    (λ o.
                      if pid == j
                      then Option.map (λ r. make_dead (exited code r)) o
                      else info j m.procs)
                    e),
            None_reapable-modify p.parent (exited code) (λ r. refl) (λ r. refl) i m.procs quiet,
          ))
  ]

  -- `kill` does not ask for the state of the process: where the parent has no zombie child, killing
  -- any child, a dead one that was reaped before included, makes `wait` return its exit code.
  pub wait-kill :
      (m : Manager k) (pid : ℕ) (p : Process)
      → info pid m.procs ≡ some p
      → NoneReapable p.parent m.procs
      → let m' = (kill k pid m).1 in
        ((wait k p.parent m').0 ≡ ok p.exit_code)
        × Updated pid (make_dead (killed p)) m.procs (wait k p.parent m').1.procs
  wait-kill m pid p e quiet = elim (find-info pid m.procs) [
    | inl (a, b) ↦ absurd (ground arith)
    | inr (i, q, a, b, c, d) ↦
        let same : q ≡ p = ground arith in
        let at = c ∙ ap some same in
        let reaped =
          reap-modify_zombie p.parent killed (λ r. refl) (λ r. refl) i p m.procs quiet at refl in
        let m' : Manager k = record m {
          procs = modify i killed m.procs;
          kernel = revoke_all k p.capabilities (destroy_all k p.threads m.kernel);
        } in
        rw (kill_found k m pid i p a at) (
          rw (wait_found m' p.parent p.exit_code _ reaped) (
            refl,
            λ j.
                info-modify pid j i (λ r. make_dead (killed r)) m.procs (λ r. refl) a
                ∙ ap
                    (λ o.
                      if pid == j then Option.map (λ r. make_dead (killed r)) o else info j m.procs)
                    e,
          ))
  ]

  -- A child that has called `exit` once can be reaped twice: `exit`, `wait`, `kill`, `wait`, where the
  -- parent has no other zombie child, return the same exit code from both calls of `wait`.
  pub reaped_twice :
      (m : Manager k) (pid code : ℕ) (p : Process)
      → info pid m.procs ≡ some p
      → NoneReapable p.parent m.procs
      → let m₁ = (wait k p.parent (exit k pid code m).1).1 in
        ((wait k p.parent (exit k pid code m).1).0 ≡ ok code)
        × ((wait k p.parent (kill k pid m₁).1).0 ≡ ok code)
  reaped_twice m pid code p e quiet =
      let (first, seen, still) = wait-exit m pid code p e quiet in
      let m₁ = (wait k p.parent (exit k pid code m).1).1 in
      let found : info pid m₁.procs ≡ some (make_dead (exited code p)) = ground (arith, seen pid) in
      (first, (wait-kill m₁ pid (make_dead (exited code p)) found still).0)
