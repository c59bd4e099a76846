-- ===== src/ProcessPool/Stopped.antt =====
-- The end of ProcessPool's thread, once its exit event is set.
use iis_asgi_handler.Prelude.{
  ℕ, zero, suc, ◌-◌, ◌≤◌, ◌<◌, ◌≡◌, refl, sym, subst, ◌∙◌, ◌⊎◌, inl, inr, Bool-cases, true, false,
  not, ◌||◌, List, [], ◌∷◌, ◌++◌, some, length, ◌==◌, ltb, if◌then◌else◌, ok, Returns, arith,
}
use iis_asgi_handler.ProcessPool.Monitor.{
  ScopedHandle, Launch, Windows, Pool, create_process, remove_process, after_wait, start_missing,
  handles, thread_round, thread_main,
}
use iis_asgi_handler.ProcessPool.Monitored.{start-at_most, length-erase}

-- What the wait reports while the exit event is set: the event, or a process that has ended, of
-- which there are only so many. It takes 64 handles at most.
pub record Stopping (windows : Windows) (exit_event : ℕ) : Type 1 where
  pub IsSignaled : windows.World → Type 0
  pub deaths : windows.World → ℕ
  pub signaled-launch : (w : windows.World) → IsSignaled w → IsSignaled (windows.launch w).1
  pub deaths-launch : (w : windows.World) → deaths (windows.launch w).1 ≤ deaths w
  pub signaled-wait :
      (hs : List ScopedHandle) (w : windows.World) → IsSignaled w → IsSignaled (windows.wait hs w).1
  pub wait_ends :
      (hs : List ScopedHandle) (w : windows.World)
      → IsSignaled w
      → length hs < 64
      → let (i, w') = windows.wait (hs ++ some exit_event ∷ []) w in
        (i ≡ length hs) ⊎ ((i < length hs) × (deaths w' < deaths w))

pub create-exit_event : (l : Launch) (p : Pool) → (create_process l p).exit_event ≡ p.exit_event
unfolding create_process
create-exit_event l p = elim (Bool-cases l.created) [
  | inl c ↦ elim (Bool-cases (not l.assigned || not l.resumed)) [
    | inl b ↦ simp (c, b) refl
    | inr b ↦ simp (c, b) refl
  ]
  | inr c ↦ simp c refl
]

module _ (windows : Windows) (exit_event : ℕ) (stopping : Stopping windows exit_event)
    (Kept : windows.World → Type 0)
    (launch-Kept : (w : windows.World) → Kept w → Kept (windows.launch w).1)
    (wait-Kept : (hs : List ScopedHandle) (w : windows.World)
      → Kept w
      → Kept (windows.wait hs w).1) where
  open stopping use {IsSignaled, deaths}

  abbrev Started : Pool → windows.World → Pool × windows.World → Type 0
  Started p w (p', w') =
      (p'.exit_event ≡ p.exit_event) × IsSignaled w' × Kept w' × (deaths w' ≤ deaths w)

  start-Started :
      (n : ℕ) (p : Pool) (w : windows.World)
      → IsSignaled w
      → Kept w
      → Started p w (start_missing windows n p w)
  unfolding start_missing
  start-Started zero p w s k = (refl, s, k, omega arith)
  start-Started (suc n) p w s k =
      let (l, w') = windows.launch w in
      let (same, s', k', fewer) =
        start-Started n (create_process l p) w' (stopping.signaled-launch w s) (launch-Kept w k) in
      let one = stopping.deaths-launch w in (same ∙ create-exit_event l p, s', k', omega arith)

  wait_ends-own :
      (p : Pool) (w : windows.World)
      → p.exit_event ≡ exit_event
      → IsSignaled w
      → length p.processes < 64
      → let (i, w') = windows.wait (handles windows p) w in
        (i ≡ length p.processes) ⊎ ((i < length p.processes) × (deaths w' < deaths w))
  wait_ends-own p w e s small =
      subst
        (λ x.
          let (i, w') = windows.wait (p.processes ++ some x ∷ []) w in
          (i ≡ length p.processes) ⊎ ((i < length p.processes) × (deaths w' < deaths w)))
        (sym e) (stopping.wait_ends p.processes w s small)

  waited-Returns :
      (fuel : ℕ) (p : Pool) (i : ℕ) (w : windows.World)
      → Kept w
      → (i ≡ length p.processes)
        ⊎ ((i < length p.processes)
            × Returns (λ (p', w'). Kept w') (thread_main windows fuel (remove_process i p) w))
      → Returns
          (λ (p', w'). Kept w')
          (let (more, p') = after_wait i p in
            let rest = thread_main windows fuel p' w in if more then rest else ok (p', w))
  unfolding after_wait
  waited-Returns fuel p i w k (inl e) =
      let exits : (i == length p.processes) ≡ true = ground arith in simp exits k
  waited-Returns fuel p i w k (inr (lt, r)) =
      let goes_on : (i == length p.processes) ≡ false = ground arith in
      let ends : ltb i (length p.processes) ≡ true = ground arith in simp (goes_on, ends) r

  -- A pool that is not overfull ends its thread within as many rounds as processes still die, and
  -- one.
  pub thread_main-Returns :
      (fuel : ℕ) (p : Pool) (w : windows.World)
      → p.exit_event ≡ exit_event
      → length p.processes ≤ p.num_processes
      → p.num_processes < 64
      → IsSignaled w
      → Kept w
      → deaths w < fuel
      → Returns (λ (p', w'). Kept w') (thread_main windows fuel p w)
  unfolding thread_main thread_round
  thread_main-Returns zero p w same few small s k enough = absurd (omega arith)
  thread_main-Returns (suc fuel) p w same few small s k enough =
      let n = p.num_processes - length p.processes in
      let (p₁, w₁) = start_missing windows n p w in
      let (e₁, s₁, k₁, d₁) = start-Started n p w s k in
      let (few₁, num₁) = start-at_most windows n p w in
      let (i, w₂) = windows.wait (handles windows p₁) w₁ in
      let s₂ = stopping.signaled-wait (handles windows p₁) w₁ s₁ in
      let k₂ = wait-Kept (handles windows p₁) w₁ k₁ in
      waited-Returns fuel p₁ i w₂ k₂ (elim (wait_ends-own p₁ w₁ (e₁ ∙ same) s₁ (omega arith)) [
        | inl e ↦ inl e
        | inr (lt, fewer) ↦ inr (
          lt,
          thread_main-Returns fuel (remove_process i p₁) w₂ (e₁ ∙ same)
              (omega (arith, length-erase i p₁.processes)) (omega arith) s₂ k₂ (omega arith),
        )
      ])
