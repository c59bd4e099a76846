-- ===== src/ProcessPool/Ended.antt =====
-- ProcessPool's life: its constructor, any number of rounds of its thread, and its destructor.
use iis_asgi_handler.Prelude.{
  ℕ, zero, suc, ◌-◌, ◌≤◌, ◌<◌, ◌≡◌, refl, sym, subst, ◌∙◌, ◌⊎◌, inl, inr, Bool-cases, List, [], ◌∷◌,
  none, some, length, Returns, Returns-bind, arith, ℕ_discrete, ◌==◌, ltb,
}
use iis_asgi_handler.ProcessPool.Monitor.{
  ScopedHandle, Windows, Pool, after_wait, start_missing, create_process, thread_round, thread_main,
}
use iis_asgi_handler.ProcessPool.Monitored.{thread_round-at_most}
use iis_asgi_handler.ProcessPool.Lifetime.{
  Os, job_create, launch_process, windows_of, construct, rounds, close_handle, close_all, destroy,
}
use iis_asgi_handler.ProcessPool.Jobs.{CanTerminate, Jobs, Documented}
use iis_asgi_handler.ProcessPool.Stopped.{Stopping, create-exit_event, thread_main-Returns}
use iis_asgi_handler.ProcessPool.Contained.{
  NoneAlive, IsContained, Keeps-IsContained, launch-IsContained,
}

-- The event of every pool can be set, and its wait then reports it.
pub record CanStop (os : Os) : Type 1 where
  pub stopping : (job : ScopedHandle) (exit_event : ℕ) → Stopping (windows_of os job) exit_event
  pub sets :
      (job : ScopedHandle) (exit_event : ℕ) (w : os.World)
      → (stopping job exit_event).IsSignaled (os.set_event exit_event w)

after_wait-exit_event : (i : ℕ) (p : Pool) → (after_wait i p).1.exit_event ≡ p.exit_event
unfolding after_wait
after_wait-exit_event i p = elim (Bool-cases (i == length p.processes)) [
  | inl e ↦ simp e refl
  | inr e ↦ elim (Bool-cases (ltb i (length p.processes))) [
    | inl l ↦ simp (e, l) refl
    | inr l ↦ simp (e, l) refl
  ]
]

start-exit_event :
    (windows : Windows) (n : ℕ) (p : Pool) (w : windows.World)
    → (start_missing windows n p w).0.exit_event ≡ p.exit_event
unfolding start_missing
start-exit_event windows zero p w = refl
start-exit_event windows (suc n) p w =
    let (l, w') = windows.launch w in
    start-exit_event windows n (create_process l p) w' ∙ create-exit_event l p

module _ (os : Os) (jobs : Jobs os) (law : Documented os jobs) (ends : CanTerminate os) where
  open jobs use {Alive, Member, Limited}

  abbrev Contained : ScopedHandle → os.World → Type 0
  Contained = IsContained os jobs law ends

  abbrev pub AllEnded : os.World → Type 0
  AllEnded = NoneAlive os jobs law ends

  start-Contained :
      (job : ScopedHandle) (n : ℕ) (p : Pool) (w : os.World)
      → Contained job w
      → Contained job (start_missing (windows_of os job) n p w).1
  unfolding start_missing
  start-Contained job zero p w c = c
  start-Contained job (suc n) p w c =
      let (l, w') = launch_process os job w in
      start-Contained job n (create_process l p) w' (launch-IsContained os jobs law ends job w c)

  -- What the rounds leave of a pool.
  abbrev Runs : ScopedHandle → ℕ → ℕ → Pool × os.World → Type 0
  Runs job num exit_event (p, w) =
      (p.exit_event ≡ exit_event)
      × (p.num_processes ≡ num)
      × (length p.processes ≤ p.num_processes)
      × Contained job w

  round-Runs :
      (job : ScopedHandle) (num exit_event : ℕ) (p : Pool) (w : os.World)
      → Runs job num exit_event (p, w)
      → let (more, p', w') = thread_round (windows_of os job) p w in
        Runs job num exit_event (p', w')
  unfolding thread_round
  round-Runs job num exit_event p w (e, m, few, c) =
      let (few', m') = thread_round-at_most (windows_of os job) p w few in
      let n = p.num_processes - length p.processes in
      let (p₁, w₁) = start_missing (windows_of os job) n p w in
      (
        after_wait-exit_event _ p₁ ∙ start-exit_event (windows_of os job) n p w ∙ e,
        m' ∙ m,
        omega arith,
        Keeps-IsContained os jobs law ends job _ _ (law.at_wait _ w₁) (start-Contained job n p w c),
      )

  rounds-Runs :
      (n : ℕ) (job : ScopedHandle) (num exit_event : ℕ) (p : Pool) (w : os.World)
      → Runs job num exit_event (p, w)
      → Runs job num exit_event (rounds os n job p w)
  unfolding rounds
  rounds-Runs zero job num exit_event p w r = r
  rounds-Runs (suc n) job num exit_event p w r =
      let (more, p', w') = thread_round (windows_of os job) p w in
      rounds-Runs n job num exit_event p' w' (round-Runs job num exit_event p w r)

  construct-Runs :
      (num : ℕ) (w : os.World)
      → AllEnded w
      → let (job, p, w') = construct os num w in Runs job num p.exit_event (p, w')
  unfolding construct job_create
  construct-Runs num w none_yet = (refl, refl, omega arith, at_job (os.create_job w).0 refl)
    where
      at_job :
          (job : ScopedHandle)
          → (os.create_job w).0 ≡ job
          → Contained job (os.create_event (os.kill_on_close job (os.create_job w).1)).1
      at_job none e = λ x a. none_yet x (
          (law.at_create_job w).alive x
            ((law.at_kill_on_close none _).alive x ((law.at_create_event _).alive x a)))
      at_job (some job) e =
          Keeps-IsContained os jobs law ends (some job) _ _ (law.at_create_event _) (
            law.limits w job e,
            λ x a. absurd (
                none_yet x
                  ((law.at_create_job w).alive x ((law.at_kill_on_close (some job) _).alive x a))),
          )

  -- While the destructor closes its handles: none of which need be the job's.
  abbrev Closing : ℕ → os.World → Type 0
  Closing job w = AllEnded w ⊎ Contained (some job) w

  close-Closing : (job h : ℕ) (w : os.World) → Closing job w → Closing job (os.close h w)
  close-Closing job h w (inl ended) = inl (λ x a. ended x (law.alive-close h w x a))
  close-Closing job h w (inr (l, m)) = elim (ℕ_discrete job h) [
    | yes same ↦ inl (λ x a.
        law.kills job w x l (m x (law.alive-close h w x a))
          (subst (λ k. Alive (os.close k w) x) (sym same) a))
    | no other ↦ inr (
      law.limited-close h w job other l,
      λ x a. law.member-close h w job x other (m x (law.alive-close h w x a)),
    )
  ]

  close_all-Closing :
      (job : ℕ) (hs : List ScopedHandle) (w : os.World)
      → Closing job w
      → Closing job (close_all os hs w)
  unfolding close_all close_handle
  close_all-Closing job [] w c = c
  close_all-Closing job (none ∷ hs) w c = close_all-Closing job hs w c
  close_all-Closing job (some h ∷ hs) w c = close_all-Closing job hs _ (close-Closing job h w c)

  close_all-AllEnded :
      (hs : List ScopedHandle) (w : os.World) → AllEnded w → AllEnded (close_all os hs w)
  unfolding close_all close_handle
  close_all-AllEnded [] w c = c
  close_all-AllEnded (none ∷ hs) w c = close_all-AllEnded hs w c
  close_all-AllEnded (some h ∷ hs) w c =
      close_all-AllEnded hs _ (λ x a. c x (law.alive-close h w x a))

  closed-AllEnded :
      (job : ScopedHandle) (p : Pool) (w : os.World)
      → Contained job w
      → AllEnded (close_handle os job (os.close p.exit_event (close_all os p.processes w)))
  unfolding close_handle
  closed-AllEnded none p w c =
      λ x a. close_all-AllEnded p.processes w c x (law.alive-close p.exit_event _ x a)
  closed-AllEnded (some job) p w c =
      elim (close-Closing job p.exit_event (close_all os p.processes w)
        (close_all-Closing job p.processes w (inr c))) [
          | inl ended ↦ λ x a. ended x (law.alive-close job _ x a)
          | inr (l, m) ↦ λ x a. law.kills job _ x l (m x (law.alive-close job _ x a)) a
        ]

  module _ (can : CanStop os) where
    -- How many processes still die once the event is set.
    abbrev pub deaths_left : ScopedHandle → Pool → os.World → ℕ
    deaths_left job p w = (can.stopping job p.exit_event).deaths (os.set_event p.exit_event w)

    -- A pool of fewer than 64 processes can be destroyed, after any number of rounds of its thread:
    -- the destructor returns, whether or not the calls that create the job and that create, assign
    -- and resume processes have failed, and then none of the pool's processes is alive, which
    -- means that each has ended or that its end was begun. The calls that create the event, set the
    -- job's limit and terminate a process succeed. The thread stops as soon as its wait reports the
    -- event, and until then at most so many processes die as there is fuel for. Windows ends the
    -- members of a job that is closed.
    pub destroy-AllEnded :
        (num_processes n fuel : ℕ) (w : os.World)
        → AllEnded w
        → num_processes < 64
        → let (job, p, w₁) = construct os num_processes w in
          let (p₁, w₂) = rounds os n job p w₁ in
          deaths_left job p₁ w₂ < fuel → Returns AllEnded (destroy os fuel job p₁ w₂)
    unfolding destroy
    destroy-AllEnded num n fuel w none_yet small enough =
        let (job, p, w₁) = construct os num w in
        let (p₁, w₂) = rounds os n job p w₁ in
        let (e, m, few, c) =
          rounds-Runs n job num p.exit_event p w₁ (construct-Runs num w none_yet) in
        Returns-bind (λ (p', w'). Contained job w') AllEnded
          (thread_main (windows_of os job) fuel p₁ (os.set_event p₁.exit_event w₂)) _
          (thread_main-Returns (windows_of os job) p₁.exit_event (can.stopping job p₁.exit_event)
            (Contained job) (launch-IsContained os jobs law ends job)
            (λ hs v. Keeps-IsContained os jobs law ends job _ _ (law.at_wait hs v)) fuel p₁
            (os.set_event p₁.exit_event w₂) refl few (omega arith) (can.sets job p₁.exit_event w₂)
            (Keeps-IsContained os jobs law ends job _ _ (law.at_set_event _ w₂) c) enough)
          λ (p', w') k. closed-AllEnded job p' w' k
