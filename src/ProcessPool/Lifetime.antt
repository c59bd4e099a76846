-- ===== src/ProcessPool/Lifetime.antt =====
-- ProcessPoolLib/ProcessPool.cpp from its constructor to its destructor, and JobObject.cpp: what
-- keeps the pool's processes from outliving it. The calls of Windows are a parameter.
use iis_asgi_handler.Prelude.{
  ℕ, zero, suc, Bool, true, false, not, ◌||◌, List, [], ◌∷◌, Option, none, some, if◌then◌else◌,
  Result, ok, ◌>>=◌,
}
use iis_asgi_handler.ProcessPool.Monitor.{
  ScopedHandle, Launch, Windows, Pool, thread_round, thread_main,
}

pub record Os : Type 1 where
  pub World : Type 0
  -- ::CreateJobObject(), and ::SetInformationJobObject() with the limit that kills its processes.
  pub create_job : World → ScopedHandle × World
  pub kill_on_close : ScopedHandle → World → World
  -- ::CreateEvent(), which succeeds.
  pub create_event : World → ℕ × World
  pub set_event : ℕ → World → World
  -- ::CreateProcess() gives a suspended process, or nothing.
  pub create_suspended : World → Option ℕ × World
  pub assign_to_job : (job : ScopedHandle) (process : ℕ) → World → Bool × World
  pub resume : ℕ → World → Bool × World
  -- ::TerminateProcess(): whether it succeeded, which the code does not look at.
  pub terminate : ℕ → World → Bool × World
  pub wait : List ScopedHandle → World → ℕ × World
  pub close : ℕ → World → World

module _ (os : Os) where
  open os use {World}

  -- JobObject::Create()
  unfoldable pub job_create : World → ScopedHandle × World
  job_create w = let (job, w') = os.create_job w in (job, os.kill_on_close job w')

  -- CreateProcess() after ::CreateProcess(): both calls are made, whatever the first gives.
  unfoldable pub launched : (job : ScopedHandle) → Option ℕ → World → Launch × World
  launched job none w =
      (record { created = false; process = 0; assigned = false; resumed = false }, w)
  launched job (some process) w =
      let (assigned, w₁) = os.assign_to_job job process w in
      let (resumed, w₂) = os.resume process w₁ in
      let launch : Launch = record {
        created = true;
        process = process;
        assigned = assigned;
        resumed = resumed;
      } in
      if not assigned || not resumed then (launch, (os.terminate process w₂).1) else (launch, w₂)

  unfoldable pub launch_process : (job : ScopedHandle) → World → Launch × World
  launch_process job w = let (process, w') = os.create_suspended w in launched job process w'

  -- The system as the monitoring thread sees it.
  abbrev pub windows_of : (job : ScopedHandle) → Windows
  windows_of job = record { World = os.World; launch = launch_process job; wait = os.wait }

  -- The constructor.
  unfoldable pub construct : (num_processes : ℕ) → World → ScopedHandle × Pool × World
  construct num_processes w =
      let (job, w₁) = job_create w in
      let (exit_event, w₂) = os.create_event w₁ in
      let pool : Pool = record {
        num_processes = num_processes;
        exit_event = exit_event;
        processes = [];
        terminated = [];
        closed = [];
      } in
      (job, pool, w₂)

  -- The thread, before it is told to stop. The event is not set, so that its loop goes on.
  unfoldable pub rounds : ℕ → (job : ScopedHandle) → Pool → World → Pool × World
  rounds zero job p w = (p, w)
  rounds (suc n) job p w =
      let (more, p', w') = thread_round (windows_of job) p w in rounds n job p' w'

  unfoldable pub close_handle : ScopedHandle → World → World
  close_handle none w = w
  close_handle (some handle) w = os.close handle w

  unfoldable pub close_all : List ScopedHandle → World → World
  close_all [] w = w
  close_all (handle ∷ handles) w = close_all handles (close_handle handle w)

  -- The destructor: Stop(), the join, and the members from the last to the first. The thread reads
  -- the event in its wait only, so that it may as well be set before the round.
  unfoldable pub destroy : ℕ → (job : ScopedHandle) → Pool → World → Result World
  destroy fuel job p w =
      thread_main (windows_of job) fuel p (os.set_event p.exit_event w) >>= λ (p', w').
      ok (close_handle job (os.close p'.exit_event (close_all p'.processes w')))
