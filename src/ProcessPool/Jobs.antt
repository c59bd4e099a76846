-- ===== src/ProcessPool/Jobs.antt =====
-- What Windows documents of the job that ProcessPoolLib/JobObject.cpp creates, as ProcessPool
-- relies on it.
use iis_asgi_handler.Prelude.{ℕ, ◌≡◌, ◌≢◌, ◌⊎◌, true, false, List, none, some}
use iis_asgi_handler.ProcessPool.Monitor.{ScopedHandle}
use iis_asgi_handler.ProcessPool.Lifetime.{Os}

-- `Alive` are the processes that were created through these calls and neither have ended nor are
-- being ended, which Windows does after the call that asks for it has returned; `Member` those that
-- were assigned to a job, and `Limited` a job that has the limit and whose handle is open.
pub record Jobs (os : Os) : Type 1 where
  pub Alive : os.World → ℕ → Type 0
  pub Member : os.World → (job : ℕ) → ℕ → Type 0
  pub Limited : os.World → (job : ℕ) → Type 0

-- A call that brings no process to life, and leaves the jobs as they are.
pub record Keeps {os : Os} (jobs : Jobs os) (w w' : os.World) : Type 0 where
  pub alive : (x : ℕ) → jobs.Alive w' x → jobs.Alive w x
  pub member : (job x : ℕ) → jobs.Member w job x → jobs.Member w' job x
  pub limited : (job : ℕ) → jobs.Limited w job → jobs.Limited w' job

-- What MSDN documents of the calls.
pub record Documented (os : Os) (jobs : Jobs os) : Type 0 where
  pub at_create_job : (w : os.World) → Keeps jobs w (os.create_job w).1
  pub at_kill_on_close : (job : ScopedHandle) (w : os.World) → Keeps jobs w (os.kill_on_close job w)
  pub at_create_event : (w : os.World) → Keeps jobs w (os.create_event w).1
  pub at_set_event : (e : ℕ) (w : os.World) → Keeps jobs w (os.set_event e w)
  pub at_assign :
      (job : ScopedHandle) (p : ℕ) (w : os.World) → Keeps jobs w (os.assign_to_job job p w).1
  pub at_resume : (p : ℕ) (w : os.World) → Keeps jobs w (os.resume p w).1
  pub at_terminate : (p : ℕ) (w : os.World) → Keeps jobs w (os.terminate p w).1
  pub at_wait : (hs : List ScopedHandle) (w : os.World) → Keeps jobs w (os.wait hs w).1
  -- ::CreateProcess() brings the process to life that it gives.
  pub creates :
      (w : os.World) (x : ℕ)
      → jobs.Alive (os.create_suspended w).1 x
      → jobs.Alive w x ⊎ ((os.create_suspended w).0 ≡ some x)
  pub member-create :
      (w : os.World) (job x : ℕ) → jobs.Member w job x → jobs.Member (os.create_suspended w).1 job x
  pub limited-create :
      (w : os.World) (job : ℕ) → jobs.Limited w job → jobs.Limited (os.create_suspended w).1 job
  -- A process that was assigned is in the job; none is assigned to no job.
  pub assigns :
      (job p : ℕ) (w : os.World)
      → (os.assign_to_job (some job) p w).0 ≡ true
      → jobs.Member (os.assign_to_job (some job) p w).1 job p
  pub no_job : (p : ℕ) (w : os.World) → (os.assign_to_job none p w).0 ≡ false
  pub terminates :
      (p : ℕ) (w : os.World) → (os.terminate p w).0 ≡ true → jobs.Alive (os.terminate p w).1 p → ⊥
  -- The limit can be set, and then the members end with the job's last handle.
  pub limits :
      (w : os.World) (job : ℕ)
      → (os.create_job w).0 ≡ some job
      → jobs.Limited (os.kill_on_close (some job) (os.create_job w).1) job
  pub alive-close : (h : ℕ) (w : os.World) (x : ℕ) → jobs.Alive (os.close h w) x → jobs.Alive w x
  pub member-close :
      (h : ℕ) (w : os.World) (job x : ℕ)
      → job ≢ h
      → jobs.Member w job x
      → jobs.Member (os.close h w) job x
  pub limited-close :
      (h : ℕ) (w : os.World) (job : ℕ)
      → job ≢ h
      → jobs.Limited w job
      → jobs.Limited (os.close h w) job
  pub kills :
      (job : ℕ) (w : os.World) (x : ℕ)
      → jobs.Limited w job
      → jobs.Member w job x
      → jobs.Alive (os.close job w) x
      → ⊥

-- ::TerminateProcess() succeeds on the processes that were just created.
abbrev pub CanTerminate : Os → Type 0
CanTerminate os = (p : ℕ) (w : os.World) → (os.terminate p w).0 ≡ true
