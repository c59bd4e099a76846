-- ===== src/ProcessPool/Monitor.antt =====
-- ProcessPoolLib/ProcessPool.cpp, the thread that keeps the pool full, with what it uses of
-- SharedUtils/ScopedResources.h. Windows is a parameter.
use iis_asgi_handler.Prelude.{
  ℕ, zero, suc, ◌-◌, Bool, true, false, not, ◌||◌, List, [], ◌∷◌, ◌++◌, Option, none, some, length,
  ◌==◌, ltb, if◌then◌else◌, Result, ok, err, Error,
}

-- A ScopedHandle is its value, `none` where it is invalid.
abbrev pub ScopedHandle : Type 0
ScopedHandle = Option ℕ

-- What ::CreateProcess(), ::AssignProcessToJobObject() and ::ResumeThread() gave.
pub record Launch : Type 0 where
  pub created : Bool
  pub process : ℕ
  pub assigned : Bool
  pub resumed : Bool

-- `wait` is ::WaitForMultipleObjects() on the handles, of which the last is the exit event.
pub record Windows : Type 1 where
  pub World : Type 0
  pub launch : World → Launch × World
  pub wait : List ScopedHandle → World → ℕ × World

-- `m_processes`, and the processes terminated and the handles closed, oldest first.
pub record Pool : Type 0 where
  pub num_processes : ℕ
  pub exit_event : ℕ
  pub processes : List ScopedHandle
  pub terminated : List ℕ
  pub closed : List ℕ

-- ScopedResource::Release()
unfoldable pub release : ScopedHandle → List ℕ → List ℕ
release none closed = closed
release (some handle) closed = closed ++ handle ∷ []

-- The handle is assigned the next one, which Transfer() leaves invalid, and so on to the end: what
-- remains of the list, and the value of the last handle, which is then destroyed.
unfoldable pub shift : ScopedHandle → List ScopedHandle → List ScopedHandle × ScopedHandle
shift handle [] = ([], handle)
shift handle (next ∷ handles) = let (moved, last) = shift none handles in (next ∷ moved, last)

-- vector::erase(), by move assignment: ScopedResource's sets the value and releases nothing.
unfoldable pub erase : ℕ → List ScopedHandle → List ScopedHandle × ScopedHandle
erase i [] = ([], none)
erase zero (handle ∷ handles) = shift handle handles
erase (suc i) (handle ∷ handles) = let (kept, last) = erase i handles in (handle ∷ kept, last)

-- CreateProcess(), with what the system did. The process's handle is closed unless it is kept.
unfoldable pub create_process : Launch → Pool → Pool
create_process l p =
    if not l.created
    then p
    else if not l.assigned || not l.resumed
    then record p {
      terminated = p.terminated ++ l.process ∷ [];
      closed = p.closed ++ l.process ∷ [];
    }
    else record p { processes = p.processes ++ some l.process ∷ [] }

abbrev pub remove_process : ℕ → Pool → Pool
remove_process i p =
    let (kept, last) = erase i p.processes in
    record p { processes = kept; closed = release last p.closed }

-- What follows the wait: whether the loop goes on. A failed wait gives no index of a handle.
unfoldable pub after_wait : ℕ → Pool → Bool × Pool
after_wait signaled_idx p =
    if signaled_idx == length p.processes
    then (false, p)
    else if ltb signaled_idx (length p.processes)
    then (true, remove_process signaled_idx p)
    else (true, p)

module _ (windows : Windows) where
  -- `for (auto i = m_processes.size(); i < m_num_processes; ++i)`, for the rounds that it makes.
  unfoldable pub start_missing : ℕ → Pool → windows.World → Pool × windows.World
  start_missing zero p w = (p, w)
  start_missing (suc n) p w =
      let (l, w') = windows.launch w in start_missing n (create_process l p) w'

  abbrev pub handles : Pool → List ScopedHandle
  handles p = p.processes ++ some p.exit_event ∷ []

  -- One round of ThreadMain()'s loop: whether it goes on, the pool and the system.
  unfoldable pub thread_round : Pool → windows.World → Bool × Pool × windows.World
  thread_round p w =
      let (p₁, w₁) = start_missing (p.num_processes - length p.processes) p w in
      let (signaled_idx, w₂) = windows.wait (handles p₁) w₁ in
      let (more, p₂) = after_wait signaled_idx p₁ in (more, p₂, w₂)

  -- ThreadMain(), on fuel.
  unfoldable pub thread_main : ℕ → Pool → windows.World → Result (Pool × windows.World)
  thread_main zero p w = err Error.out_of_fuel
  thread_main (suc fuel) p w =
      let (more, p', w') = thread_round p w in
      let rest = thread_main fuel p' w' in if more then rest else ok (p', w')
