-- ===== src/ProcessPool/Monitored.antt =====
-- How many processes the pool keeps, which handles it closes, and when its thread ends.
use iis_asgi_handler.Prelude.{
  ℕ, zero, suc, ◌+◌, ◌-◌, ◌≤◌, ◌<◌, ◌≡◌, refl, ap, ◌∙◌, inl, inr, Bool-cases, true, false, not,
  ◌||◌, List, [], ◌∷◌, ◌++◌, none, some, length, length-append, ◌==◌, ltb, err, Error, arith, tests,
}
use iis_asgi_handler.ProcessPool.Monitor.{
  ScopedHandle, Launch, Windows, Pool, shift, erase, create_process, after_wait, start_missing,
  handles, thread_round, thread_main,
}

shift_rest : (handles : List ScopedHandle) → shift none handles ≡ (handles, none)
unfolding shift
shift_rest [] = refl
shift_rest (next ∷ handles) = rw (shift_rest handles)

-- Erasing a handle that is not the last removes it from the list, but what is destroyed is an
-- invalid handle: the removed one is closed by nothing. Erasing the last destroys it.
pub erase_closes_only_last :
    (before after : List ScopedHandle) (handle next : ScopedHandle)
    → (erase (length before) (before ++ handle ∷ next ∷ after) ≡ (before ++ next ∷ after, none))
      × (erase (length before) (before ++ handle ∷ []) ≡ (before, handle))
unfolding erase shift
erase_closes_only_last [] after handle next = (rw (shift_rest after), refl)
erase_closes_only_last (b ∷ before) after handle next =
    let (inner, last) = erase_closes_only_last before after handle next in (rw inner, rw last)

length-shift :
    (handle : ScopedHandle) (hs : List ScopedHandle) → length (shift handle hs).0 ≡ length hs
unfolding shift
length-shift handle [] = refl
length-shift handle (next ∷ hs) = ap suc (length-shift none hs)

pub length-erase :
    (i : ℕ) (hs : List ScopedHandle) → i < length hs → length (erase i hs).0 + 1 ≡ length hs
unfolding erase
length-erase i [] h = absurd (omega arith)
length-erase zero (handle ∷ hs) h = omega (arith, length-shift handle hs)
length-erase (suc i) (handle ∷ hs) h = omega (arith, length-erase i hs (omega arith))

create-at_most_one :
    (l : Launch) (p : Pool)
    → (length (create_process l p).processes ≤ length p.processes + 1)
      × ((create_process l p).num_processes ≡ p.num_processes)
unfolding create_process
create-at_most_one l p = elim (Bool-cases l.created) [
  | inl c ↦ elim (Bool-cases (not l.assigned || not l.resumed)) [
    | inl b ↦ simp (c, b) (omega arith, refl)
    | inr b ↦ simp (c, b) (omega (arith, length-append p.processes (some l.process ∷ [])), refl)
  ]
  | inr c ↦ simp c (omega arith, refl)
]

after_wait-at_most :
    (i : ℕ) (p : Pool)
    → (length (after_wait i p).1.processes ≤ length p.processes)
      × ((after_wait i p).1.num_processes ≡ p.num_processes)
unfolding after_wait
after_wait-at_most i p = elim (Bool-cases (i == length p.processes)) [
  | inl e ↦ simp e (omega arith, refl)
  | inr e ↦ elim (Bool-cases (ltb i (length p.processes))) [
    | inl l ↦ simp (e, l) (omega (tests, length-erase i p.processes (omega tests)), refl)
    | inr l ↦ simp (e, l) (omega arith, refl)
  ]
]

module _ (windows : Windows) where
  pub start-at_most :
      (n : ℕ) (p : Pool) (w : windows.World)
      → (length (start_missing windows n p w).0.processes ≤ length p.processes + n)
        × ((start_missing windows n p w).0.num_processes ≡ p.num_processes)
  unfolding start_missing
  start-at_most zero p w = (omega arith, refl)
  start-at_most (suc n) p w =
      let (l, w') = windows.launch w in
      let (one, same) = create-at_most_one l p in
      let (more, same') = start-at_most n (create_process l p) w' in (omega arith, same' ∙ same)

  -- A round never leaves more processes than the pool is to have, whatever the system does.
  pub thread_round-at_most :
      (p : Pool) (w : windows.World)
      → length p.processes ≤ p.num_processes
      → (length (thread_round windows p w).1.processes ≤ p.num_processes)
        × ((thread_round windows p w).1.num_processes ≡ p.num_processes)
  unfolding thread_round
  thread_round-at_most p w h =
      let n = p.num_processes - length p.processes in
      let (p₁, w₁) = start_missing windows n p w in
      let (few, same) = start-at_most n p w in
      let (fewer, same') = after_wait-at_most (windows.wait (handles windows p₁) w₁).0 p₁ in
      (omega arith, same' ∙ same)

  stuck_round :
      (p : Pool) (w : windows.World)
      → (windows.wait (handles windows p) w).0 ≡ 0xFFFFFFFF
      → length p.processes ≡ p.num_processes
      → p.num_processes < 0xFFFFFFFF
      → thread_round windows p w ≡ (true, p, (windows.wait (handles windows p) w).1)
  unfolding thread_round start_missing after_wait
  stuck_round p w fails full small =
      let missing : p.num_processes - length p.processes ≡ 0 = omega arith in
      let not_exit : (0xFFFFFFFF == length p.processes) ≡ false = ground arith in
      let not_process : ltb 0xFFFFFFFF (length p.processes) ≡ false = ground arith in
      simp (missing, fails, not_exit, not_process) refl

  -- Where the wait fails on more than 64 handles, the thread of a full pool of 64 processes or more
  -- (and fewer than the code of the failure) never leaves its loop: no number of rounds is enough.
  pub thread_main_stuck :
      (fuel : ℕ) (p : Pool) (w : windows.World)
      → ((hs : List ScopedHandle) (v : windows.World)
          → 64 < length hs
          → (windows.wait hs v).0 ≡ 0xFFFFFFFF)
      → length p.processes ≡ p.num_processes
      → 64 ≤ p.num_processes
      → p.num_processes < 0xFFFFFFFF
      → thread_main windows fuel p w ≡ err Error.out_of_fuel
  unfolding thread_main
  thread_main_stuck zero p w fails full many small = refl
  thread_main_stuck (suc fuel) p w fails full many small =
      rw
        (stuck_round p w
          (fails (handles windows p) w
            (omega (arith, length-append p.processes (some p.exit_event ∷ []))))
          full small)
        (thread_main_stuck fuel p (windows.wait (handles windows p) w).1 fails full many small)
