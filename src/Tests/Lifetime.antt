-- ===== src/Tests/Lifetime.antt =====
-- A pool of two processes from its constructor to its destructor, on a system in memory.
use mathlib.Core.Logic.{ite}
use iis_asgi_handler.Prelude.{
  ℕ, ◌+◌, ◌-◌, ◌≡◌, ◌≢◌, refl, sym, ap, ◌∙◌, ◌⊎◌, inl, inr, Bool, true, false, List, [], ◌∷◌, ◌++◌,
  none, some, length, length-append, if◌then◌else◌, Returns, arith, ℕ_discrete, Result, ok,
}
use iis_asgi_handler.ProcessPool.Monitor.{
  ScopedHandle, Pool, thread_round, thread_main, start_missing, create_process, after_wait, erase,
  shift, release,
}
use iis_asgi_handler.ProcessPool.Lifetime.{
  Os, job_create, launched, launch_process, construct, rounds, close_handle, close_all, destroy,
}
use iis_asgi_handler.ProcessPool.Jobs.{CanTerminate, Jobs, Keeps, Documented}
use iis_asgi_handler.ProcessPool.Ended.{CanStop, AllEnded, destroy-AllEnded}

record Machine : Type 0 where
  alive : List ℕ
  members : List ℕ
  next : ℕ
  is_set : Bool

abbrev Has : ℕ → List ℕ → Type 0
Has x [] = ⊥
Has x (y ∷ ys) = (x ≡ y) ⊎ Has x ys

without : ℕ → List ℕ → List ℕ
without p [] = []
without p (x ∷ xs) = let rest = without p xs in ite (ℕ_discrete x p) rest (x ∷ rest)

Has-without : (p x : ℕ) (xs : List ℕ) → Has x (without p xs) → Has x xs × (x ≢ p)
unfolding without
Has-without p x [] h = absurd h
Has-without p x (y ∷ xs) h =
    elim (ℕ_discrete y p)
        as (λ d. Has x (ite d (without p xs) (y ∷ without p xs)) → Has x (y ∷ xs) × (x ≢ p)) [
          | yes same ↦ λ h. let (a, b) = Has-without p x xs h in (inr a, b)
          | no other ↦ λ h. elim h [
            | inl e ↦ (inl e, λ e'. other (sym e ∙ e'))
            | inr r ↦ let (a, b) = Has-without p x xs r in (inr a, b)
          ]
        ]
      h

abbrev assign : ScopedHandle → ℕ → Machine → Bool × Machine
assign none p w = (false, w)
assign (some job) p w = (true, record w { members = p ∷ w.members })

-- The job is number 1, and the event number 2.
abbrev machine : Os
machine = record {
  World = Machine;
  create_job = λ w. (some 1, w);
  kill_on_close = λ job w. w;
  create_event = λ w. (2, w);
  set_event = λ e w. record w { is_set = true };
  create_suspended = λ w. (some w.next, record w { alive = w.next ∷ w.alive; next = w.next + 1 });
  assign_to_job = λ job p w. assign job p w;
  resume = λ p w. (true, w);
  terminate = λ p w. (true, record w { alive = without p w.alive });
  wait = λ hs w. (if w.is_set then length hs - 1 else 0, w);
  close = λ h w. record w { alive = ite (ℕ_discrete h 1) [] w.alive };
}

abbrev machine_jobs : Jobs machine
machine_jobs = record {
  Alive = λ w x. Has x w.alive;
  Member = λ w job x. Has x w.members;
  Limited = λ w job. job ≡ 1;
}

same : (w w' : Machine) → w'.alive ≡ w.alive → w'.members ≡ w.members → Keeps machine_jobs w w'
same w w' e f = record {
  alive = λ x h. rw e at h;
  member = λ job x h. rw f h;
  limited = λ job h. h;
}

assign-Keeps : (job : ScopedHandle) (p : ℕ) (w : Machine) → Keeps machine_jobs w (assign job p w).1
assign-Keeps none p w = same w w refl refl
assign-Keeps (some job) p w = record {
  alive = λ x h. h;
  member = λ job x h. inr h;
  limited = λ job h. h;
}

closed-Has :
    {P : Type 0} (d : Dec P) (x : ℕ) (xs : List ℕ) → Has x (ite d [] xs) → Has x xs × (P → ⊥)
closed-Has (yes p) x xs h = absurd h
closed-Has (no np) x xs h = (h, np)

machine_terminates : CanTerminate machine
machine_terminates p w = refl

machine_documented : Documented machine machine_jobs
machine_documented = record {
  at_create_job = λ w. same w w refl refl;
  at_kill_on_close = λ job w. same w w refl refl;
  at_create_event = λ w. same w w refl refl;
  at_set_event = λ e w. same w _ refl refl;
  at_assign = assign-Keeps;
  at_resume = λ p w. same w w refl refl;
  at_terminate = λ p w. record {
    alive = λ x h. (Has-without p x w.alive h).0;
    member = λ job x h. h;
    limited = λ job h. h;
  };
  at_wait = λ hs w. same w w refl refl;
  creates = λ w x h. elim h [ inl e ↦ inr (ap some (sym e)) | inr old ↦ inl old ];
  member-create = λ w job x h. h;
  limited-create = λ w job h. h;
  assigns = λ job p w e. inl refl;
  no_job = λ p w. refl;
  terminates = λ p w e h. (Has-without p p w.alive h).1 refl;
  limits = λ w job e. cc;
  alive-close = λ h w x a. (closed-Has (ℕ_discrete h 1) x w.alive a).0;
  member-close = λ h w job x other m. m;
  limited-close = λ h w job other l. l;
  kills = λ job w x l m a. (closed-Has (ℕ_discrete job 1) x w.alive a).1 l;
}

launch_set :
    (job : ScopedHandle) (w : Machine)
    → w.is_set ≡ true
    → (launch_process machine job w).1.is_set ≡ true
unfolding launch_process launched
launch_set none w s = s
launch_set (some job) w s = s

reports :
    (hs : List ScopedHandle) (exit_event : ℕ) (w : Machine)
    → w.is_set ≡ true
    → (if w.is_set then length (hs ++ some exit_event ∷ []) - 1 else 0) ≡ length hs
reports hs exit_event w s = rw s (omega (arith, length-append hs (some exit_event ∷ [])))

-- The event is reported as soon as it is set.
abbrev machine_stops : CanStop machine
machine_stops = record {
  stopping = λ job exit_event. record {
    IsSignaled = λ w. w.is_set ≡ true;
    deaths = λ w. 0;
    signaled-launch = launch_set job;
    deaths-launch = λ w. omega arith;
    signaled-wait = λ hs w s. s;
    wait_ends = λ hs w s small. inl (reports hs exit_event w s);
  };
  sets = λ job exit_event w. refl;
}

abbrev off : Machine
off = record { alive = []; members = []; next = 7; is_set = false }

abbrev made : ScopedHandle × Pool × Machine
made = construct machine 2 off

abbrev ran : Pool × Machine
ran = rounds machine 3 made.0 made.1 made.2

destroy-AllEnded_example :
    Returns
      (AllEnded machine machine_jobs machine_documented machine_terminates)
      (destroy machine 1 made.0 ran.0 ran.1)
destroy-AllEnded_example =
    destroy-AllEnded machine machine_jobs machine_documented machine_terminates machine_stops 2 3 1
      off (λ x h. h) (omega arith) (omega arith)

abbrev stopped : Result Machine
stopped = destroy machine 1 made.0 ran.0 ran.1

-- Four processes were started in three rounds, and one more in the last; none is left.
lifetime_runs :
    stopped
    ≡ ok (record { alive = []; members = 11 ∷ 10 ∷ 9 ∷ 8 ∷ 7 ∷ []; next = 12; is_set = true })
unfolding destroy construct job_create rounds launch_process launched thread_main thread_round
    start_missing create_process after_wait erase shift release close_handle close_all ℕ_discrete
lifetime_runs = refl
