-- ===== src/Tests/Pump.antt =====
-- A pump whose callbacks are numbers: two channels are added, and one gets an answer.
use iis_asgi_handler.Prelude.{
  ℕ, ◌+◌, ◌≤◌, ◌≡◌, refl, List, [], ◌∷◌, ◌++◌, some, none, false, Bytes, Bytes-discrete, codes,
  arith, ℕ_discrete,
}
use mathlib.Core.Logic.{ite}
use iis_asgi_handler.Pump.{
  ResponsePump, Phase, Action, add_channel, take_names, reply, stop, exited, step, run,
  find_callback, set_callback, erase_callback,
}
use iis_asgi_handler.Pump.Dispatch.{reply_reaches_callback}
use iis_asgi_handler.Pump.Stopped.{IsOver, stop_ends}
use iis_asgi_handler.Module.Factory.{response_pump}
use iis_asgi_handler.Pump.Registrations.{adds, calls, is_registered, called_once_per_registration}

abbrev pub idle : ResponsePump ℕ
idle = record {
  callbacks = [];
  thread_stop = false;
  phase = Phase.top;
  delay = 0;
  tasks = [];
  dropped = [];
}

abbrev one_added : ResponsePump ℕ
one_added = record idle { callbacks = (codes "c", 7) ∷ [] }

abbrev wait : List (Action ℕ)
wait = take_names ∷ add_channel (codes "d") 8 ∷ []

abbrev busy : List (Action ℕ)
busy =
    add_channel (codes "c") 7
    ∷ take_names
    ∷ reply (codes "c") (codes "m")
    ∷ take_names
    ∷ add_channel (codes "c") 9
    ∷ take_names
    ∷ reply (codes "c") (codes "n")
    ∷ []

busy_runs : (run busy idle).tasks ≡ (codes "c", 7, codes "m") ∷ (codes "c", 9, codes "n") ∷ []
unfolding run step set_callback find_callback Bytes-discrete ℕ_discrete erase_callback
busy_runs = refl

reply_reaches_callback_run :
    let q = run wait one_added in
    let q' = step (reply (codes "c") (codes "m")) q in
    (callback : ℕ) × (find_callback (codes "c") q.callbacks ≡ some callback)
    × (q'.tasks ≡ q.tasks ++ (codes "c", callback, codes "m") ∷ [])
    × (q'.dropped ≡ q.dropped)
    × ((k : Bytes)
        → find_callback k q'.callbacks
          ≡ ite (Bytes-discrete (codes "c") k) none (find_callback k q.callbacks))
unfolding run find_callback Bytes-discrete ℕ_discrete step
reply_reaches_callback_run =
    reply_reaches_callback (codes "c") (codes "m") (codes "c" ∷ []) wait one_added
      (λ (e : codes "c" ≡ []). grind arith) (7, refl) (tt, (tt, tt)) refl

called_once_per_registration_example :
    calls (codes "c") (run busy idle).tasks
      + is_registered (find_callback (codes "c") (run busy idle).callbacks)
    ≤ adds (codes "c") busy
called_once_per_registration_example = called_once_per_registration (codes "c") busy idle refl refl

stop_ends_example :
    let q =
      run
        (stop ∷ ((take_names ∷ []) ++ (reply (codes "c") (codes "hi") ∷ ([] ++ (take_names ∷ [])))))
        one_added in
    (q.phase ≡ exited) × IsOver q (run (reply (codes "c") (codes "x") ∷ []) q)
stop_ends_example =
    stop_ends (take_names ∷ []) [] (reply (codes "c") (codes "x") ∷ []) (codes "c") (codes "hi")
      one_added

starts_idle : response_pump {Callback = ℕ} ≡ idle
unfolding response_pump
starts_idle = refl
