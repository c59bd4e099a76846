-- ===== src/Tests/Scoped.antt =====
-- Handles that are moved and closed.
use iis_asgi_handler.Prelude.{◌≡◌, refl, List, [], ◌∷◌, none, some, ok, Returns, arith}
use iis_asgi_handler.Scoped.{
  handle_traits, Operation, construct, assign_move, release, Objects, run, step, act, get, on,
  set_to, move,
}
use iis_asgi_handler.Scoped.Accounts.{Accounted, run-Accounted}

abbrev nothing : Objects handle_traits
nothing = record {
  values = [];
  log = record { given = []; transferred = []; released = []; overwritten = [] };
  world = tt;
}

-- The second handle is assigned to the first object, and both objects are destroyed.
abbrev replaced : List Operation
replaced = construct (some 5) ∷ construct (some 6) ∷ assign_move 0 1 ∷ release 0 ∷ release 1 ∷ []

replaced_runs :
    run handle_traits replaced nothing
    ≡ ok (record {
      values = none ∷ none ∷ [];
      log = record {
        given = 6 ∷ 6 ∷ 5 ∷ [];
        transferred = 6 ∷ [];
        released = 6 ∷ [];
        overwritten = 5 ∷ [];
      };
      world = tt;
    })
unfolding run step act get on set_to move
replaced_runs = refl

run-Accounted_example : Returns (Accounted handle_traits) (run handle_traits replaced nothing)
run-Accounted_example =
    run-Accounted handle_traits replaced nothing
      (tt, (tt, ((omega arith, omega arith, refl), (omega arith, (omega arith, tt))))) (λ n. refl)
