-- ===== src/Scoped/Members.antt =====
-- What each member function does to the accounts of one object among several.
use iis_asgi_handler.Prelude.{
  ℕ, zero, suc, ◌+◌, ◌<◌, ◌==◌, ◌≡◌, refl, ap, List, [], ◌∷◌, ◌++◌, length, none, some, Returns,
  Returns-bind, if◌then◌else◌, arith,
}
use iis_asgi_handler.Scoped.{Value, Log, valid, set_value, transfer_value, release_value, act, get}

-- How often a value is in a list.
abbrev pub times : ℕ → List ℕ → ℕ
times n [] = 0
times n (x ∷ xs) = (if x == n then 1 else 0) + times n xs

abbrev pub held : List Value → List ℕ
held [] = []
held (x ∷ xs) = valid x ++ held xs

-- How often a value is no longer in an object.
abbrev pub gone : ℕ → Log → ℕ
gone n log = times n log.released + times n log.transferred + times n log.overwritten

times-valid :
    (n : ℕ) (x : Value) (l : List ℕ) → times n (valid x ++ l) ≡ times n (valid x) + times n l
times-valid n none l = omega arith
times-valid n (some v) l = omega arith

-- The accounts before and after: what was given in between is held or gone.
abbrev pub Settles : ℕ → List ℕ → Log → List ℕ → Log → Type 0
Settles n l log l' log' =
    times n log'.given + (times n l + gone n log) ≡ times n log.given + (times n l' + gone n log')

abbrev pub Fair : (Value × Log → Value × Log) → Type 0
Fair f =
    (n : ℕ) (x : Value) (log : Log) → Settles n (valid x) log (valid (f (x, log)).0) (f (x, log)).1

pub set_value-Fair : (value : Value) → Fair (set_value value)
set_value-Fair value n x log =
    omega (arith, times-valid n value log.given, times-valid n x log.overwritten)

pub transfer_value-Fair : Fair transfer_value
transfer_value-Fair n x log = omega (arith, times-valid n x log.transferred)

pub release_value-Fair : Fair release_value
release_value-Fair n x log = omega (arith, times-valid n x log.released)

-- An operation on one object of several.
pub record Acted (xs : List Value) (log : Log) (xs' : List Value) (log' : Log) : Type 0 where
  pub same_number : length xs' ≡ length xs
  pub settles : (n : ℕ) → Settles n (held xs) log (held xs') log'

pub act-Acted :
    (f : Value × Log → Value × Log) (i : ℕ) (xs : List Value) (log : Log)
    → Fair f
    → i < length xs
    → Returns (λ (xs', log'). Acted xs log xs' log') (act f i xs log)
unfolding act
act-Acted f i [] log fair h = absurd (omega arith)
act-Acted f zero (x ∷ xs) log fair h = record {
  same_number = refl;
  settles = λ n.
      omega
        (arith, fair n x log, times-valid n x (held xs), times-valid n (f (x, log)).0 (held xs));
}
act-Acted f (suc i) (x ∷ xs) log fair h =
    Returns-bind (λ (xs', log'). Acted xs log xs' log') _ (act f i xs log) _
      (act-Acted f i xs log fair (omega arith))
      λ (xs', log') a. record {
        same_number = ap suc a.same_number;
        settles =
            λ n. omega (arith, a.settles n, times-valid n x (held xs), times-valid n x (held xs'));
      }

pub get-Returns : (i : ℕ) (xs : List Value) → i < length xs → Returns (λ x. Unit {0}) (get i xs)
unfolding get
get-Returns i [] h = absurd (omega arith)
get-Returns zero (x ∷ xs) h = tt
get-Returns (suc i) (x ∷ xs) h = get-Returns i xs (omega arith)

pub held-new : (xs : List Value) → held (xs ++ none ∷ []) ≡ held xs
held-new [] = refl
held-new (x ∷ xs) = ap (◌++◌ (valid x)) (held-new xs)
