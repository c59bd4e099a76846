-- ===== src/System/Views.antt =====
-- What one request sees of the connections, the pump and the channel layer.
use mathlib.Core.Logic.{ite, if_pos, if_neg}
use iis_asgi_handler.Prelude.{
  ℕ, ◌≡◌, ◌≢◌, refl, sym, ap, ◌∙◌, ◌⊎◌, inl, inr, List, [], ◌∷◌, ◌++◌, map, Option, none, some,
  Bytes, ℕ_discrete, arith,
}
use iis_asgi_handler.Iis.{Iis}
use iis_asgi_handler.Messages.{AsgiHttpResponseMsg}
use iis_asgi_handler.Http.{awaiting}
use iis_asgi_handler.Http.Connection.{Connection}
use iis_asgi_handler.System.Requests.{IsQuiet}

-- The tasks of a request, with their channels and messages.
unfoldable pub tasks_of : ℕ → List (Bytes × ℕ × Bytes) → List (Bytes × Bytes)
tasks_of i [] = []
tasks_of i ((channel, j, message) ∷ ts) =
    let rest = tasks_of i ts in ite (ℕ_discrete j i) ((channel, message) ∷ rest) rest

abbrev pub messages : List (Bytes × Bytes) → List Bytes
messages [] = []
messages ((channel, message) ∷ ts) = message ∷ messages ts

pub tasks_of-append :
    (i : ℕ) (ts us : List (Bytes × ℕ × Bytes))
    → tasks_of i (ts ++ us) ≡ tasks_of i ts ++ tasks_of i us
unfolding tasks_of
tasks_of-append i [] us = refl
tasks_of-append i ((channel, j, message) ∷ ts) us = ground (arith, tasks_of-append i ts us)

-- A task is one of its own request's, and none of another's.
pub tasks_of-own :
    (i : ℕ) (channel message : Bytes) (ts us : List (Bytes × ℕ × Bytes))
    → tasks_of i (ts ++ (channel, i, message) ∷ us)
      ≡ tasks_of i ts ++ (channel, message) ∷ tasks_of i us
unfolding tasks_of
tasks_of-own i channel message ts us =
    tasks_of-append i ts _ ∙ ap (◌++◌ (tasks_of i ts)) (if_pos (ℕ_discrete i i) refl _ _)

pub tasks_of-other :
    (i j : ℕ) (channel message : Bytes) (ts us : List (Bytes × ℕ × Bytes))
    → j ≢ i
    → tasks_of i (ts ++ (channel, j, message) ∷ us) ≡ tasks_of i (ts ++ us)
unfolding tasks_of
tasks_of-other i j channel message ts us other =
    tasks_of-append i ts _
    ∙ ap (◌++◌ (tasks_of i ts)) (if_neg (ℕ_discrete j i) other _ _)
    ∙ sym (tasks_of-append i ts us)

-- Nothing else is in a list that has one element.
pub only {ℓ} :
    {A : Type ℓ} {x y : A} (xs ys : List A)
    → xs ++ x ∷ ys ≡ y ∷ []
    → (xs ≡ []) × (ys ≡ []) × (x ≡ y)
only [] ys e = (refl, cc, cc)
only (a ∷ []) ys e = absurd (cc)
only (a ∷ b ∷ xs) ys e = absurd (cc)

no_task {ℓ} : {A : Type ℓ} (x : A) (xs ys : List A) → (xs ++ x ∷ ys) ≢ []
no_task x [] ys e = cc
no_task x (a ∷ xs) ys e = cc

module _ {iis : Iis} where
  abbrev pub received_of : Option (Connection iis) → List AsgiHttpResponseMsg
  received_of none = []
  received_of (some c) = c.received

  abbrev pub QuietOr : Option (Connection iis) → Type 0
  QuietOr none = Unit {0}
  QuietOr (some c) = IsQuiet c

  -- The request waits for a message on the channel.
  abbrev pub Waits : Bytes → Option (Connection iis) → Type 0
  Waits k none = ⊥
  Waits k (some c) = c.env.waiting ≡ awaiting k ∷ []

  -- Either nothing waits for a message, and none is under way; or the channel is registered; or its
  -- message was taken, and is in the one task of the request's.
  abbrev pub Mode : ℕ → Bytes → Option (Connection iis) → Option ℕ → List (Bytes × Bytes) → Type 0
  Mode i k o callback tasks =
      (QuietOr o × (callback ≡ none) × (tasks ≡ []))
      ⊎ (Waits k o × (callback ≡ some i) × (tasks ≡ []))
      ⊎ (Waits k o × (callback ≡ none) × (message : Bytes) × (tasks ≡ (k, message) ∷ []))

  module _ (unpack : Bytes → Option AsgiHttpResponseMsg) where
    -- The messages that the request has received, that are in its task and that are left on its
    -- channel are, in this order, those that were ever put on the channel.
    abbrev pub Kept :
        Option (Connection iis) → List (Bytes × Bytes) → (left all : List Bytes) → Type 0
    Kept o tasks left all =
        map some (received_of o) ++ map unpack (messages tasks ++ left) ≡ map unpack all

  Waits-not_quiet : (k : Bytes) (o : Option (Connection iis)) → Waits k o → QuietOr o → ⊥
  Waits-not_quiet k none w q = w
  Waits-not_quiet k (some c) w q = q k w

  pub quiet-Mode :
      (i : ℕ) (k : Bytes) (o : Option (Connection iis)) (f : Option ℕ) (t : List (Bytes × Bytes))
      → Mode i k o f t
      → QuietOr o
      → (f ≡ none) × (t ≡ [])
  quiet-Mode i k o f t (inl (_, n, e)) q = (n, e)
  quiet-Mode i k o f t (inr (inl (w, _, _))) q = absurd (Waits-not_quiet k o w q)
  quiet-Mode i k o f t (inr (inr (w, _, _, _))) q = absurd (Waits-not_quiet k o w q)

  pub registered-Mode :
      (i : ℕ) (k : Bytes) (o : Option (Connection iis)) (f : Option ℕ) (t : List (Bytes × Bytes))
      {j : ℕ}
      → Mode i k o f t
      → f ≡ some j
      → Waits k o × (t ≡ [])
  registered-Mode i k o f t (inl (_, e, _)) found = absurd (cc)
  registered-Mode i k o f t (inr (inl (w, _, e))) found = (w, e)
  registered-Mode i k o f t (inr (inr (_, e, _, _))) found = absurd (cc)

  -- A request with a task waits for the task's message, and has no other task.
  pub task-Mode :
      (i : ℕ) (k : Bytes) (o : Option (Connection iis)) (f : Option ℕ) (t : List (Bytes × Bytes))
      (channel message : Bytes) (before after : List (Bytes × Bytes))
      → Mode i k o f t
      → t ≡ before ++ (channel, message) ∷ after
      → Waits k o × (f ≡ none) × (before ≡ []) × (after ≡ []) × (channel ≡ k)
  task-Mode i k o f t channel message before after (inl (_, _, e)) found =
      absurd (no_task _ before after (sym found ∙ e))
  task-Mode i k o f t channel message before after (inr (inl (_, _, e))) found =
      absurd (no_task _ before after (sym found ∙ e))
  task-Mode i k o f t channel message before after (inr (inr (w, n, _, e))) found =
      let (b, a, same) = only before after (sym found ∙ e) in
      (w, n, b, a, ap (λ (x : Bytes × Bytes). x.0) same)
