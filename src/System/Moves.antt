-- ===== src/System/Moves.antt =====
-- How one request's view of the system changes, for each thing that can happen to it.
use mathlib.Core.List.{map-append}
use iis_asgi_handler.Prelude.{
  ℕ, ◌≡◌, refl, ap, subst, inl, inr, List, [], ◌∷◌, ◌++◌, append_assoc, Option, none, some, Bytes,
}
use iis_asgi_handler.Iis.{Iis}
use iis_asgi_handler.Messages.{AsgiHttpResponseMsg}
use iis_asgi_handler.Http.{awaiting}
use iis_asgi_handler.Http.Connection.{Connection}
use iis_asgi_handler.System.Requests.{IsQuiet}
use iis_asgi_handler.System.Views.{
  messages, received_of, QuietOr, Mode, Kept, quiet-Mode, registered-Mode, task-Mode,
}

module _ {iis : Iis} (unpack : Bytes → Option AsgiHttpResponseMsg)
    (Reached : Connection iis → Type 0) (i : ℕ) (k : Bytes) where
  -- All of this for the request `i` with the reply channel `k`, of which the connection is `o`, the
  -- callback registered for `k` is `callback`, and `left` and `all` are what is on the channel and
  -- what ever was.
  pub record View (o : Option (Connection iis)) (callback : Option ℕ) (tasks : List (Bytes × Bytes))
      (left all : List Bytes) : Type 0 where
    pub reached : (c : Connection iis) → o ≡ some c → Reached c
    pub mode : Mode i k o callback tasks
    pub kept : Kept unpack o tasks left all

  module _ {o : Option (Connection iis)} {f : Option ℕ} {t : List (Bytes × Bytes)}
      {left all : List Bytes} (v : View o f t left all) where
    -- The handler was called back, not by the pump, and does not wait for a message then.
    pub stays-View :
        (c : Connection iis)
        → QuietOr o
        → Reached c
        → c.received ≡ received_of o
        → IsQuiet c
        → View (some c) f t left all
    stays-View c q r same quiet = record {
      reached = λ c' e. subst Reached (cc) r;
      mode = let (n, e) = quiet-Mode i k o f t v.mode q in inl (quiet, n, e);
      kept = rw same v.kept;
    }

    -- It waits for a message then.
    pub joins-View :
        (c : Connection iis)
        → QuietOr o
        → Reached c
        → c.received ≡ received_of o
        → c.env.waiting ≡ awaiting k ∷ []
        → View (some c) (some i) t left all
    joins-View c q r same w = record {
      reached = λ c' e. subst Reached (cc) r;
      mode = inr (inl (w, refl, (quiet-Mode i k o f t v.mode q).1));
      kept = rw same v.kept;
    }

    -- A message was put on the channel.
    pub sent-View : (m : Bytes) → View o f t (left ++ m ∷ []) (all ++ m ∷ [])
    sent-View m = record {
      reached = v.reached;
      mode = v.mode;
      kept =
          rw
            (
              ← append_assoc (messages t) left (m ∷ []),
              map-append unpack (messages t ++ left),
              map-append unpack all,
              ← append_assoc,
            )
            (ap (λ l. l ++ unpack m ∷ []) v.kept);
    }

    -- The channel's oldest message was handed to the callback.
    pub handed-View :
        (m : Bytes) (rest : List Bytes) {j : ℕ}
        → f ≡ some j
        → left ≡ m ∷ rest
        → View o none (t ++ (k, m) ∷ []) rest all
    handed-View m rest found oldest =
        let (w, e) = registered-Mode i k o f t v.mode found in
        record {
          reached = v.reached;
          mode = inr (inr (w, refl, m, rw e refl));
          kept = rw e (rw (e, oldest) at v.kept);
        }

    -- The callback has run on its message.
    pub called-View :
        (c : Connection iis) (channel m : Bytes) (msg : AsgiHttpResponseMsg)
        (before after : List (Bytes × Bytes))
        → Reached c
        → t ≡ before ++ (channel, m) ∷ after
        → unpack m ≡ some msg
        → c.received ≡ received_of o ++ msg ∷ []
        → IsQuiet c
        → View (some c) f (before ++ after) left all
    called-View c channel m msg before after r e unpacked got quiet =
        let (w, n, b, a, same) = task-Mode i k o f t channel m before after v.mode e in
        record {
          reached = λ c' e'. subst Reached (cc) r;
          mode = inl (quiet, n, rw (b, a) refl);
          kept =
              rw (b, a, got, map-append some (received_of o) (msg ∷ []), append_assoc, ← unpacked)
                (rw (e, b, a) at v.kept);
        }
