-- ===== src/System/Socket/Views.antt =====
-- What the writer's channel and tasks look like at each turn of its, and how they change.
use mathlib.Core.List.{map-append}
use iis_asgi_handler.Prelude.{
  ℕ, ◌≡◌, ◌≢◌, refl, sym, ap, ◌∙◌, ◌⊎◌, inl, inr, List, [], ◌∷◌, ◌++◌, map, append_assoc, Option,
  none, some, Bytes,
}
use iis_asgi_handler.Messages.{AsgiWsSendMsg}
use iis_asgi_handler.System.Views.{messages, only}
use iis_asgi_handler.WebSocket.{WebSocketContext}
use iis_asgi_handler.WebSocket.Turns.{Turn, Idle, Busy, Ends, Begins}

module _ (ws : WebSocketContext) (k : Bytes) (unpack : Bytes → Option AsgiWsSendMsg) where
  -- The writer is idle, and its channel is registered or a message for it is in its one task; or it
  -- is busy, and neither.
  abbrev pub Mode : Turn ws → Option ℕ → List (Bytes × Bytes) → Type 0
  Mode turn callback tasks =
      (Idle turn × (callback ≡ some 0) × (tasks ≡ []))
      ⊎ (Idle turn × (callback ≡ none) × (message : Bytes) × (tasks ≡ (k, message) ∷ []))
      ⊎ ((m : AsgiWsSendMsg) × Busy m turn × (callback ≡ none) × (tasks ≡ []))

  -- The messages that arrived, that are in the task and that are left on the channel are, in this
  -- order, those that were ever put on it.
  pub record View (turn : Turn ws) (callback : Option ℕ) (tasks : List (Bytes × Bytes))
      (left all : List Bytes) : Type 0 where
    pub same_channel : turn.writer.reply_channel ≡ k
    pub mode : Mode turn callback tasks
    pub kept : map some turn.arrived ++ map unpack (messages tasks ++ left) ≡ map unpack all

  module _ {turn : Turn ws} {f : Option ℕ} {t : List (Bytes × Bytes)} {left all : List Bytes}
      (v : View turn f t left all) where
    pub answered-View : (m : Bytes) → View turn f t (left ++ m ∷ []) (all ++ m ∷ [])
    answered-View m = record {
      same_channel = v.same_channel;
      mode = v.mode;
      kept =
          rw
            (
              ← append_assoc (messages t) left (m ∷ []),
              map-append unpack (messages t ++ left),
              map-append unpack all,
              ← append_assoc,
            )
            (ap (λ l. l ++ unpack m ∷ []) v.kept);
    }

    pub registered : {j : ℕ} → f ≡ some j → Idle turn × (j ≡ 0) × (t ≡ [])
    registered found = elim v.mode [
      | inl (idle, e', e) ↦ (idle, cc (found, e'), e)
      | inr (inl (_, e, _, _)) ↦ absurd (cc (found, e))
      | inr (inr (_, _, e, _)) ↦ absurd (cc (found, e))
    ]

    -- The channel's oldest message was handed to the callback.
    pub handed-View :
        (m : Bytes) (rest : List Bytes) {j : ℕ}
        → f ≡ some j
        → left ≡ m ∷ rest
        → View turn none (t ++ (k, m) ∷ []) rest all
    handed-View m rest found oldest =
        let (idle, _, e) = registered found in
        record {
          same_channel = v.same_channel;
          mode = inr (inl (idle, refl, m, rw e refl));
          kept = rw e (rw (e, oldest) at v.kept);
        }

    pub in_task :
        (channel m : Bytes) (before later : List (Bytes × Bytes))
        → t ≡ before ++ (channel, m) ∷ later
        → Idle turn × (f ≡ none) × (before ≡ []) × (later ≡ []) × (channel ≡ k)
    in_task channel m before later at = elim v.mode [
      | inl (_, _, e) ↦ absurd (no_task before (sym at ∙ e))
      | inr (inl (idle, n, _, e)) ↦
          let (b, l, same) = only before later (sym at ∙ e) in
          (idle, n, b, l, ap (λ (x : Bytes × Bytes). x.0) same)
      | inr (inr (_, _, _, e)) ↦ absurd (no_task before (sym at ∙ e))
    ]
      where
        no_task : (l : List (Bytes × Bytes)) → (l ++ (channel, m) ∷ later) ≢ []
        no_task [] = λ e. cc
        no_task (x ∷ l) = λ e. cc

    next_kept :
        (turn' : Turn ws) (channel m : Bytes) (msg : AsgiWsSendMsg)
        (before later : List (Bytes × Bytes))
        → t ≡ before ++ (channel, m) ∷ later
        → unpack m ≡ some msg
        → turn'.arrived ≡ turn.arrived ++ msg ∷ []
        → map some turn'.arrived ++ map unpack (messages (before ++ later) ++ left) ≡ map unpack all
    next_kept turn' channel m msg before later at unpacked got =
        let (_, _, b, l, _) = in_task channel m before later at in
        rw (b, l, got, map-append some turn.arrived (msg ∷ []), append_assoc, ← unpacked)
          (rw (at, b, l) at v.kept)

    -- The callback ran on its message, and ended it or began it.
    pub ended-View :
        (turn' : Turn ws) (channel m : Bytes) (msg : AsgiWsSendMsg)
        (before later : List (Bytes × Bytes))
        → t ≡ before ++ (channel, m) ∷ later
        → unpack m ≡ some msg
        → turn'.arrived ≡ turn.arrived ++ msg ∷ []
        → Ends turn turn'
        → View turn' (some 0) (before ++ later) left all
    ended-View turn' channel m msg before later at unpacked got ends =
        let (_, _, b, l, _) = in_task channel m before later at in
        record {
          same_channel = ends.same_channel ∙ v.same_channel;
          mode = inl (ends.idle, refl, rw (b, l) refl);
          kept = next_kept turn' channel m msg before later at unpacked got;
        }

    pub begun-View :
        (turn' : Turn ws) (channel m : Bytes) (msg : AsgiWsSendMsg) {m' : AsgiWsSendMsg}
        (before later : List (Bytes × Bytes))
        → t ≡ before ++ (channel, m) ∷ later
        → unpack m ≡ some msg
        → turn'.arrived ≡ turn.arrived ++ msg ∷ []
        → Begins m' turn turn'
        → View turn' f (before ++ later) left all
    begun-View turn' channel m msg {m'} before later at unpacked got begins =
        let (_, n, b, l, _) = in_task channel m before later at in
        record {
          same_channel = begins.same_channel ∙ v.same_channel;
          mode = inr (inr (m', begins.busy, n, rw (b, l) refl));
          kept = next_kept turn' channel m msg before later at unpacked got;
        }

    -- The writer was started once more while its channel was registered.
    pub restarted-View :
        (turn' : Turn ws)
        → f ≡ some 0
        → turn'.arrived ≡ turn.arrived
        → Ends turn turn'
        → View turn' (some 0) t left all
    restarted-View turn' found same ends = record {
      same_channel = ends.same_channel ∙ v.same_channel;
      mode = inl (ends.idle, refl, (registered found).2);
      kept = simp same v.kept;
    }

    pub is_busy : (m : AsgiWsSendMsg) → turn.writer.asgi_send_msg ≡ some m → Busy m turn
    is_busy m has = elim v.mode [
      | inl (idle, _, _) ↦ absurd (cc (idle.no_message, has))
      | inr (inl (idle, _, _, _)) ↦ absurd (cc (idle.no_message, has))
      | inr (inr (_, busy, _, _)) ↦ record { message = has }
    ]

    -- The message that the writer had was written.
    pub written-View :
        (turn' : Turn ws) (m : AsgiWsSendMsg)
        → turn.writer.asgi_send_msg ≡ some m
        → turn'.arrived ≡ turn.arrived
        → Ends turn turn'
        → View turn' (some 0) t left all
    written-View turn' m has same ends = record {
      same_channel = ends.same_channel ∙ v.same_channel;
      mode = inl (
        ends.idle,
        refl,
        elim v.mode [
          | inl (idle, _, _) ↦ absurd (cc (idle.no_message, has))
          | inr (inl (idle, _, _, _)) ↦ absurd (cc (idle.no_message, has))
          | inr (inr (_, _, _, e)) ↦ e
        ],
      );
      kept = simp same v.kept;
    }
