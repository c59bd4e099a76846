-- ===== src/System/Others.antt =====
-- Whoever else uses the pump of the requests, on channels of their own.
use mathlib.Core.Logic.{if_pos, if_neg}
use iis_asgi_handler.Prelude.{
  ℕ, ◌<◌, ◌≤◌, ◌≡◌, ◌≢◌, refl, sym, subst₂, inr, List, [], ◌∷◌, ◌++◌, append-nil, Option, some,
  Bytes, Bytes-discrete, arith,
}
use iis_asgi_handler.Iis.{Iis, Lawful}
use iis_asgi_handler.Channels.{Engine}
use iis_asgi_handler.Messages.{AsgiHttpResponseMsg}
use iis_asgi_handler.Request.{RawRequest}
use iis_asgi_handler.Pump.{top, add_channel, erase_callback, step}
use iis_asgi_handler.Pump.Dispatch.{find-set, find-erase}
use iis_asgi_handler.Redis.Represents.{put}
use iis_asgi_handler.System.{System, IsOthers, channel_of}
use iis_asgi_handler.System.Views.{tasks_of-other}
use iis_asgi_handler.System.Sound.{Sound, Taken-grows}
use iis_asgi_handler.System.Dispatching.{put_other}

module _ (iis : Iis) (law : Lawful iis) (engine : Engine) (to_bytes : List ℕ → Bytes) (fuel : ℕ)
    (unpack : Bytes → Option AsgiHttpResponseMsg) (raw : ℕ → RawRequest) (random : ℕ → engine.State)
    (world : ℕ → iis.World) (count : ℕ) where
  abbrev IsSound : System iis → Type 0
  IsSound = Sound iis law engine to_bytes fuel unpack raw random world count

  abbrev Foreign : ℕ → Bytes → Type 0
  Foreign = IsOthers iis law engine to_bytes fuel unpack raw random world count

  abbrev chan : ℕ → Bytes
  chan = channel_of iis law engine to_bytes fuel unpack raw random world count

  higher : {i j : ℕ} → i < count → count ≤ j → j ≢ i
  higher {i} {j} lt high e = omega arith

  module _ (s : System iis) (h : IsSound s) (j : ℕ) (channel : Bytes) where
    pub others_registered-Sound :
        Foreign j channel → IsSound (record s { pump = step (add_channel channel j) s.pump })
    unfolding step
    others_registered-Sound (high, ne, apart) = record {
      views = λ i lt.
          rw
            (
              find-set (chan i) channel j s.pump.callbacks,
              if_neg (Bytes-discrete channel (chan i)) (apart i lt),
            )
            (h.views i lt);
      came = h.came;
      owned = λ k i e. elim (Bytes-discrete channel k) [
        | yes own ↦
            let e' =
              rw (find-set k channel j s.pump.callbacks, if_pos (Bytes-discrete channel k) own) at
                e in
            inr (subst₂ Foreign (the_same e') own (high, ne, apart))
        | no other ↦ h.owned k i (
            rw (find-set k channel j s.pump.callbacks, if_neg (Bytes-discrete channel k) other) at
              e)
      ];
      taken =
          Taken-grows s.pump.phase s.pump.callbacks _
            (λ k i e. elim (Bytes-discrete channel k) [
              | yes own ↦ (
                j,
                rw (find-set k channel j s.pump.callbacks, if_pos (Bytes-discrete channel k) own)
                    refl,
              )
              | no other ↦ (
                i,
                rw (find-set k channel j s.pump.callbacks, if_neg (Bytes-discrete channel k) other)
                    e,
              )
            ])
            h.taken;
      none_dropped = h.none_dropped;
    }
      where
        the_same : {i : ℕ} → some j ≡ some i → j ≡ i
        the_same e = cc

    pub others_handed-Sound :
        (m : Bytes) (rest : List Bytes)
        → Foreign j channel
        → IsSound (record s {
          pump = record s.pump {
            callbacks = erase_callback channel s.pump.callbacks;
            phase = top;
            delay = 0;
            tasks = s.pump.tasks ++ (channel, j, m) ∷ [];
          };
          layer = put channel rest s.layer;
        })
    others_handed-Sound m rest (high, ne, apart) = record {
      views = λ i lt.
          rw
            (
              tasks_of-other i j channel m s.pump.tasks [] (higher lt high),
              append-nil s.pump.tasks,
              find-erase (chan i) channel s.pump.callbacks,
              if_neg (Bytes-discrete channel (chan i)) (apart i lt),
              put_other channel rest s.layer (chan i) (λ e. apart i lt (sym e)),
            )
            (h.views i lt);
      came = h.came;
      owned = λ k i e. elim (Bytes-discrete channel k) [
        | yes own ↦ absurd (
            gone (
              rw (find-erase k channel s.pump.callbacks, if_pos (Bytes-discrete channel k) own) at
                e))
        | no other ↦ h.owned k i (
            rw (find-erase k channel s.pump.callbacks, if_neg (Bytes-discrete channel k) other) at
              e)
      ];
      taken = tt;
      none_dropped = h.none_dropped;
    }
      where
        gone : {i : ℕ} → Option.none ≢ some i
        gone e = cc

    pub others_ran-Sound :
        (m : Bytes) (before after : List (Bytes × ℕ × Bytes))
        → count ≤ j
        → s.pump.tasks ≡ before ++ (channel, j, m) ∷ after
        → IsSound (record s { pump = record s.pump { tasks = before ++ after } })
    others_ran-Sound m before after high at = record {
      views = λ i lt.
          rw (← tasks_of-other i j channel m before after (higher lt high), ← at) (h.views i lt);
      came = h.came;
      owned = h.owned;
      taken = h.taken;
      none_dropped = h.none_dropped;
    }
