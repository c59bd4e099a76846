-- ===== src/Tests/Round.antt =====
-- A round of the pump over the server in memory: two channels are waited for, and one has a message.
use iis_asgi_handler.Prelude.{ℕ, ◌≢◌, refl, [], ◌∷◌, inl, inr, codes, false, Returns, Bytes, arith}
use iis_asgi_handler.Pump.{ResponsePump, Phase, names}
use iis_asgi_handler.Pump.Round.{round, Round, round-Delivers}
use iis_asgi_handler.Redis.Delivery.{Among}
use iis_asgi_handler.Redis.Represents.{put}
use iis_asgi_handler.Tests.Redis.{store, store_lawful, one_sent, one_sent-Represents}

abbrev two_waiting : ResponsePump ℕ
two_waiting = record {
  callbacks = (codes "b", 8) ∷ (codes "a", 7) ∷ [];
  thread_stop = false;
  phase = Phase.top;
  delay = 0;
  tasks = [];
  dropped = [];
}

all_named : (c : Bytes) → Among c (names two_waiting.callbacks) → c ≢ []
all_named c (inl e) empty = absurd (cc)
all_named c (inr (inl e)) empty = absurd (cc)
all_named c (inr (inr none_left)) empty = none_left

round-Delivers_example :
    Returns
      (Round store
        (codes "asgi:")
        (λ ks. ks)
        store_lawful
        two_waiting
        (put (codes "a") (codes "hi" ∷ []) (λ c. [])))
      (round store (codes "asgi:") (λ ks. ks) two_waiting one_sent)
round-Delivers_example =
    round-Delivers store (codes "asgi:") (λ ks. ks) store_lawful two_waiting one_sent
      (put (codes "a") (codes "hi" ∷ []) (λ c. [])) refl refl all_named (λ k ks h. h) (λ k ks h. h)
      (omega arith) one_sent-Represents
