-- ===== src/Tests/OverRedis.antt =====
-- A round of the pump over the server in memory, where a request waits for the message that it has.
use iis_asgi_handler.Prelude.{refl, ap, length, codes, Returns, arith}
use iis_asgi_handler.Pump.{step}
use iis_asgi_handler.Pump.Round.{round}
use iis_asgi_handler.Redis.{send_to}
use iis_asgi_handler.Redis.Represents.{Represents}
use iis_asgi_handler.System.{register, returned, sent}
use iis_asgi_handler.System.OverRedis.{Simulates, send_to-Reaches, round-Simulates}
use iis_asgi_handler.Tests.Host.{memory, memory_lawful}
use iis_asgi_handler.Tests.Http.{as_is, channel}
use iis_asgi_handler.Tests.Redis.{Store, store, store_lawful, empty_store, empty-Represents}
use iis_asgi_handler.Tests.Request.{counter}
use iis_asgi_handler.Tests.System.{
  unpack, all_post, start_at, all_world, Reaches, waiting, answered, reach_waiting, reach_answered,
}

abbrev stored : Store
stored = send_to store (codes "asgi:") (codes "k123456789") channel (codes "hi") empty_store

answered-Represents :
    Reaches answered × Represents store store_lawful (codes "asgi:") stored answered.layer
unfolding returned
answered-Represents =
    send_to-Reaches memory memory_lawful counter as_is 9 unpack all_post start_at all_world 2 store
      store_lawful (codes "asgi:") (λ ks. ks) waiting empty_store (codes "k123456789") channel
      (codes "hi") reach_waiting (omega arith) empty-Represents (λ c k among. elim among [ ])
      (record {
        other_name = λ e. let l = ap length e in absurd (omega arith);
        no_list = refl;
        no_text = refl;
      })

round-Simulates_example :
    Returns
      (Simulates memory memory_lawful counter as_is 9 unpack all_post start_at all_world 2 store
        store_lawful
        (codes "asgi:")
        (λ ks. ks)
        answered)
      (round store (codes "asgi:") (λ ks. ks) answered.pump stored)
unfolding sent returned register step
round-Simulates_example =
    round-Simulates memory memory_lawful counter as_is 9 unpack all_post start_at all_world 2 store
      store_lawful (codes "asgi:") (λ ks. ks) (λ k ks h. h) (λ k ks h. h) (omega arith) answered
      stored reach_answered refl answered-Represents.1
