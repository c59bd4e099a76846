-- ===== src/Tests/Liveness.antt =====
-- A streamed response that is brought to its end.
use iis_asgi_handler.Prelude.{inl, ◌≡◌, refl, [], ◌∷◌, arith}
use iis_asgi_handler.StateMachine.{finished}
use iis_asgi_handler.Http.Connection.{Connection}
use iis_asgi_handler.Http.Invariant.{contents}
use iis_asgi_handler.Http.Liveness.{can_be_answered}
use iis_asgi_handler.Tests.Host.{memory, memory_lawful}
use iis_asgi_handler.Tests.Http.{
  as_is, world, channel, chunk_one, chunk_two, started, request, Reached, reach_started,
  memory_reliable,
}
use iis_asgi_handler.Tests.Request.{counter, post}

can_be_answered_example :
    (c' : Connection memory) × Reached c'
    × (c'.status ≡ finished)
    × (c'.received ≡ chunk_one ∷ chunk_two ∷ [])
    × (c'.env.world.written ≡ contents c'.received)
can_be_answered_example =
    can_be_answered memory memory_lawful counter as_is 6 post 0 world refl (omega arith)
      (omega arith) (omega arith) memory_reliable started request channel (chunk_one ∷ []) chunk_two
      reach_started (inl refl) (refl, tt) (omega arith, (omega arith, tt)) refl
