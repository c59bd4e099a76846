-- ===== src/Tests/System.antt =====
-- Two requests, of which the first is answered: its message is put on its channel, taken by the
-- pump, and handed to the task.
use mathlib.Core.Logic.{if_pos}
use iis_asgi_handler.Prelude.{
  ℕ, zero, suc, ◌<◌, ◌≡◌, ◌≢◌, refl, ap, ◌⊎◌, inl, false, [], ◌∷◌, ◌++◌, map, Option, none, some,
  Bytes, Bytes-discrete, ℕ_discrete, codes, pos, get_or, arith,
}
use iis_asgi_handler.Channels.{generate_random_ascii, new_channel}
use iis_asgi_handler.Messages.{AsgiHttpResponseMsg}
use iis_asgi_handler.Request.{RawRequest}
use iis_asgi_handler.Pump.{
  exited, take_names, find_callback, set_callback, erase_callback, dispatch, look, receive,
  thread_step, step,
}
use iis_asgi_handler.Http.Connection.{request_sent, handle}
use iis_asgi_handler.Http.Start.{http_request_msg}
use iis_asgi_handler.System.{
  System, arrives, happens, sends, looks, receives, Reachable, begin, after, register, returned,
  sent, received_from,
}
use iis_asgi_handler.System.Views.{tasks_of, received_of, messages}
use iis_asgi_handler.System.Sound.{set_same}
use iis_asgi_handler.System.Reached.{AreRequests, channel_of}
use iis_asgi_handler.System.Delivery.{
  messages_kept, IsCalledBack, task_finds_its_step, none_forgotten,
}
use iis_asgi_handler.System.Progress.{Ends, can_be_delivered}
use iis_asgi_handler.Tests.Host.{Memory, memory, memory_lawful}
use iis_asgi_handler.Tests.Http.{
  as_is, world, channel, request, started, was_sent, waits, starts, posted_runs, posts, enabled,
}
use iis_asgi_handler.Tests.Pump.{idle}
use iis_asgi_handler.Tests.Request.{counter, post}

-- A message is its own content.
abbrev pub unpack : Bytes → Option AsgiHttpResponseMsg
unpack b = some (record { status = pos 200; headers = []; content = b; more_content = false })

abbrev pub all_post : ℕ → RawRequest
all_post i = post

abbrev pub start_at : ℕ → ℕ
start_at i = i

abbrev pub all_world : ℕ → Memory
all_world i = world

abbrev Requests : Type 0
Requests = AreRequests memory memory_lawful counter as_is 9 unpack all_post start_at all_world 2

two_requests : Requests
unfolding new_channel generate_random_ascii http_request_msg
two_requests = record {
  fresh = λ i. refl;
  small = λ i. omega arith;
  enough = λ i. omega arith;
  rounds = omega arith;
  distinct = apart;
}
  where
    apart :
        (i j : ℕ)
        → i < 2
        → j < 2
        → channel_of memory memory_lawful counter as_is 9 unpack all_post start_at all_world 2 i
          ≡ channel_of memory memory_lawful counter as_is 9 unpack all_post start_at all_world 2 j
        → i ≡ j
    apart zero zero p q e = refl
    apart (suc zero) (suc zero) p q e = refl
    apart zero (suc zero) p q e = let n = ap (λ b. get_or b 13 0) e in absurd (omega arith)
    apart (suc zero) zero p q e = let n = ap (λ b. get_or b 13 0) e in absurd (omega arith)
    apart (suc (suc i)) j p q e = absurd (omega arith)
    apart i (suc (suc j)) p q e = absurd (omega arith)

abbrev pub Reaches : System memory → Type 0
Reaches = Reachable memory memory_lawful counter as_is 9 unpack all_post start_at all_world 2

abbrev s₀ : System memory
s₀ = record { connections = λ i. none; pump = idle; layer = λ c. []; history = λ c. [] }

abbrev s₁ : System memory
s₁ = returned 0 started s₀

abbrev s₂ : System memory
s₂ = returned 0 was_sent s₁

abbrev pub waiting : System memory
waiting = returned 0 (waits [] []) s₂

abbrev pub answered : System memory
answered = sent channel (codes "hi") waiting

abbrev looked : System memory
looked = record answered { pump = step take_names answered.pump }

abbrev handed_over : System memory
handed_over = received_from channel (codes "hi") [] looked

pub reach_waiting : Reaches waiting
unfolding returned handle
reach_waiting =
    after
      (after
        (after
          (begin (record {
            no_connections = λ i. refl;
            no_callbacks = refl;
            at_top = refl;
            no_tasks = refl;
            none_dropped = refl;
            all_there = λ c. refl;
          }))
          (arrives 0 (omega arith) refl starts))
        (happens 0 (request_sent request) (set_same 0 started s₀) tt
          (enabled (request_sent request) started.env refl tt) refl))
      (happens 0 posts (set_same 0 was_sent s₁) tt (enabled posts was_sent.env refl tt)
        posted_runs.0)

waiting_has : waiting.connections 0 ≡ some (waits [] [])
unfolding returned
waiting_has = set_same 0 (waits [] []) s₂

pub reach_answered : Reaches answered
reach_answered = after reach_waiting (sends channel (codes "hi"))

answered_holds : answered.layer channel ≡ codes "hi" ∷ []
unfolding sent returned
answered_holds = if_pos (Bytes-discrete channel channel) refl _ _

reach_handed_over : Reaches handed_over
unfolding step sent returned register set_callback find_callback look thread_step Bytes-discrete
reach_handed_over =
    after (after reach_answered (looks refl))
      (receives (channel ∷ []) channel (codes "hi") [] refl (inl refl) answered_holds)

handed_over_task : handed_over.pump.tasks ≡ (channel, 0, codes "hi") ∷ []
unfolding step sent returned received_from register set_callback find_callback erase_callback look
    thread_step receive dispatch Bytes-discrete ℕ_discrete
handed_over_task = refl

abbrev of_first : Bytes
of_first = channel_of memory memory_lawful counter as_is 9 unpack all_post start_at all_world 2 0

messages_kept_example :
    map some (received_of (handed_over.connections 0))
      ++ map unpack (messages (tasks_of 0 handed_over.pump.tasks) ++ handed_over.layer of_first)
    ≡ map unpack (handed_over.history of_first)
messages_kept_example =
    messages_kept memory memory_lawful counter as_is 9 unpack all_post start_at all_world 2
      two_requests 0 (omega arith) reach_handed_over

abbrev hi : AsgiHttpResponseMsg
hi = record { status = pos 200; headers = []; content = codes "hi"; more_content = false }

task_finds_its_step_example :
    IsCalledBack memory memory_lawful counter as_is 9 unpack all_post start_at all_world 2
      two_requests handed_over 0 channel hi
task_finds_its_step_example =
    task_finds_its_step memory memory_lawful counter as_is 9 unpack all_post start_at all_world 2
      two_requests 0 channel (codes "hi") hi [] [] (omega arith) reach_handed_over handed_over_task
      (omega arith)

none_forgotten_example :
    (channel ≡ of_first)
    × (waiting.pump.dropped ≡ [])
    × (((find_callback channel waiting.pump.callbacks ≡ some 0)
          × (tasks_of 0 waiting.pump.tasks ≡ []))
        ⊎ ((find_callback channel waiting.pump.callbacks ≡ none)
            × (message : Bytes) × (tasks_of 0 waiting.pump.tasks ≡ (channel, message) ∷ [])))
none_forgotten_example =
    none_forgotten memory memory_lawful counter as_is 9 unpack all_post start_at all_world 2
      two_requests 0 channel reach_waiting waiting_has refl

answered_free :
    (answered.pump.thread_stop ≡ false)
    × (answered.pump.phase ≢ exited)
    × (answered.connections 0 ≡ some (waits [] []))
    × (tasks_of 0 answered.pump.tasks ≡ [])
unfolding sent returned register step tasks_of
answered_free = (refl, (λ e. cc), waiting_has, refl)

can_be_delivered_example :
    Ends memory memory_lawful counter as_is 9 unpack all_post start_at all_world 2 two_requests 0
      (waits [] [])
      hi
can_be_delivered_example =
    can_be_delivered memory memory_lawful counter as_is 9 unpack all_post start_at all_world 2
      two_requests 0 channel (codes "hi") [] reach_answered answered_free.0 answered_free.1
      answered_free.2 refl answered_free.3 answered_holds refl (omega arith)
