-- ===== src/Tests/Http.antt =====
-- A request from its first byte to the last of a streamed response, over the server in memory.
use iis_asgi_handler.Prelude.{
  ℕ, ◌≡◌, refl, ◌⊎◌, true, false, List, [], ◌∷◌, ◌++◌, Bytes, codes, none, some, pos, ok, Returns,
  arith, write_at,
}
use iis_asgi_handler.Channels.{generate_random_ascii, new_channel}
use iis_asgi_handler.Messages.{AsgiHttpRequestMsg, AsgiHttpResponseMsg}
use iis_asgi_handler.Request.{
  known_header_name, get_request_http_version, get_request_scheme, get_request_path,
  get_request_query_string, get_request_headers,
}
use iis_asgi_handler.StateMachine.{
  pending, finished, handler_state_machine, handler_on_async_completion,
}
use iis_asgi_handler.Http.{
  send_to_application, wait_for_response, write_response, Waiting, sending, awaiting, posted, Env,
  http_methods, enter, read_body_enter, read_body_loop, read_body_completion, get_next_step,
  send_to_application_enter, wait_for_response_enter, wait_for_response_completion,
  wait_for_response_next, write_response_enter, write_response_completion, write_response_next,
  flush_response_enter, resp_chunk, set_headers, set_status_if, on_async_completion,
}
use iis_asgi_handler.Http.Body.{ReadsTo, read_body_enter-ReadsTo}
use iis_asgi_handler.Http.Called.{Allowed, IsEnabled}
use iis_asgi_handler.Http.Connection.{
  Connection, Event, request_sent, response_received, post_completed, cause, handle, set_response,
  http_on_async_completion, http_start,
}
use iis_asgi_handler.Http.Invariant.{contents, Inv}
use iis_asgi_handler.Http.Lifecycle.{handle-Inv}
use iis_asgi_handler.Http.Reach.{
  asgi_request, Reach, start, next, IsReliable, IsAnswered, Reach-Inv, waits_once,
  sent_at_most_once, written_in_order, finished-IsAnswered,
}
use iis_asgi_handler.Http.Start.{
  http_request_msg, http_on_execute_request_handler, http_on_execute_request_handler-Inv,
}
use iis_asgi_handler.Tests.Host.{Memory, memory, memory_lawful}
use iis_asgi_handler.Tests.Request.{counter, post}

abbrev pub as_is : List ℕ → Bytes
as_is units = units

abbrev pub world : Memory
world = record { entity = codes "ab"; written = []; slow = false }

abbrev pub channel : Bytes
channel = codes "http.request!0123456789"

abbrev pub request : AsgiHttpRequestMsg
request = record {
  reply_channel = channel;
  http_version = codes "1.1";
  method = codes "POST";
  scheme = codes "http";
  path = codes "/p";
  query_string = [];
  root_path = [];
  headers = (codes "ContentType", codes "text/plain") ∷ (codes "X-A", codes "1") ∷ [];
  body = codes "ab";
}

abbrev pub chunk_one : AsgiHttpResponseMsg
chunk_one = record { status = pos 200; headers = []; content = codes "xy"; more_content = true }

abbrev pub chunk_two : AsgiHttpResponseMsg
chunk_two = record { status = pos 0; headers = []; content = codes "z"; more_content = false }

abbrev pub after : Bytes → Memory
after written = record { entity = []; written = written; slow = false }

abbrev pub started : Connection memory
started = record {
  status = pending;
  step = send_to_application request;
  env = record { world = after []; waiting = sending request ∷ [] };
  sent = [];
  received = [];
}

pub starts : http_on_execute_request_handler memory counter as_is 9 post 0 world ≡ ok started
unfolding http_on_execute_request_handler http_start http_request_msg new_channel
    generate_random_ascii get_request_http_version get_request_scheme get_request_path
    get_request_query_string get_request_headers known_header_name handler_state_machine
    http_methods enter read_body_enter read_body_loop read_body_completion write_at get_next_step
    send_to_application_enter
starts = refl

abbrev pub sends : Event memory
sends = request_sent request

abbrev answers : AsgiHttpResponseMsg → Event memory
answers m = response_received channel m

abbrev pub posts : Event memory
posts = post_completed

abbrev pub was_sent : Connection memory
was_sent = record started {
  env = record { world = after []; waiting = posted ∷ [] };
  sent = request ∷ [];
}

abbrev pub waits : Bytes → List AsgiHttpResponseMsg → Connection memory
waits written received = record {
  status = pending;
  step = wait_for_response channel none;
  env = record { world = after written; waiting = awaiting channel ∷ [] };
  sent = request ∷ [];
  received = received;
}

abbrev has : Bytes → List AsgiHttpResponseMsg → AsgiHttpResponseMsg → Connection memory
has written received m = record {
  status = pending;
  step = wait_for_response channel (some m);
  env = record { world = after written; waiting = posted ∷ [] };
  sent = request ∷ [];
  received = received ++ m ∷ [];
}

abbrev answered : Connection memory
answered = record {
  status = finished;
  step = write_response chunk_two channel 0;
  env = record { world = after (codes "xyz"); waiting = [] };
  sent = request ∷ [];
  received = chunk_one ∷ chunk_two ∷ [];
}

abbrev pub Reached : Connection memory → Type 0
Reached = Reach memory memory_lawful counter as_is 9 post 0 world

pub enabled :
    (event : Event memory) (e : Env memory)
    → e.waiting ≡ cause event ∷ []
    → Allowed memory memory_lawful event e.world
    → IsEnabled memory memory_lawful event [] e
enabled event e w a = record { before = []; after = []; waits = w; others = refl; allowed = a }

-- A call of `handle` that runs the loop.
pub posted_runs :
    (handle memory 9 posts [] was_sent ≡ ok (waits [] []))
    × (handle memory 9 posts [] (has [] [] chunk_one) ≡ ok (waits (codes "xy") (chunk_one ∷ [])))
    × (handle memory 9 posts [] (has (codes "xy") (chunk_one ∷ []) chunk_two) ≡ ok answered)
unfolding handle http_on_async_completion handler_on_async_completion handler_state_machine
    http_methods enter get_next_step on_async_completion wait_for_response_enter
    wait_for_response_completion wait_for_response_next write_response_enter
    write_response_completion write_response_next flush_response_enter resp_chunk set_headers
    set_status_if
posted_runs = (refl, refl, refl)

pub reach_started : Reached started
reach_started = start starts

reach_sent : Reached was_sent
unfolding handle
reach_sent = next sends [] reach_started (enabled sends started.env refl tt) refl

pub reach_streaming : Reached (waits (codes "xy") (chunk_one ∷ []))
unfolding handle set_response
reach_streaming =
    next posts []
      (next (answers chunk_one) []
        (next posts [] reach_sent (enabled posts was_sent.env refl tt) posted_runs.0)
        (enabled (answers chunk_one) (waits [] []).env refl (omega arith)) refl)
      (enabled posts (has [] [] chunk_one).env refl tt) posted_runs.1

reach_answered : Reached answered
unfolding handle set_response
reach_answered =
    next posts []
      (next (answers chunk_two) [] reach_streaming
        (enabled (answers chunk_two) (waits (codes "xy") (chunk_one ∷ [])).env refl (omega arith))
        refl)
      (enabled posts (has (codes "xy") (chunk_one ∷ []) chunk_two).env refl tt) posted_runs.2

pub memory_reliable : IsReliable memory
memory_reliable = record { writes = λ chunk w. refl; flushes = λ w. refl }

-- The request that the application is to see.
abbrev pub expected : AsgiHttpRequestMsg
expected = asgi_request memory memory_lawful counter as_is 9 post 0 world

http_on_execute_request_handler-Inv_run :
    Returns
      (Inv memory memory_lawful expected)
      (http_on_execute_request_handler memory counter as_is 9 post 0 world)
http_on_execute_request_handler-Inv_run =
    http_on_execute_request_handler-Inv memory counter as_is 9 memory_lawful post 0 world refl
      (omega arith) (omega arith) (omega arith)

pub was_sent-Inv : Inv memory memory_lawful expected was_sent
was_sent-Inv =
    Reach-Inv memory memory_lawful counter as_is 9 post 0 world refl (omega arith) (omega arith)
      (omega arith) reach_sent

streaming-Inv : Inv memory memory_lawful expected (waits (codes "xy") (chunk_one ∷ []))
streaming-Inv =
    Reach-Inv memory memory_lawful counter as_is 9 post 0 world refl (omega arith) (omega arith)
      (omega arith) reach_streaming

handle-Inv_example :
    Returns
      (Inv memory memory_lawful expected)
      (handle memory 9 (answers chunk_two) [] (waits (codes "xy") (chunk_one ∷ [])))
unfolding http_request_msg
handle-Inv_example =
    handle-Inv memory memory_lawful expected 9 (omega arith) (omega arith) (answers chunk_two) []
      (waits (codes "xy") (chunk_one ∷ [])) streaming-Inv
      (enabled (answers chunk_two) (waits (codes "xy") (chunk_one ∷ [])).env refl (omega arith))

waits_once_example : (x : Waiting) × ((waits (codes "xy") (chunk_one ∷ [])).env.waiting ≡ x ∷ [])
waits_once_example =
    waits_once memory memory_lawful counter as_is 9 post 0 world refl (omega arith) (omega arith)
      (omega arith) reach_streaming

sent_at_most_once_example : (answered.sent ≡ []) ⊎ (answered.sent ≡ expected ∷ [])
sent_at_most_once_example =
    sent_at_most_once memory memory_lawful counter as_is 9 post 0 world refl (omega arith)
      (omega arith) (omega arith) reach_answered

written_in_order_example : (rest : Bytes) × (codes "xy" ++ rest ≡ contents (chunk_one ∷ []))
written_in_order_example =
    written_in_order memory memory_lawful counter as_is 9 post 0 world refl (omega arith)
      (omega arith) (omega arith) reach_streaming refl

finished-IsAnswered_example :
    IsAnswered memory memory_lawful expected answered.sent answered.received answered.env.world
finished-IsAnswered_example =
    finished-IsAnswered memory memory_lawful counter as_is 9 post 0 world refl (omega arith)
      (omega arith) (omega arith) memory_reliable reach_answered refl (λ e. cc)

empty_message : AsgiHttpRequestMsg
empty_message = record request { body = 0 ∷ 0 ∷ [] }

read_body_enter-ReadsTo_example :
    Returns
      (ReadsTo memory memory_lawful
        (codes "ab")
        empty_message
        (record { world = world; waiting = [] }))
      (read_body_enter memory 9 empty_message 0 (record { world = world; waiting = [] }))
unfolding empty_message
read_body_enter-ReadsTo_example =
    read_body_enter-ReadsTo memory memory_lawful 9 (codes "ab") empty_message 0
      (record { world = world; waiting = [] }) (omega arith)
      (record {
        filled = [];
        room = 0 ∷ 0 ∷ [];
        split = refl;
        count = refl;
        fits = refl;
        whole = refl;
        small = omega arith;
      })
