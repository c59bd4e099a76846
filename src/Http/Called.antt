-- ===== src/Http/Called.antt =====
-- What may call a connection back, and which step it then finds.
use iis_asgi_handler.Prelude.{
  ◌<◌, ◌^◌, ◌≡◌, refl, sym, ap, subst, ◌∙◌, ◌⊎◌, inl, inr, true, false, List, [], ◌∷◌, ◌++◌, none,
  some, length,
}
use iis_asgi_handler.Iis.{Iis, Lawful, failed}
use iis_asgi_handler.Messages.{AsgiHttpRequestMsg, AsgiHttpResponseMsg}
use iis_asgi_handler.StateMachine.{Notification, pending, finished}
use iis_asgi_handler.Http.{
  HttpStep, read_body, send_to_application, wait_for_response, write_response, flush_response, Env,
  Waiting, reading, writing, flushing, posted, sending, awaiting,
}
use iis_asgi_handler.Http.Connection.{
  Event, read_completed, write_completed, flush_completed, request_sent, response_received,
  post_completed, cause,
}
use iis_asgi_handler.Http.Invariant.{Live, Post}

-- What the server, the channel layer and the thread pool may do in an event.
abbrev pub Allowed : (iis : Iis) → Lawful iis → Event iis → iis.World → Type 0
Allowed iis law (read_completed hr bytes w) w₀ =
    (law.written w ≡ law.written w₀)
    × (((failed hr ≡ true) × (bytes ≡ []))
        ⊎ ((failed hr ≡ false) × (law.entity w₀ ≡ bytes ++ law.entity w)))
Allowed iis law (write_completed hr num_bytes w) w₀ = law.written w ≡ law.written w₀
Allowed iis law (flush_completed hr num_bytes w) w₀ = law.written w ≡ law.written w₀
Allowed iis law (request_sent msg) w₀ = Unit {0}
Allowed iis law (response_received channel msg) w₀ = length msg.content < 2 ^ 32
Allowed iis law post_completed w₀ = Unit {0}

-- The event's cause is waiting, and `rest` is what waits besides it.
pub record IsEnabled (iis : Iis) (law : Lawful iis) (event : Event iis) (rest : List Waiting)
    (e : Env iis) : Type 0 where
  pub before : List Waiting
  pub after : List Waiting
  pub waits : e.waiting ≡ before ++ cause event ∷ after
  pub others : rest ≡ before ++ after
  pub allowed : Allowed iis law event e.world

-- The steps that a cause can call back.
abbrev pub Fits : Waiting → HttpStep → Type 0
Fits reading (read_body msg n) = Unit {0}
Fits (sending msg) (send_to_application msg') = msg ≡ msg'
Fits posted (send_to_application msg) = Unit {0}
Fits (awaiting channel) (wait_for_response channel' none) = Unit {0}
Fits posted (wait_for_response channel (some m)) = Unit {0}
Fits writing (write_response m channel n) = Unit {0}
Fits flushing (flush_response channel) = Unit {0}
Fits _ _ = ⊥

pub alone :
    {x y : Waiting} (l before after : List Waiting)
    → l ≡ x ∷ []
    → l ≡ before ++ y ∷ after
    → (x ≡ y) × (before ++ after ≡ [])
alone l [] after p q = (cc, cc)
alone l (b ∷ []) after p q = (cc, cc)
alone l (b ∷ c ∷ before) after p q = (cc, cc)

-- The cause `y` of an event is what waits, and calls back the step `s`.
abbrev pub Calls : Waiting → HttpStep → List Waiting → List Waiting → List Waiting → Type 0
Calls y s l before after = Fits y s × (l ≡ y ∷ []) × (before ++ after ≡ [])

calls :
    (s : HttpStep) (x : Waiting) {y : Waiting} (l before after : List Waiting)
    → Fits x s
    → l ≡ x ∷ []
    → l ≡ before ++ y ∷ after
    → Calls y s l before after
calls s x l before after f p q =
    let (same, rest) = alone l before after p q in
    (subst (λ w. Fits w s) same f, p ∙ ap (λ w. w ∷ []) same, rest)

module _ (iis : Iis) (law : Lawful iis) (req : AsgiHttpRequestMsg) (sent : List AsgiHttpRequestMsg)
    (received : List AsgiHttpResponseMsg) where
  open law use {entity, written}

  -- What waits in a live connection is one thing, and it calls back a step that expects it.
  pub Live-Calls :
      (s : HttpStep) (e : Env iis) (x : Waiting) (before after : List Waiting)
      → Live iis law req sent received s e
      → e.waiting ≡ before ++ x ∷ after
      → Calls x s e.waiting before after
  Live-Calls (read_body msg n) e x before after (w, i) p =
      calls (read_body msg n) reading e.waiting before after tt w p
  Live-Calls (send_to_application msg) e x before after (same, _, _, inl (w, _)) p =
      calls (send_to_application msg) (sending req) e.waiting before after (sym same) w p
  Live-Calls (send_to_application msg) e x before after (_, _, _, inr (w, _)) p =
      calls (send_to_application msg) posted e.waiting before after tt w p
  Live-Calls (wait_for_response channel none) e x before after (w, _, _) p =
      calls (wait_for_response channel none) (awaiting channel) e.waiting before after tt w p
  Live-Calls (wait_for_response channel (some m)) e x before after (w, _) p =
      calls (wait_for_response channel (some m)) posted e.waiting before after tt w p
  Live-Calls (write_response m channel n) e x before after (w, _, _) p =
      calls (write_response m channel n) writing e.waiting before after tt w p
  Live-Calls (flush_response channel) e x before after (w, _, _) p =
      calls (flush_response channel) flushing e.waiting before after tt w p

-- A connection of which something waits is live.
pub Post-Live :
    (iis : Iis) (law : Lawful iis) (req : AsgiHttpRequestMsg) (sent : List AsgiHttpRequestMsg)
    (received : List AsgiHttpResponseMsg) (status : Notification) (s : HttpStep) (e : Env iis)
    (x : Waiting) (before after : List Waiting)
    → Post iis law req sent received status s e
    → e.waiting ≡ before ++ x ∷ after
    → (status ≡ pending) × Live iis law req sent received s e
Post-Live iis law req sent received pending s e x before after l p = (refl, l)
Post-Live iis law req sent received finished s e x [] after (w, _) p = absurd (cc)
Post-Live iis law req sent received finished s e x (b ∷ before) after (w, _) p = absurd (cc)
