-- ===== src/Http/Body.antt =====
-- ReadBodyStep of AsgiHandlerLib/HttpRequestHandlerSteps.cpp: its loop, its buffer and the body.
use iis_asgi_handler.Prelude.{
  ℕ, zero, suc, ◌+◌, ◌<◌, ◌^◌, ◌≡◌, refl, sym, ap, ◌∙◌, inl, inr, true, false, [], ◌∷◌, ◌++◌,
  append_assoc, some, Bytes, length, drop, write_at, write_at-append, length-append, length-zero,
  length-drop, ◌==◌, arith, Bool-cases, Returns, Returns-mono,
}
use iis_asgi_handler.Iis.{Iis, Lawful, failed, s_ok}
use iis_asgi_handler.Messages.{AsgiHttpRequestMsg}
use iis_asgi_handler.StateMachine.{StepResult, async_pending, rerun, goto_next, finish_request}
use iis_asgi_handler.Http.{
  HttpStep, read_body, reading, Env, u32, await, read_body_completion, read_body_loop,
  read_body_enter,
}

module _ (iis : Iis) (law : Lawful iis) where
  open law use {entity, written}

  -- `n` bytes of `body` are filled, there is room for what is left, and together they make `all`.
  pub record Reading (all body : Bytes) (n : ℕ) (w : iis.World) : Type 0 where
    pub filled : Bytes
    pub room : Bytes
    pub split : body ≡ filled ++ room
    pub count : length filled ≡ n
    pub fits : length room ≡ length (entity w)
    pub whole : filled ++ entity w ≡ all
    pub small : length all < 2 ^ 32

  -- Bytes that leave the entity fit into the buffer, behind what is there.
  pub write_at-Reading :
      (all body bytes : Bytes) (n : ℕ) (w w' : iis.World)
      → Reading all body n w
      → entity w ≡ bytes ++ entity w'
      → (body' : Bytes) × (write_at body n bytes ≡ some body')
        × Reading all body' (u32 (n + length bytes)) w'
  write_at-Reading all body bytes n w w' r e = (
    (filled ++ bytes) ++ drop (length bytes) room,
    rw split (write_at-append filled room bytes n count (omega (arith, fits, sizes))),
    record {
      filled = filled ++ bytes;
      room = drop (length bytes) room;
      split = refl;
      count = omega (arith, length-append filled bytes, total, sizes);
      fits = omega (arith, length-drop (length bytes) room, sizes);
      whole = append_assoc filled bytes (entity w') ∙ ap (◌++◌ filled) (sym e) ∙ whole;
      small = small;
    },
  )
    where
      open r use {filled, room, split, count, fits, whole, small}

      sizes : length (entity w) ≡ length bytes + length (entity w')
      sizes = ap length e ∙ length-append bytes (entity w')

      total : length all ≡ length filled + length (entity w)
      total = ap length (sym whole) ∙ length-append filled (entity w)

  -- Nothing else has happened between two points of a step.
  pub record Quiet (e e' : Env iis) : Type 0 where
    pub same_waiting : e'.waiting ≡ e.waiting
    pub same_written : written e'.world ≡ written e.world

  -- How a run of the step may end.
  abbrev pub ReadsTo :
      Bytes → AsgiHttpRequestMsg → Env iis → StepResult × HttpStep × Env iis → Type 0
  ReadsTo all msg e (goto_next, s, e') =
      (n : ℕ) × (s ≡ read_body (record msg { body = all }) n) × Quiet e e'
  ReadsTo all msg e (async_pending, s, e') =
      (body : Bytes) × (n : ℕ) × (s ≡ read_body (record msg { body = body }) n)
      × Reading all body n e'.world
      × Quiet (await iis reading e) e'
  ReadsTo all msg e (finish_request, s, e') =
      (body : Bytes) × (n : ℕ) × (s ≡ read_body (record msg { body = body }) n) × Quiet e e'
  ReadsTo all msg e (rerun, s, e') = ⊥

  -- With nothing left in the entity the buffer is the whole of it.
  pub Reading-done :
      (all body : Bytes) (n : ℕ) (w : iis.World)
      → Reading all body n w
      → length (entity w) ≡ 0
      → body ≡ all
  Reading-done all body n w r h = split ∙ (ap (◌++◌ filled) (empty_room ∙ sym empty_entity) ∙ whole)
    where
      open r use {filled, room, split, fits, whole}

      empty_entity : entity w ≡ []
      empty_entity = length-zero (entity w) h

      empty_room : room ≡ []
      empty_room = length-zero room (omega (arith, fits, h))

  Quiet-trans : {e e' e'' : Env iis} → Quiet e e' → Quiet e' e'' → Quiet e e''
  Quiet-trans p q = record {
    same_waiting = q.same_waiting ∙ p.same_waiting;
    same_written = q.same_written ∙ p.same_written;
  }

  ReadsTo-later :
      (all body : Bytes) (msg : AsgiHttpRequestMsg) (e e' : Env iis)
      (out : StepResult × HttpStep × Env iis)
      → Quiet e e'
      → ReadsTo all (record msg { body = body }) e' out
      → ReadsTo all msg e out
  ReadsTo-later all body msg e e' (goto_next, s, e'') q (n, eq, q') = (n, eq, Quiet-trans q q')
  ReadsTo-later all body msg e e' (async_pending, s, e'') q (b, n, eq, r, q') = (
    b,
    n,
    eq,
    r,
    record {
      same_waiting = q'.same_waiting ∙ ap (◌∷◌ reading) q.same_waiting;
      same_written = q'.same_written ∙ q.same_written;
    },
  )
  ReadsTo-later all body msg e e' (finish_request, s, e'') q (b, n, eq, q') =
      (b, n, eq, Quiet-trans q q')
  ReadsTo-later all body msg e e' (rerun, s, e'') q h = h

  complete_all :
      (k n : ℕ) (w : iis.World)
      → (iis.remaining_entity_bytes w == 0) ≡ true
      → read_body_completion iis s_ok k n w ≡ (goto_next, u32 (n + k))
  unfolding read_body_completion
  complete_all k n w h = rw h

  complete_more :
      (k n : ℕ) (w : iis.World)
      → (iis.remaining_entity_bytes w == 0) ≡ false
      → read_body_completion iis s_ok k n w ≡ (rerun, u32 (n + k))
  unfolding read_body_completion
  complete_more k n w h = rw h

  Reading-same :
      {all body : Bytes} {n : ℕ} {w w' : iis.World}
      → entity w' ≡ entity w
      → Reading all body n w
      → Reading all body n w'
  Reading-same e r = record {
    filled = r.filled;
    room = r.room;
    split = r.split;
    count = r.count;
    fits = r.fits ∙ sym (ap length e);
    whole = ap (◌++◌ r.filled) e ∙ r.whole;
    small = r.small;
  }

  read_body_loop-ReadsTo :
      (fuel : ℕ) (all : Bytes) (msg : AsgiHttpRequestMsg) (remaining n : ℕ) (e : Env iis)
      → remaining ≡ length (entity e.world)
      → remaining < fuel
      → 0 < remaining
      → Reading all msg.body n e.world
      → Returns (ReadsTo all msg e) (read_body_loop iis fuel remaining msg n e)
  unfolding read_body_loop
  read_body_loop-ReadsTo zero all msg remaining n e rem h more r = absurd (omega arith)
  read_body_loop-ReadsTo (suc fuel) all msg remaining n e rem h more r =
      elim (Bool-cases (failed (iis.read_entity_body remaining e.world).0.hr)) [
        | inl f ↦ rw f (msg.body, n, refl, quiet)
        | inr f ↦ elim (Bool-cases (iis.read_entity_body remaining e.world).0.completion_expected) [
          | inl c ↦
              rw (f, c)
                (msg.body, n, refl, Reading-same (law.read_pending remaining e.world c) r, waits)
          | inr c ↦
              let (some_bytes, fit, left) = law.read_some remaining e.world more f c in
              let (body, writes, r') = write_at-Reading all msg.body got n e.world w r left in
              let fewer = ap length left ∙ length-append got (entity w) in
              rw (f, c, writes)
                (elim (Bool-cases (iis.remaining_entity_bytes w == 0)) [
                  | inl none_left ↦
                      simp (complete_all (length got) n w none_left)
                        (_, done body r' (zero_left none_left), quiet)
                  | inr some_left ↦ simp (complete_more (length got) n w some_left) (
                      Returns-mono _ _ _ (λ out. ReadsTo-later all body msg e e' out quiet)
                        (read_body_loop-ReadsTo fuel all (record msg { body = body })
                          (iis.remaining_entity_bytes w) (u32 (n + length got)) e' (law.remaining w)
                          (omega (arith, law.remaining w)) (ground arith) r'))
                ])
        ]
      ]
    where
      w : iis.World
      w = (iis.read_entity_body remaining e.world).1

      got : Bytes
      got = (iis.read_entity_body remaining e.world).0.bytes

      e' : Env iis
      e' = record e { world = w }

      quiet : Quiet e e'
      quiet = record { same_waiting = refl; same_written = law.written-read remaining e.world }

      waits : Quiet (await iis reading e) (await iis reading e')
      waits = record { same_waiting = refl; same_written = law.written-read remaining e.world }

      zero_left : (iis.remaining_entity_bytes w == 0) ≡ true → length (entity w) ≡ 0
      zero_left z = ground (arith, law.remaining w)

      done :
          (body : Bytes)
          → Reading all body (u32 (n + length got)) w
          → length (entity w) ≡ 0
          → read_body (record msg { body = body }) (u32 (n + length got))
            ≡ read_body (record msg { body = all }) (u32 (n + length got))
      done body r' z =
          ap (λ b. read_body (record msg { body = b }) (u32 (n + length got)))
            (Reading-done all body (u32 (n + length got)) w r' z)

  -- ReadBodyStep::Enter() returns, never leaves the buffer, and goes to the next step only with the
  -- whole body of the request in the message. Fuel above the number of bytes left is enough.
  pub read_body_enter-ReadsTo :
      (fuel : ℕ) (all : Bytes) (msg : AsgiHttpRequestMsg) (n : ℕ) (e : Env iis)
      → length (entity e.world) < fuel
      → Reading all msg.body n e.world
      → Returns (ReadsTo all msg e) (read_body_enter iis fuel msg n e)
  unfolding read_body_enter
  read_body_enter-ReadsTo fuel all msg n e h r =
      elim (Bool-cases (iis.remaining_entity_bytes e.world == 0)) [
        | inl z ↦ rw z (
          n,
          ap (λ b. read_body (record msg { body = b }) n)
              (Reading-done all msg.body n e.world r (ground (arith, law.remaining e.world))),
          record { same_waiting = refl; same_written = refl },
        )
        | inr m ↦ rw m (
            read_body_loop-ReadsTo fuel all msg (iis.remaining_entity_bytes e.world) n e
              (law.remaining e.world) (omega (arith, law.remaining e.world)) (ground arith) r)
      ]
