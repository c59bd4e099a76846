-- ===== src/WebSocket/Written.antt =====
-- What WsWriter writes to the WebSocket.
use iis_asgi_handler.Prelude.{
  ℕ, zero, suc, ◌+◌, ◌-◌, ◌%◌, ◌^◌, ◌≤◌, ◌<◌, ◌≡◌, refl, ap, ap₂, ◌∙◌, inl, inr, true, false,
  Bool-cases, [], ◌∷◌, ◌++◌, ◌⊎◌, none, some, Bytes, length, take, leb, length-take, ok, Returns,
  Returns-bind, Returns-mono, arith,
}
use iis_asgi_handler.Iis.{Call, s_ok}
use iis_asgi_handler.Messages.{AsgiWsSendMsg}
use iis_asgi_handler.WebSocket.{WebSocketContext}
use iis_asgi_handler.WebSocket.Writer.{
  WsWriter, register_channels_callback, write_async_complete, write_chunk, write_async,
  send_message, write_callback,
}

-- What the module does with the bytes of a call: of those that it reports as written, it has taken
-- the first ones. A call that completes later has taken all.
pub record Taking (ws : WebSocketContext) : Type 0 where
  pub written : ws.World → Bytes
  pub takes :
      (bytes : Bytes) (w : ws.World)
      → (ws.write_fragment bytes w).0.completion_expected ≡ false
      → written (ws.write_fragment bytes w).1
        ≡ written w ++ take (ws.write_fragment bytes w).0.num_bytes bytes
  pub takes_all :
      (bytes : Bytes) (w : ws.World)
      → (ws.write_fragment bytes w).0.completion_expected ≡ true
      → written (ws.write_fragment bytes w).1 ≡ written w ++ bytes

-- Between two messages, with the channel added for the next.
abbrev pub Waits : WsWriter → WsWriter → Type 0
Waits s s' =
    (s'.asgi_send_msg ≡ none)
    × (s'.bytes_written ≡ 0)
    × (s'.reply_channel ≡ s.reply_channel)
    × (s'.added ≡ s.added ++ s.reply_channel ∷ [])

-- A completion of all that is left ends the message.
pub completes-Waits :
    (hr num_bytes : ℕ) (msg : AsgiWsSendMsg) (s : WsWriter)
    → length msg.bytes ≤ s.bytes_written + num_bytes
    → Returns
        (λ (more, s'). (more ≡ false) × Waits s s')
        (write_async_complete hr num_bytes (some msg) s)
unfolding write_async_complete register_channels_callback
completes-Waits hr num_bytes msg s h =
    let e : leb (length msg.bytes) (s.bytes_written + num_bytes) ≡ true = ground arith in
    rw e (refl, (refl, refl, refl, refl))

take_all : (xs : Bytes) (n : ℕ) → length xs ≤ n → take n xs ≡ xs
take_all [] zero h = refl
take_all [] (suc n) h = refl
take_all (x ∷ xs) zero h = absurd (omega arith)
take_all (x ∷ xs) (suc n) h = ap (◌∷◌ x) (take_all xs n (omega arith))

whole_chunk : (msg : AsgiWsSendMsg) → length msg.bytes < 2 ^ 32 → write_chunk msg 0 ≡ msg.bytes
unfolding write_chunk
whole_chunk msg h = take_all msg.bytes ((length msg.bytes - 0) % 2 ^ 32) (omega arith)

chunk_left :
    (msg : AsgiWsSendMsg) (written : ℕ)
    → length msg.bytes < 2 ^ 32
    → write_chunk msg written ≡ take (length msg.bytes - written) msg.bytes
unfolding write_chunk
chunk_left msg written h = ap (λ n. take n msg.bytes) (omega arith)

completes_more :
    (hr num_bytes : ℕ) (msg : AsgiWsSendMsg) (s : WsWriter)
    → s.bytes_written + num_bytes < length msg.bytes
    → write_async_complete hr num_bytes (some msg) s
      ≡ ok (true, record s { bytes_written = s.bytes_written + num_bytes })
unfolding write_async_complete
completes_more hr num_bytes msg s h =
    let e : leb (length msg.bytes) (s.bytes_written + num_bytes) ≡ false = ground arith in rw e

module _ (ws : WebSocketContext) (law : Taking ws) where
  open law use {written, takes, takes_all}

  -- The call of such a message completes later and the writer has begun it, or at once and ends it.
  pub send_message_begins :
      (fuel : ℕ) (msg : AsgiWsSendMsg) (s : WsWriter) (w : ws.World)
      → s.bytes_written ≡ 0
      → length msg.bytes < 2 ^ 32
      → ((ws.write_fragment msg.bytes w).0.completion_expected ≡ false
          → (ws.write_fragment msg.bytes w).0.num_bytes ≡ length msg.bytes)
      → Returns
          (λ (s', w').
            (written w' ≡ written w ++ msg.bytes)
            × (Waits s s' ⊎ (s' ≡ record s { asgi_send_msg = some msg })))
          (send_message ws (suc fuel) msg s w)
  unfolding send_message write_async
  send_message_begins fuel msg s w idle small all =
      elim (Bool-cases (ws.write_fragment msg.bytes w).0.completion_expected) [
        | inl c ↦ simp (chunk, c) (takes_all msg.bytes w c, inr refl)
        | inr c ↦
            simp (chunk, c)
              (Returns-bind _ _
                (write_async_complete s_ok (ws.write_fragment msg.bytes w).0.num_bytes (some msg)
                  begun)
                _
                (completes-Waits s_ok (ws.write_fragment msg.bytes w).0.num_bytes msg begun
                  (omega (arith, all c)))
                λ (more, s') (e, waits). rw e (
                  takes msg.bytes w c
                      ∙ ap (λ b. written w ++ b) (take_all msg.bytes _ (omega (arith, all c))),
                  inl waits,
                ))
      ]
    where
      begun : WsWriter
      begun = record s { asgi_send_msg = some msg }

      chunk : write_chunk msg s.bytes_written ≡ msg.bytes
      chunk = ap (write_chunk msg) idle ∙ whole_chunk msg small

  -- The completion of all its bytes ends a message that was begun.
  pub write_callback_ends :
      (fuel hr : ℕ) (msg : AsgiWsSendMsg) (s s' : WsWriter) (w : ws.World)
      → s'.asgi_send_msg ≡ some msg
      → (s'.reply_channel ≡ s.reply_channel) × (s'.added ≡ s.added)
      → Returns
          (λ (s'', w''). Waits s s'' × (w'' ≡ w))
          (write_callback ws fuel hr (length msg.bytes) s' w)
  unfolding write_callback
  write_callback_ends fuel hr msg s s' w e (channel, added) = simp e (
      Returns-bind _ _ (write_async_complete hr (length msg.bytes) (some msg) s') _
        (completes-Waits hr (length msg.bytes) msg s' (omega arith))
        λ (more, s'') (done, waits).
          let (gone, start, same, more_added) = waits in
          rw done ((gone, start, same ∙ channel, simp (more_added, added, channel) refl), refl))

  -- From an idle writer, a message of less than 4 GB that the module takes in one call is written
  -- once and as it is. If the call completes at once the writer waits for the next message; if not,
  -- it does so when the completion of all its bytes comes.
  pub send_message-Waits :
      (fuel fuel' hr : ℕ) (msg : AsgiWsSendMsg) (s : WsWriter) (w : ws.World)
      → s.bytes_written ≡ 0
      → length msg.bytes < 2 ^ 32
      → ((ws.write_fragment msg.bytes w).0.completion_expected ≡ false
          → (ws.write_fragment msg.bytes w).0.num_bytes ≡ length msg.bytes)
      → Returns
          (λ (s', w').
            (written w' ≡ written w ++ msg.bytes)
            × (Waits s s'
                ⊎ Returns
                    (λ (s'', w''). Waits s s'' × (w'' ≡ w'))
                    (write_callback ws fuel' hr (length msg.bytes) s' w')))
          (send_message ws (suc fuel) msg s w)
  send_message-Waits fuel fuel' hr msg s w idle small all =
      Returns-mono _ _ (send_message ws (suc fuel) msg s w)
        (λ (s', w') (out, turn). (
          out,
          elim turn [
            | inl waits ↦ inl waits
            | inr e ↦ inr (
                write_callback_ends fuel' hr msg s s' w' (ap (λ x. x.asgi_send_msg) e)
                  (ap (λ x. x.reply_channel) e, ap (λ x. x.added) e))
          ],
        ))
        (send_message_begins fuel msg s w idle small all)

  -- From an idle writer, a message of less than 4 GB that the module takes in two calls, both of
  -- which complete at once: the second call is given
  -- the message's start again, so its first bytes are written twice and its last ones never.
  pub second_call_repeats :
      (fuel : ℕ) (msg : AsgiWsSendMsg) (s : WsWriter) (w : ws.World)
      → let (r, w₁) = ws.write_fragment msg.bytes w in
        let rest = take (length msg.bytes - r.num_bytes) msg.bytes in
        let (r', w₂) = ws.write_fragment rest w₁ in
        s.bytes_written ≡ 0
        → length msg.bytes < 2 ^ 32
        → r.completion_expected ≡ false
        → r'.completion_expected ≡ false
        → r.num_bytes < length msg.bytes
        → r.num_bytes + r'.num_bytes ≡ length msg.bytes
        → Returns
            (λ (s', w').
              (written w' ≡ written w ++ take r.num_bytes msg.bytes ++ rest) × Waits s s')
            (send_message ws (suc (suc fuel)) msg s w)
  unfolding send_message write_async
  second_call_repeats fuel msg s w idle small now now' part sum =
      simp
        (
          chunk,
          now,
          completes_more s_ok first.num_bytes msg begun (omega (arith, part, idle)),
          chunk',
          now',
        )
        (Returns-bind _ _ (write_async_complete s_ok second.num_bytes (some msg) half) _
          (completes-Waits s_ok second.num_bytes msg half (omega (arith, sum)))
          λ (more, s') (e, waits). rw e (
            takes rest w₁ now'
                ∙ ap₂ (λ b c. b ++ c) (takes msg.bytes w now)
                    (take_all rest second.num_bytes (
                      omega (
                        arith,
                        sum,
                        length-take (length msg.bytes - first.num_bytes) msg.bytes (omega arith),
                      ))),
            waits,
          ))
    where
      first : Call
      first = (ws.write_fragment msg.bytes w).0

      w₁ : ws.World
      w₁ = (ws.write_fragment msg.bytes w).1

      rest : Bytes
      rest = take (length msg.bytes - first.num_bytes) msg.bytes

      second : Call
      second = (ws.write_fragment rest w₁).0

      begun : WsWriter
      begun = record s { asgi_send_msg = some msg }

      half : WsWriter
      half = record begun { bytes_written = s.bytes_written + first.num_bytes }

      chunk : write_chunk msg s.bytes_written ≡ msg.bytes
      chunk = ap (write_chunk msg) idle ∙ whole_chunk msg small

      chunk' : write_chunk msg (s.bytes_written + first.num_bytes) ≡ rest
      chunk' =
          chunk_left msg (s.bytes_written + first.num_bytes) small
          ∙ ap (λ n. take n msg.bytes) (omega (arith, idle))
