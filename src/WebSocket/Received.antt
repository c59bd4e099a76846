-- ===== src/WebSocket/Received.antt =====
-- What WsReader sends to the application, of messages of one fragment.
use iis_asgi_handler.Prelude.{
  ℕ, zero, suc, ◌+◌, ◌%◌, ◌^◌, ◌≤◌, ◌<◌, ◌≡◌, refl, sym, ap, inl, inr, true, false, Bool-cases,
  List, [], ◌∷◌, ◌++◌, append-nil, append_assoc, Bytes, length, take, drop, replicate, leb,
  write_at-append, take-append_self, length-append, length-take, length-replicate, length-drop, ok,
  Returns, Returns-bind, Returns-mono, arith,
}
use iis_asgi_handler.Iis.{s_ok}
use iis_asgi_handler.WebSocket.{Fragment, WebSocketContext}
use iis_asgi_handler.WebSocket.Reader.{
  Packed, WsReader, buffer_chunk_size, resize, counted, send_to_application, read_async_complete,
  fill, complete_fragment, read_async,
}

-- Nothing of a message is in the buffer.
pub record Fresh (r : WsReader) : Type 0 where
  pub whole_chunk : length r.msg.contents ≡ buffer_chunk_size
  pub no_data : r.msg.data_size ≡ 0

pub length-resize : (n : ℕ) (buffer : Bytes) → length (resize n buffer) ≡ n
length-resize n buffer =
    length-take n (buffer ++ replicate n 0)
      (omega (arith, length-append buffer (replicate n 0), length-replicate n (zero)))

-- The reader after it has sent one message.
pub record SentOne (bytes : Bytes) (r r' : WsReader) : Type 0 where
  pub one_more :
      r'.sent
      ≡ r.sent
        ++ record {
          reply_channel = r.msg.reply_channel;
          path = r.msg.path;
          order = r.msg.order;
          bytes = bytes;
        }
          ∷ []
  pub fresh : Fresh r'
  pub next_order : r'.msg.order ≡ r.msg.order + 1
  pub same_channel : r'.msg.reply_channel ≡ r.msg.reply_channel
  pub same_path : r'.msg.path ≡ r.msg.path

pub fill_start :
    (bytes : Bytes) (r : WsReader)
    → length bytes ≤ length r.msg.contents
    → fill bytes r
      ≡ ok (record r {
        msg = record r.msg { contents = bytes ++ drop (length bytes) r.msg.contents };
      })
unfolding fill
fill_start bytes r h = rw (write_at-append [] r.msg.contents bytes 0 refl h)

pub send-SentOne :
    (bytes : Bytes) (r : WsReader)
    → r.msg.data_size ≤ length r.msg.contents
    → take r.msg.data_size r.msg.contents ≡ bytes
    → Returns (SentOne bytes r) (send_to_application r)
unfolding send_to_application
send-SentOne bytes r h e =
    let fits : leb r.msg.data_size (length r.msg.contents) ≡ true = ground arith in
    rw fits (record {
      one_more =
          ap
            (λ b.
              r.sent
              ++ record {
                reply_channel = r.msg.reply_channel;
                path = r.msg.path;
                order = r.msg.order;
                bytes = b;
              }
                ∷ [])
            e;
      fresh = record {
        whole_chunk = length-resize buffer_chunk_size r.msg.contents;
        no_data = refl;
      };
      next_order = refl;
      same_channel = refl;
      same_path = refl;
    })

-- The reader when a fragment has been read and counted.
abbrev pub arrived : Fragment → WsReader → WsReader
arrived f r =
    counted f.num_bytes f.utf8 (record r {
      msg = record r.msg { contents = f.bytes ++ drop (length f.bytes) r.msg.contents };
    })

pub final_fragment :
    (hr : ℕ) (f : Fragment) (r : WsReader)
    → f.final_fragment ≡ true
    → length f.bytes ≤ length r.msg.contents
    → complete_fragment hr f r ≡ send_to_application (arrived f r)
unfolding complete_fragment read_async_complete
final_fragment hr f r final small = rw (fill_start f.bytes r small, final)

pub length-arrived :
    (f : Fragment) (r : WsReader)
    → length f.bytes ≤ length r.msg.contents
    → length (arrived f r).msg.contents ≡ length r.msg.contents
length-arrived f r small = omega (
  arith,
  length-append f.bytes (drop (length f.bytes) r.msg.contents),
  length-drop (length f.bytes) r.msg.contents,
)

-- A final fragment is sent with what the buffer holds, if the buffer is as long as is counted.
pub complete_fragment-sent :
    (hr : ℕ) (bytes : Bytes) (f : Fragment) (r : WsReader)
    → f.final_fragment ≡ true
    → length f.bytes ≤ length r.msg.contents
    → r.msg.data_size + f.num_bytes ≤ length r.msg.contents
    → take (r.msg.data_size + f.num_bytes) (f.bytes ++ drop (length f.bytes) r.msg.contents) ≡ bytes
    → Returns (SentOne bytes r) (complete_fragment hr f r)
complete_fragment-sent hr bytes f r final small fits e = rw (final_fragment hr f r final small) (
    Returns-mono (SentOne bytes (arrived f r)) (SentOne bytes r) (send_to_application (arrived f r))
      (λ r' s. record {
        one_more = s.one_more;
        fresh = s.fresh;
        next_order = s.next_order;
        same_channel = s.same_channel;
        same_path = s.same_path;
      })
      (send-SentOne bytes (arrived f r) (omega (arith, fits, length-arrived f r small)) e))

complete_fragment-SentOne :
    (hr : ℕ) (f : Fragment) (r : WsReader)
    → Fresh r
    → f.final_fragment ≡ true
    → f.num_bytes ≡ length f.bytes
    → length f.bytes ≤ buffer_chunk_size
    → Returns (SentOne f.bytes r) (complete_fragment hr f r)
complete_fragment-SentOne hr f r fresh final count small =
    complete_fragment-sent hr f.bytes f r final (omega (arith, fresh.whole_chunk))
      (omega (arith, fresh.whole_chunk, fresh.no_data))
      (take-append_self f.bytes (drop (length f.bytes) r.msg.contents)
        (r.msg.data_size + f.num_bytes) (omega (arith, fresh.no_data)))

-- What the module has for the reader: the messages that reads complete with at once, of one fragment
-- each that fits into the buffer, before a read is pending; and how many reads are pending.
pub record Unfragmented (ws : WebSocketContext) : Type 0 where
  pub incoming : ws.World → List Bytes
  pub reads_pending : ws.World → ℕ
  pub read_pending :
      (size : ℕ) (w : ws.World)
      → (ws.read_fragment size w).0.completion_expected ≡ true
      → (incoming w ≡ [])
        × (incoming (ws.read_fragment size w).1 ≡ [])
        × (reads_pending (ws.read_fragment size w).1 ≡ reads_pending w + 1)
  pub read_message :
      (size : ℕ) (w : ws.World)
      → (ws.read_fragment size w).0.completion_expected ≡ false
      → (incoming w ≡ (ws.read_fragment size w).0.bytes ∷ incoming (ws.read_fragment size w).1)
        × (reads_pending (ws.read_fragment size w).1 ≡ reads_pending w)
        × ((ws.read_fragment size w).0.final_fragment ≡ true)
        × ((ws.read_fragment size w).0.num_bytes ≡ length (ws.read_fragment size w).0.bytes)
        × (length (ws.read_fragment size w).0.bytes ≤ buffer_chunk_size)

-- The messages with these contents, numbered from an order on.
abbrev pub numbered : (reply_channel path : Bytes) → ℕ → List Bytes → List Packed
numbered reply_channel path n [] = []
numbered reply_channel path n (m ∷ ms) =
    record { reply_channel = reply_channel; path = path; order = n; bytes = m }
    ∷ numbered reply_channel path (n + 1) ms

module _ (ws : WebSocketContext) (law : Unfragmented ws) where
  open law use {incoming, reads_pending}

  -- All incoming messages were sent, and one read more is pending.
  pub record Delivered (r : WsReader) (w : ws.World) (r' : WsReader) (w' : ws.World) : Type 0 where
    pub all_sent :
        r'.sent ≡ r.sent ++ numbered r.msg.reply_channel r.msg.path r.msg.order (incoming w)
    pub none_left : incoming w' ≡ []
    pub waits : reads_pending w' ≡ reads_pending w + 1
    pub fresh : Fresh r'
    pub order : r'.msg.order ≡ r.msg.order + length (incoming w)

  Delivered-more :
      (m : Bytes) (r r₁ r' : WsReader) (w w₁ w' : ws.World)
      → incoming w ≡ m ∷ incoming w₁
      → reads_pending w₁ ≡ reads_pending w
      → SentOne m r r₁
      → Delivered r₁ w₁ r' w'
      → Delivered r w r' w'
  Delivered-more m r r₁ r' w w₁ w' e same s d = record {
    all_sent = rw e (
        simp (d.all_sent, s.one_more, s.same_channel, s.same_path, s.next_order)
          (append_assoc r.sent
            (record {
              reply_channel = r.msg.reply_channel;
              path = r.msg.path;
              order = r.msg.order;
              bytes = m;
            }
              ∷ [])
            (numbered r.msg.reply_channel r.msg.path (r.msg.order + 1) (incoming w₁))));
    none_left = d.none_left;
    waits = omega (arith, d.waits, same);
    fresh = d.fresh;
    order = omega (arith, d.order, s.next_order, ap length e);
  }

  pub read_async_delivers :
      (fuel : ℕ) (r : WsReader) (w : ws.World)
      → Fresh r
      → length (incoming w) < fuel
      → Returns (λ (r', w'). Delivered r w r' w') (read_async ws fuel r w)
  unfolding read_async
  read_async_delivers zero r w fresh h = absurd (omega arith)
  read_async_delivers (suc fuel) r w fresh h =
      elim (Bool-cases
        (ws.read_fragment (length r.msg.contents % 2 ^ 32) w).0.completion_expected) [
          | inl c ↦
              let (empty, still, one_more) =
                law.read_pending (length r.msg.contents % 2 ^ 32) w c in
              simp c (record {
                all_sent = rw empty (sym (append-nil r.sent));
                none_left = still;
                waits = one_more;
                fresh = fresh;
                order = omega (arith, ap length empty);
              })
          | inr c ↦
              let f = (ws.read_fragment (length r.msg.contents % 2 ^ 32) w).0 in
              let w₁ = (ws.read_fragment (length r.msg.contents % 2 ^ 32) w).1 in
              let (e, same, final, count, small) =
                law.read_message (length r.msg.contents % 2 ^ 32) w c in
              simp c (
                Returns-bind _ _ (complete_fragment s_ok f r) _
                  (complete_fragment-SentOne s_ok f r fresh final count small)
                  λ r₁ s.
                    Returns-mono _ _ (read_async ws fuel r₁ w₁)
                      (λ (r', w') d. Delivered-more f.bytes r r₁ r' w w₁ w' e same s d)
                      (read_async_delivers fuel r₁ w₁ s.fresh (omega (arith, ap length e, h))))
        ]

  -- Read from a fresh buffer, all messages of one fragment that the module has are sent whole, once
  -- each, in their order and with orders that count on, none is left, and one read more is pending
  -- then. More rounds than there are messages are enough, and the orders, which are ints, stay below
  -- 2 ^ 31.
  pub read_async-Delivered :
      (fuel : ℕ) (r : WsReader) (w : ws.World)
      → Fresh r
      → length (incoming w) < fuel
      → r.msg.order + length (incoming w) < 2 ^ 31
      → Returns (λ (r', w'). Delivered r w r' w') (read_async ws fuel r w)
  read_async-Delivered fuel r w fresh enough in_range = read_async_delivers fuel r w fresh enough
