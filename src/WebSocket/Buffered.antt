-- ===== src/WebSocket/Buffered.antt =====
-- The buffer of WsReader over messages of any number of fragments.
use iis_asgi_handler.Prelude.{
  ℕ, ◌+◌, ◌-◌, ◌%◌, ◌≤◌, ◌<◌, ◌≡◌, refl, inl, inr, true, false, Bool-cases, Bytes, length, take,
  leb, length-take, Returns, Returns-mono, arith,
}
use iis_asgi_handler.WebSocket.{Fragment}
use iis_asgi_handler.WebSocket.Reader.{
  WsReader, buffer_chunk_size, buffer_chunk_increase_threshold, grown, read_async_complete,
  complete_fragment,
}
use iis_asgi_handler.WebSocket.Received.{
  Fresh, SentOne, fill_start, arrived, length-arrived, length-resize, complete_fragment-sent,
}

-- Whole chunks, of which more than the threshold is free.
pub record Roomy (r : WsReader) : Type 0 where
  pub whole_chunks : length r.msg.contents % buffer_chunk_size ≡ 0
  pub room : r.msg.data_size + buffer_chunk_increase_threshold < length r.msg.contents

pub Fresh-Roomy : (r : WsReader) → Fresh r → Roomy r
Fresh-Roomy r fresh = record {
  whole_chunks = omega (arith, fresh.whole_chunk);
  room = omega (arith, fresh.whole_chunk, fresh.no_data);
}

-- The reader after a fragment that others of its message follow.
pub record Counted (f : Fragment) (r r' : WsReader) : Type 0 where
  pub roomy : Roomy r'
  pub data_size : r'.msg.data_size ≡ r.msg.data_size + f.num_bytes
  pub sent : r'.sent ≡ r.sent
  pub order : r'.msg.order ≡ r.msg.order
  pub same_channel : r'.msg.reply_channel ≡ r.msg.reply_channel
  pub same_path : r'.msg.path ≡ r.msg.path

-- A fragment that reports the bytes it has, no more than the threshold.
pub record Small (f : Fragment) : Type 0 where
  pub count : f.num_bytes ≡ length f.bytes
  pub small : length f.bytes ≤ buffer_chunk_increase_threshold

pub complete_fragment-Counted :
    (hr : ℕ) (f : Fragment) (r : WsReader)
    → f.final_fragment ≡ false
    → Small f
    → Roomy r
    → Returns (Counted f r) (complete_fragment hr f r)
unfolding complete_fragment read_async_complete
complete_fragment-Counted hr f r more s roomy =
    rw (fill_start f.bytes r fits, more)
      (elim (Bool-cases (
        leb (length (arrived f r).msg.contents - buffer_chunk_increase_threshold)
          (r.msg.data_size + f.num_bytes))) [
            | inl grows ↦ simp grows (record {
              roomy = record {
                whole_chunks = omega (arith, longer, held, roomy.whole_chunks);
                room = omega (arith, longer, held, roomy.room, s.count, s.small);
              };
              data_size = refl;
              sent = refl;
              order = refl;
              same_channel = refl;
              same_path = refl;
            })
            | inr stays ↦ simp stays (record {
              roomy = record {
                whole_chunks = omega (arith, held, roomy.whole_chunks);
                room = ground (arith, held, stays, roomy.room);
              };
              data_size = refl;
              sent = refl;
              order = refl;
              same_channel = refl;
              same_path = refl;
            })
          ])
  where
    fits : length f.bytes ≤ length r.msg.contents
    fits = omega (arith, s.small, roomy.room)

    held : length (arrived f r).msg.contents ≡ length r.msg.contents
    held = length-arrived f r fits

    longer :
        length (grown (arrived f r)).msg.contents
        ≡ length (arrived f r).msg.contents + buffer_chunk_size
    longer =
        length-resize (length (arrived f r).msg.contents + buffer_chunk_size)
          (arrived f r).msg.contents

-- The reader after the last fragment of a message, of which `n` bytes were counted.
pub record Ended (n : ℕ) (r r' : WsReader) : Type 0 where
  pub message : Bytes
  pub whole : length message ≡ n
  pub one_sent : SentOne message r r'

pub complete_fragment-Ended :
    (hr : ℕ) (f : Fragment) (r : WsReader)
    → f.final_fragment ≡ true
    → Small f
    → Roomy r
    → Returns (Ended (r.msg.data_size + f.num_bytes) r) (complete_fragment hr f r)
complete_fragment-Ended hr f r final s roomy =
    Returns-mono (SentOne message r) (Ended (r.msg.data_size + f.num_bytes) r)
      (complete_fragment hr f r)
      (λ r' one. record {
        message = message;
        whole = length-take (r.msg.data_size + f.num_bytes) (arrived f r).msg.contents (
            omega (
              arith,
              length-arrived f r (omega (arith, s.small, roomy.room)),
              roomy.room,
              s.count,
              s.small,
            ));
        one_sent = one;
      })
      (complete_fragment-sent hr message f r final (omega (arith, s.small, roomy.room))
        (omega (arith, roomy.room, s.count, s.small)) refl)
  where
    message : Bytes
    message = take (r.msg.data_size + f.num_bytes) (arrived f r).msg.contents
