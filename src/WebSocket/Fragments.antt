-- ===== src/WebSocket/Fragments.antt =====
-- What WsReader sends to the application, of messages of two fragments.
use iis_asgi_handler.Prelude.{
  ℕ, ◌+◌, ◌-◌, ◌≤◌, ◌<◌, ◌≡◌, ap, ◌∙◌, true, false, ◌++◌, Bytes, length, take, drop, leb,
  length-drop, take-append, drop-append_le, ok, err, Error, ◌>>=◌, Returns, Returns-mono, arith,
}
use iis_asgi_handler.WebSocket.{Fragment}
use iis_asgi_handler.WebSocket.Reader.{
  WsReader, buffer_chunk_size, buffer_chunk_increase_threshold, send_to_application,
  read_async_complete, complete_fragment,
}
use iis_asgi_handler.WebSocket.Received.{
  Fresh, SentOne, fill_start, arrived, length-arrived, final_fragment, complete_fragment-sent,
}

first_fragment :
    (hr : ℕ) (f : Fragment) (r : WsReader)
    → Fresh r
    → f.final_fragment ≡ false
    → f.num_bytes ≡ length f.bytes
    → length f.bytes < buffer_chunk_size - buffer_chunk_increase_threshold
    → complete_fragment hr f r ≡ ok (arrived f r)
unfolding complete_fragment read_async_complete
first_fragment hr f r fresh more count small =
    rw (fill_start f.bytes r (omega (arith, fresh.whole_chunk)), more, far)
  where
    far :
        leb
          (length (f.bytes ++ drop (length f.bytes) r.msg.contents)
            - buffer_chunk_increase_threshold)
          (r.msg.data_size + f.num_bytes)
        ≡ false
    far =
        let h = length-arrived f r (omega (arith, fresh.whole_chunk)) in
        ground (arith, fresh.no_data, fresh.whole_chunk)

-- Of a message of two fragments, read into a fresh buffer that they fit into together and that the
-- first does not make grow, where the second is no longer than the first, the application gets the
-- second, what of the first lies behind the second's length, and then bytes of the buffer that
-- belong to neither.
pub second_overwrites_first :
    (hr hr' : ℕ) (f g : Fragment) (r : WsReader)
    → Fresh r
    → f.final_fragment ≡ false
    → g.final_fragment ≡ true
    → f.num_bytes ≡ length f.bytes
    → g.num_bytes ≡ length g.bytes
    → length f.bytes < buffer_chunk_size - buffer_chunk_increase_threshold
    → length g.bytes ≤ length f.bytes
    → length f.bytes + length g.bytes ≤ buffer_chunk_size
    → Returns
        (SentOne
          (g.bytes
            ++ (drop (length g.bytes) f.bytes
                ++ take (length g.bytes) (drop (length f.bytes) r.msg.contents)))
          r)
        (complete_fragment hr f r >>= complete_fragment hr' g)
second_overwrites_first hr hr' f g r fresh more final count count' small shorter fit =
    rw (first_fragment hr f r fresh more count small) (
      Returns-mono (SentOne shown (arrived f r)) (SentOne shown r)
        (complete_fragment hr' g (arrived f r))
        (λ r' s. record {
          one_more = s.one_more;
          fresh = s.fresh;
          next_order = s.next_order;
          same_channel = s.same_channel;
          same_path = s.same_path;
        })
        (complete_fragment-sent hr' shown g (arrived f r) final
          (omega (arith, held, fresh.whole_chunk))
          (omega (arith, held, fresh.whole_chunk, fresh.no_data)) cut))
  where
    held : length (arrived f r).msg.contents ≡ length r.msg.contents
    held = length-arrived f r (omega (arith, fresh.whole_chunk))

    behind : Bytes
    behind = drop (length f.bytes) r.msg.contents

    shown : Bytes
    shown =
        g.bytes
        ++ (drop (length g.bytes) f.bytes
            ++ take (length g.bytes) (drop (length f.bytes) r.msg.contents))

    cut :
        take
          (r.msg.data_size + f.num_bytes + g.num_bytes)
          (g.bytes ++ drop (length g.bytes) (f.bytes ++ behind))
        ≡ shown
    cut = rw (drop-append_le f.bytes behind (length g.bytes) shorter) (
        take-append g.bytes (drop (length g.bytes) f.bytes ++ behind) (length f.bytes)
          (r.msg.data_size + f.num_bytes + g.num_bytes) (omega (arith, fresh.no_data))
        ∙ ap (◌++◌ g.bytes) (
            take-append (drop (length g.bytes) f.bytes) behind (length g.bytes) (length f.bytes)
              (omega (arith, length-drop (length g.bytes) f.bytes))))

overruns :
    (r : WsReader)
    → length r.msg.contents < r.msg.data_size
    → send_to_application r ≡ err Error.overrun
unfolding send_to_application
overruns r h = let e : leb r.msg.data_size (length r.msg.contents) ≡ false = ground arith in rw e

-- If the first of two fragments, read into a fresh buffer, does not make it grow, the second fits
-- into it, and together they are longer than it, sending the message reads behind the buffer's end.
pub sending_overruns :
    (hr hr' : ℕ) (f g : Fragment) (r : WsReader)
    → Fresh r
    → f.final_fragment ≡ false
    → g.final_fragment ≡ true
    → f.num_bytes ≡ length f.bytes
    → g.num_bytes ≡ length g.bytes
    → length f.bytes < buffer_chunk_size - buffer_chunk_increase_threshold
    → length g.bytes ≤ buffer_chunk_size
    → buffer_chunk_size < length f.bytes + length g.bytes
    → (complete_fragment hr f r >>= complete_fragment hr' g) ≡ err Error.overrun
sending_overruns hr hr' f g r fresh more final count count' small fit long =
    rw (first_fragment hr f r fresh more count small) (
      final_fragment hr' g (arrived f r) final (omega (arith, held, fresh.whole_chunk))
      ∙ overruns (arrived g (arrived f r)) (
          omega (
            arith,
            held,
            length-arrived g (arrived f r) (omega (arith, held, fresh.whole_chunk)),
            fresh.whole_chunk,
            fresh.no_data,
          )))
  where
    held : length (arrived f r).msg.contents ≡ length r.msg.contents
    held = length-arrived f r (omega (arith, fresh.whole_chunk))
