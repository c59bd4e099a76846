-- ===== src/WebSocket/Callbacks.antt =====
-- WsReader over any number of callbacks.
use iis_asgi_handler.Prelude.{
  ℕ, ◌+◌, ◌^◌, ◌<◌, ◌≡◌, refl, sym, ap, ap₂, ◌∙◌, inl, inr, Bool-cases, List, [], ◌∷◌, ◌++◌,
  append_assoc, Bytes, length, length-append, Result, ok, ◌>>=◌, Returns, Returns-bind,
  Returns-mono, arith,
}
use mathlib.Core.List.{map-append}
use iis_asgi_handler.WebSocket.{Fragment, WebSocketContext}
use iis_asgi_handler.WebSocket.Reader.{Packed, WsReader, read_callback}
use iis_asgi_handler.WebSocket.Received.{numbered}
use iis_asgi_handler.WebSocket.Buffered.{Roomy, Small}
use iis_asgi_handler.WebSocket.Gathered.{
  message_lengths, bytes_since, Sends, Sends-nothing, Fragmented, read_callback-Sends,
}

-- The calls of ReadCallback(), each with a fragment and the module's state at that time.
unfoldable pub read_callbacks :
    (ws : WebSocketContext) → ℕ → List (Fragment × ws.World) → WsReader → Result WsReader
read_callbacks ws fuel [] r = ok r
read_callbacks ws fuel ((f, w) ∷ calls) r =
    read_callback ws fuel f r w >>= λ (r', w'). read_callbacks ws fuel calls r'

numbered-append :
    (reply_channel path : Bytes) (n : ℕ) (ms ms' : List Bytes)
    → numbered reply_channel path n (ms ++ ms')
      ≡ numbered reply_channel path n ms ++ numbered reply_channel path (n + length ms) ms'
numbered-append reply_channel path n [] ms' =
    ap (λ (k : ℕ). numbered reply_channel path k ms') (omega arith)
numbered-append reply_channel path n (m ∷ ms) ms' =
    ap
      (λ (l : List Packed).
        record { reply_channel = reply_channel; path = path; order = n; bytes = m } ∷ l)
      (numbered-append reply_channel path (n + 1) ms ms'
        ∙ ap
            (λ (k : ℕ). numbered reply_channel path (n + 1) ms ++ numbered reply_channel path k ms')
            (omega arith))

message_lengths-append :
    (n : ℕ) (fs gs : List Fragment)
    → message_lengths n (fs ++ gs) ≡ message_lengths n fs ++ message_lengths (bytes_since n fs) gs
message_lengths-append n [] gs = refl
message_lengths-append n (f ∷ fs) gs = elim (Bool-cases f.final_fragment) [
  | inl final ↦ simp final (ap (◌∷◌ (n + f.num_bytes)) (message_lengths-append 0 fs gs))
  | inr more ↦ simp more (message_lengths-append (n + f.num_bytes) fs gs)
]

bytes_since-append :
    (n : ℕ) (fs gs : List Fragment) → bytes_since n (fs ++ gs) ≡ bytes_since (bytes_since n fs) gs
bytes_since-append n [] gs = refl
bytes_since-append n (f ∷ fs) gs = elim (Bool-cases f.final_fragment) [
  | inl final ↦ simp final (bytes_since-append 0 fs gs)
  | inr more ↦ simp more (bytes_since-append (n + f.num_bytes) fs gs)
]

Sends-append :
    (fs gs : List Fragment) (r r₁ r₂ : WsReader)
    → Sends fs r r₁
    → Sends gs r₁ r₂
    → Sends (fs ++ gs) r r₂
Sends-append fs gs r r₁ r₂ a b = record {
  messages = a.messages ++ b.messages;
  lengths =
      rw (map-append length a.messages b.messages, message_lengths-append r.msg.data_size fs gs)
        (ap₂ (λ (l l' : List ℕ). l ++ l') a.lengths
          (b.lengths ∙ ap (λ n. message_lengths n gs) a.begun));
  all_sent =
      simp (b.all_sent, a.all_sent, a.same_channel, a.same_path, a.order)
        (append_assoc r.sent (numbered r.msg.reply_channel r.msg.path r.msg.order a.messages)
            (numbered r.msg.reply_channel r.msg.path (r.msg.order + length a.messages) b.messages)
          ∙ ap (◌++◌ r.sent) (
              sym (
                numbered-append r.msg.reply_channel r.msg.path r.msg.order a.messages b.messages)));
  begun =
      b.begun ∙ ap (λ n. bytes_since n gs) a.begun ∙ sym (bytes_since-append r.msg.data_size fs gs);
  roomy = b.roomy;
  order = omega (arith, a.order, b.order, length-append a.messages b.messages);
  same_channel = b.same_channel ∙ a.same_channel;
  same_path = b.same_path ∙ a.same_path;
}

module _ (ws : WebSocketContext) (law : Fragmented ws) where
  open law use {incoming}

  -- The fragments that the callbacks are given and read.
  abbrev pub all_read : List (Fragment × ws.World) → List Fragment
  all_read [] = []
  all_read ((f, w) ∷ calls) = (f ∷ incoming w) ++ all_read calls

  -- Small fragments, of which each callback reads fewer than the fuel.
  abbrev pub AllSmall : ℕ → List (Fragment × ws.World) → Type 0
  AllSmall fuel [] = Unit {0}
  AllSmall fuel ((f, w) ∷ calls) = Small f × (length (incoming w) < fuel) × AllSmall fuel calls

  read_callbacks_send :
      (fuel : ℕ) (calls : List (Fragment × ws.World)) (r : WsReader)
      → AllSmall fuel calls
      → Roomy r
      → Returns (λ r'. Sends (all_read calls) r r') (read_callbacks ws fuel calls r)
  unfolding read_callbacks
  read_callbacks_send fuel [] r small roomy = Sends-nothing r roomy
  read_callbacks_send fuel ((f, w) ∷ calls) r (s, h, small) roomy =
      Returns-bind _ _ (read_callback ws fuel f r w) _
        (read_callback-Sends ws law fuel f r w s roomy h)
        λ (r₁, w₁) g.
          Returns-mono _ _ (read_callbacks ws fuel calls r₁)
            (λ r' sends. Sends-append (f ∷ incoming w) (all_read calls) r r₁ r' g sends)
            (read_callbacks_send fuel calls r₁ small g.roomy)

  -- Over any number of callbacks, whatever the module has at each, fragments that are no longer than
  -- the threshold never overrun a buffer of whole chunks of which more than the threshold is free,
  -- however many there are: each callback returns, for each final fragment a message is sent whose
  -- length is the sum of its fragments', over as many callbacks as they came in, with the orders
  -- counting on, and the buffer is left with that room. More rounds than the module has fragments
  -- at a callback are enough for it, and the orders, which are ints, stay below 2 ^ 31.
  pub read_callbacks-Sends :
      (fuel : ℕ) (calls : List (Fragment × ws.World)) (r : WsReader)
      → AllSmall fuel calls
      → Roomy r
      → r.msg.order + length (all_read calls) < 2 ^ 31
      → Returns (λ r'. Sends (all_read calls) r r') (read_callbacks ws fuel calls r)
  read_callbacks-Sends fuel calls r small roomy in_range =
      read_callbacks_send fuel calls r small roomy
