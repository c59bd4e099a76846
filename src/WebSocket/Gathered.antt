-- ===== src/WebSocket/Gathered.antt =====
-- What WsReader sends to the application, of messages of any number of small fragments.
use iis_asgi_handler.Prelude.{
  ℕ, zero, suc, ◌+◌, ◌%◌, ◌^◌, ◌<◌, ◌≡◌, refl, sym, ap, ap₂, ◌∙◌, inl, inr, true, false, Bool-cases,
  List, [], ◌∷◌, ◌++◌, map, append-nil, append_assoc, Bytes, length, if◌then◌else◌, Result, ◌>>=◌,
  Returns, Returns-bind, Returns-mono, arith,
}
use iis_asgi_handler.Iis.{s_ok}
use iis_asgi_handler.WebSocket.{Fragment, WebSocketContext}
use iis_asgi_handler.WebSocket.Reader.{WsReader, complete_fragment, read_async, read_callback}
use iis_asgi_handler.WebSocket.Received.{numbered}
use iis_asgi_handler.WebSocket.Buffered.{
  Roomy, Fresh-Roomy, Small, Counted, complete_fragment-Counted, Ended, complete_fragment-Ended,
}

-- The lengths of the messages that fragments end, if `n` bytes came before them.
abbrev pub message_lengths : ℕ → List Fragment → List ℕ
message_lengths n [] = []
message_lengths n (f ∷ fs) =
    let ended = (n + f.num_bytes) ∷ message_lengths 0 fs in
    let going = message_lengths (n + f.num_bytes) fs in if f.final_fragment then ended else going

-- The bytes that came since the last message's end.
abbrev pub bytes_since : ℕ → List Fragment → ℕ
bytes_since n [] = n
bytes_since n (f ∷ fs) =
    let ended = bytes_since 0 fs in
    let going = bytes_since (n + f.num_bytes) fs in if f.final_fragment then ended else going

-- What the module has for the reader: the fragments that reads complete with at once, which are
-- small, before one is pending.
pub record Fragmented (ws : WebSocketContext) : Type 0 where
  pub incoming : ws.World → List Fragment
  pub read_pending :
      (size : ℕ) (w : ws.World)
      → (ws.read_fragment size w).0.completion_expected ≡ true
      → incoming w ≡ []
  pub read_next :
      (size : ℕ) (w : ws.World)
      → (ws.read_fragment size w).0.completion_expected ≡ false
      → (incoming w ≡ (ws.read_fragment size w).0 ∷ incoming (ws.read_fragment size w).1)
        × Small (ws.read_fragment size w).0

-- A reader after the messages that fragments end were sent.
pub record Sends (fragments : List Fragment) (r r' : WsReader) : Type 0 where
  pub messages : List Bytes
  pub lengths : map length messages ≡ message_lengths r.msg.data_size fragments
  pub all_sent : r'.sent ≡ r.sent ++ numbered r.msg.reply_channel r.msg.path r.msg.order messages
  pub begun : r'.msg.data_size ≡ bytes_since r.msg.data_size fragments
  pub roomy : Roomy r'
  pub order : r'.msg.order ≡ r.msg.order + length messages
  pub same_channel : r'.msg.reply_channel ≡ r.msg.reply_channel
  pub same_path : r'.msg.path ≡ r.msg.path

pub Sends-nothing : (r : WsReader) → Roomy r → Sends [] r r
Sends-nothing r roomy = record {
  messages = [];
  lengths = refl;
  all_sent = sym (append-nil r.sent);
  begun = refl;
  roomy = roomy;
  order = omega arith;
  same_channel = refl;
  same_path = refl;
}

Sends-Counted :
    (f : Fragment) (fs : List Fragment) (r r₁ r' : WsReader)
    → f.final_fragment ≡ false
    → Counted f r r₁
    → Sends fs r₁ r'
    → Sends (f ∷ fs) r r'
Sends-Counted f fs r r₁ r' more c g = record {
  messages = g.messages;
  lengths = simp more (g.lengths ∙ ap (λ n. message_lengths n fs) c.data_size);
  all_sent = simp (g.all_sent, c.sent, c.same_channel, c.same_path, c.order) refl;
  begun = simp more (g.begun ∙ ap (λ n. bytes_since n fs) c.data_size);
  roomy = g.roomy;
  order = g.order ∙ ap (λ (n : ℕ). n + length g.messages) c.order;
  same_channel = g.same_channel ∙ c.same_channel;
  same_path = g.same_path ∙ c.same_path;
}

Sends-Ended :
    (f : Fragment) (fs : List Fragment) (r r₁ r' : WsReader)
    → f.final_fragment ≡ true
    → Ended (r.msg.data_size + f.num_bytes) r r₁
    → Sends fs r₁ r'
    → Sends (f ∷ fs) r r'
Sends-Ended f fs r r₁ r' final d g =
    let s = d.one_sent in
    record {
      messages = d.message ∷ g.messages;
      lengths = simp final (
          ap₂ (λ (n : ℕ) ns. n ∷ ns) d.whole
            (g.lengths ∙ ap (λ n. message_lengths n fs) s.fresh.no_data));
      all_sent =
          simp (g.all_sent, s.one_more, s.same_channel, s.same_path, s.next_order)
            (append_assoc r.sent
              (record {
                reply_channel = r.msg.reply_channel;
                path = r.msg.path;
                order = r.msg.order;
                bytes = d.message;
              }
                ∷ [])
              (numbered r.msg.reply_channel r.msg.path (r.msg.order + 1) g.messages));
      begun = simp final (g.begun ∙ ap (λ n. bytes_since n fs) s.fresh.no_data);
      roomy = g.roomy;
      order = omega (arith, g.order, s.next_order);
      same_channel = g.same_channel ∙ s.same_channel;
      same_path = g.same_path ∙ s.same_path;
    }

module _ (ws : WebSocketContext) (law : Fragmented ws) where
  open law use {incoming}

  -- A fragment is completed, and what follows it is sent.
  Sends-next :
      (hr : ℕ) (f : Fragment) (fs : List Fragment) (r : WsReader)
      (k : WsReader → Result (WsReader × ws.World))
      → Small f
      → Roomy r
      → ((r₁ : WsReader) → Roomy r₁ → Returns (λ (r', w'). Sends fs r₁ r') (k r₁))
      → Returns (λ (r', w'). Sends (f ∷ fs) r r') (complete_fragment hr f r >>= k)
  Sends-next hr f fs r k small roomy go = elim (Bool-cases f.final_fragment) [
    | inl final ↦
        Returns-bind _ _ (complete_fragment hr f r) k
          (complete_fragment-Ended hr f r final small roomy)
          λ r₁ d.
            Returns-mono _ _ (k r₁) (λ (r', w') g. Sends-Ended f fs r r₁ r' final d g)
              (go r₁ (Fresh-Roomy r₁ d.one_sent.fresh))
    | inr more ↦
        Returns-bind _ _ (complete_fragment hr f r) k
          (complete_fragment-Counted hr f r more small roomy)
          λ r₁ c.
            Returns-mono _ _ (k r₁) (λ (r', w') g. Sends-Counted f fs r r₁ r' more c g)
              (go r₁ c.roomy)
  ]

  read_async-Sends :
      (fuel : ℕ) (r : WsReader) (w : ws.World)
      → Roomy r
      → length (incoming w) < fuel
      → Returns (λ (r', w'). Sends (incoming w) r r') (read_async ws fuel r w)
  unfolding read_async
  read_async-Sends zero r w roomy h = absurd (omega arith)
  read_async-Sends (suc fuel) r w roomy h =
      let size = length r.msg.contents % 2 ^ 32 in
      let f = (ws.read_fragment size w).0 in
      let w₁ = (ws.read_fragment size w).1 in
      elim (Bool-cases f.completion_expected) [
        | inl c ↦ simp (c, law.read_pending size w c) (Sends-nothing r roomy)
        | inr c ↦
            let (e, small) = law.read_next size w c in
            simp (c, e)
              (Sends-next s_ok f (incoming w₁) r (λ r₁. read_async ws fuel r₁ w₁) small roomy
                λ r₁ roomy₁. read_async-Sends fuel r₁ w₁ roomy₁ (omega (arith, ap length e, h)))
      ]

  pub read_callback-Sends :
      (fuel : ℕ) (f : Fragment) (r : WsReader) (w : ws.World)
      → Small f
      → Roomy r
      → length (incoming w) < fuel
      → Returns (λ (r', w'). Sends (f ∷ incoming w) r r') (read_callback ws fuel f r w)
  unfolding read_callback
  read_callback-Sends fuel f r w small roomy h =
      Sends-next f.hr f (incoming w) r (λ r₁. read_async ws fuel r₁ w) small roomy
        λ r₁ roomy₁. read_async-Sends fuel r₁ w roomy₁ h
