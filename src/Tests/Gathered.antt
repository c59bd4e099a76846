-- ===== src/Tests/Gathered.antt =====
-- A WebSocket in memory whose messages come in fragments of a few bytes.
use iis_asgi_handler.Prelude.{
  ℕ, ◌≡◌, refl, Bool, true, false, List, [], ◌∷◌, length, codes, Returns, arith,
}
use iis_asgi_handler.WebSocket.{Fragment, WebSocketContext}
use iis_asgi_handler.WebSocket.Buffered.{Small, Fresh-Roomy}
use iis_asgi_handler.WebSocket.Gathered.{message_lengths, bytes_since, Sends, Fragmented}
use iis_asgi_handler.WebSocket.Callbacks.{read_callbacks, all_read, read_callbacks-Sends}
use iis_asgi_handler.Tests.WebSocket.{fragment, idle_reader, idle-Fresh}

-- A fragment is one byte, and `true` marks a message's last.
abbrev piece : ℕ × Bool → Fragment
piece (b, final) = fragment (b ∷ []) final

abbrev pieces : List (ℕ × Bool) → List Fragment
pieces [] = []
pieces (p ∷ ps) = piece p ∷ pieces ps

abbrev next_piece : List (ℕ × Bool) → Fragment × List (ℕ × Bool)
next_piece [] = (record (fragment [] false) { completion_expected = true }, [])
next_piece (p ∷ ps) = (piece p, ps)

abbrev in_pieces : WebSocketContext
in_pieces = record {
  World = List (ℕ × Bool);
  read_fragment = λ size w. next_piece w;
  write_fragment =
      λ bytes w. (record { hr = 0; num_bytes = length bytes; completion_expected = false }, w);
}

next_piece_pending :
    (w : List (ℕ × Bool)) → (next_piece w).0.completion_expected ≡ true → pieces w ≡ []
next_piece_pending [] c = refl
next_piece_pending (p ∷ ps) c = absurd (cc)

next_piece-Small :
    (w : List (ℕ × Bool))
    → (next_piece w).0.completion_expected ≡ false
    → (pieces w ≡ (next_piece w).0 ∷ pieces (next_piece w).1) × Small (next_piece w).0
next_piece-Small [] c = absurd (cc)
next_piece-Small (p ∷ ps) c = (refl, record { count = refl; small = omega arith })

abbrev fragmented : Fragmented in_pieces
fragmented = record {
  incoming = λ w. pieces w;
  read_pending = λ size w c. next_piece_pending w c;
  read_next = λ size w c. next_piece-Small w c;
}

-- "a", "bc" and the first byte of another message.
abbrev two_and_a_half : List (ℕ × Bool)
two_and_a_half = (98, false) ∷ (99, true) ∷ (100, false) ∷ []

lengths_run : message_lengths 0 (fragment (codes "a") true ∷ pieces two_and_a_half) ≡ 1 ∷ 2 ∷ []
lengths_run = refl

begun_run : bytes_since 0 (fragment (codes "a") true ∷ pieces two_and_a_half) ≡ 1
begun_run = refl

abbrev calls : List (Fragment × List (ℕ × Bool))
calls = (fragment (codes "a") true, two_and_a_half) ∷ (fragment (codes "e") true, []) ∷ []

read_callbacks-Sends_example :
    Returns
      (λ r'. Sends (all_read in_pieces fragmented calls) idle_reader r')
      (read_callbacks in_pieces 4 calls idle_reader)
read_callbacks-Sends_example =
    read_callbacks-Sends in_pieces fragmented 4 calls idle_reader
      (
        record { count = refl; small = omega arith },
        omega arith,
        (record { count = refl; small = omega arith }, omega arith, tt),
      )
      (Fresh-Roomy idle_reader idle-Fresh) (omega arith)
