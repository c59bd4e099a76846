-- ===== src/Logger/Lines.antt =====
-- What a line of the log writes.
use iis_asgi_handler.Prelude.{
  ℕ, ◌≡◌, refl, sym, List, [], ◌∷◌, ◌++◌, append-nil, append_assoc, none, some, Bytes, ok,
}
use iis_asgi_handler.Logger.{
  Converter, Etw, Inserted, value, wstring, completed, threw, c_str, insert, insert_all, log,
  destroyed, debug,
}

-- The conversions are those of UTF-8: decoding undoes encoding, and texts are decoded one by one.
pub record IsUtf8 (convert : Converter) : Type 0 where
  pub decodes :
      (units : List ℕ) (bytes : Bytes)
      → convert.to_bytes units ≡ some bytes
      → convert.from_bytes bytes ≡ some units
  pub joins :
      (a b : Bytes) (s t : List ℕ)
      → convert.from_bytes a ≡ some s
      → convert.from_bytes b ≡ some t
      → convert.from_bytes (a ++ b) ≡ some (s ++ t)
  pub empty : convert.from_bytes [] ≡ some []

module _ (convert : Converter) where
  -- What is inserted is this text.
  abbrev pub Shows : Inserted → List ℕ → Type 0
  Shows (value bytes) text = convert.from_bytes bytes ≡ some text
  Shows (wstring units) text =
      (units ≡ text) × (bytes : Bytes) × (convert.to_bytes units ≡ some bytes)

  abbrev pub AllShow : List Inserted → List ℕ → Type 0
  AllShow [] text = text ≡ []
  AllShow (x ∷ xs) text = (s : List ℕ) × (t : List ℕ) × Shows x s × AllShow xs t × (text ≡ s ++ t)

  module _ (utf8 : IsUtf8 convert) where
    insert-Shows :
        (x : Inserted) (sstream : Bytes) (s t : List ℕ)
        → convert.from_bytes sstream ≡ some s
        → Shows x t
        → (bytes : Bytes) × (insert convert x sstream ≡ ok bytes)
          × (convert.from_bytes bytes ≡ some (s ++ t))
    unfolding insert
    insert-Shows (value b) sstream s t e h = (sstream ++ b, refl, utf8.joins sstream b s t e h)
    insert-Shows (wstring units) sstream s t e (same, b, h) = (
      sstream ++ b,
      rw h refl,
      rw (← same) (utf8.joins sstream b s units e (utf8.decodes units b h)),
    )

    -- The insertions before the end, or before one that throws.
    insert_all-AllShow :
        (xs rest : List Inserted) (sstream : Bytes) (s t : List ℕ)
        → convert.from_bytes sstream ≡ some s
        → AllShow xs t
        → (bytes : Bytes) × (insert_all convert (xs ++ rest) sstream
            ≡ insert_all convert rest bytes)
          × (convert.from_bytes bytes ≡ some (s ++ t))
    unfolding insert_all
    insert_all-AllShow [] rest sstream s t e h = (sstream, refl, rw (h, append-nil s) e)
    insert_all-AllShow (x ∷ xs) rest sstream s t e (a, b, h, hs, split) =
        let (bytes, inserted, shown) = insert-Shows x sstream s a e h in
        let (all, same, shown') = insert_all-AllShow xs rest bytes (s ++ a) b shown hs in
        (all, rw (inserted, insert_all) same, rw (split, ← append_assoc s a b) shown')

    module _ (etw : Etw) where
      -- A statement writes one event, whose text is the texts inserted, one after the other, up to
      -- its first zero. If it inserts a wide text that cannot be encoded, the event has what was
      -- inserted before, and the statement ends with the exception. The conversions are those of
      -- UTF-8, and all other values inserted are valid.
      pub debug-AllShow :
          (etw_handle : ℕ) (xs : List Inserted) (text : List ℕ) (w : etw.World)
          → AllShow xs text
          → let w' = etw.event_write_string etw_handle (c_str text) w in
            (debug convert etw etw_handle xs w ≡ (completed, w'))
            × ((units : List ℕ) (after : List Inserted)
                → convert.to_bytes units ≡ none
                → debug convert etw etw_handle (xs ++ wstring units ∷ after) w ≡ (threw, w'))
      unfolding debug insert_all insert log destroyed
      debug-AllShow etw_handle xs text w h =
          let (all, same, shown) = insert_all-AllShow xs [] [] [] text utf8.empty h in
          (
            rw (sym (append-nil xs)) (rw (same, shown) refl),
            λ units after e.
                let (all', same', shown') =
                  insert_all-AllShow xs (wstring units ∷ after) [] [] text utf8.empty h in
                rw (same', insert_all, insert, e, shown') refl,
          )
