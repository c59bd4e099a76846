-- ===== src/Tests/Logger.antt =====
-- Lines of the log, with a conversion that knows ASCII only and a log that is a list of events.
use iis_asgi_handler.Prelude.{
  ℕ, ◌≡◌, refl, Bool, true, false, List, [], ◌∷◌, ◌++◌, Option, none, some, codes, ltb, ◌&&◌,
  if◌then◌else◌, arith,
}
use iis_asgi_handler.Logger.{
  Converter, Etw, Inserted, value, wstring, completed, threw, terminated, c_str, insert, insert_all,
  log, destroyed, debug, destroy_etw_logger,
}
use iis_asgi_handler.Logger.Lines.{IsUtf8, debug-AllShow}

abbrev all_ascii : List ℕ → Bool
all_ascii [] = true
all_ascii (u ∷ units) = ltb u 128 && all_ascii units

abbrev ascii : List ℕ → Option (List ℕ)
ascii units = if all_ascii units then some units else none

abbrev ascii_only : Converter
ascii_only = record { to_bytes = ascii; from_bytes = ascii }

accepted : (b : Bool) (a s : List ℕ) → (if b then some a else none) ≡ some s → (b ≡ true) × (a ≡ s)
accepted true a s e = (refl, cc)
accepted false a s e = absurd (cc)

all_ascii-append :
    (a b : List ℕ) → all_ascii a ≡ true → all_ascii b ≡ true → all_ascii (a ++ b) ≡ true
all_ascii-append [] b e f = f
all_ascii-append (u ∷ a) b e f = ground (arith, all_ascii-append a b)

joined : (a b s t : List ℕ) → ascii a ≡ some s → ascii b ≡ some t → ascii (a ++ b) ≡ some (s ++ t)
joined a b s t e f =
    let (p, same) = accepted (all_ascii a) a s e in
    let (q, same') = accepted (all_ascii b) b t f in rw (all_ascii-append a b p q, same, same') refl

ascii_only-IsUtf8 : IsUtf8 ascii_only
ascii_only-IsUtf8 = record {
  decodes = λ units bytes e.
      let (p, same) = accepted (all_ascii units) units bytes e in rw (← same) (rw p refl);
  joins = joined;
  empty = refl;
}

abbrev events : Etw
events = record {
  World = List (List ℕ);
  event_register = λ w. (5, w);
  event_unregister = λ h w. w;
  event_write_string = λ h text w. w ++ text ∷ [];
}

debug-AllShow_example :
    (debug ascii_only events 5 (value (codes "ab") ∷ wstring (codes "cd") ∷ []) []
      ≡ (completed, c_str (codes "abcd") ∷ []))
    × ((units : List ℕ) (after : List Inserted)
        → ascii units ≡ none
        → debug ascii_only events 5
            ((value (codes "ab") ∷ wstring (codes "cd") ∷ []) ++ wstring units ∷ after)
            []
          ≡ (threw, c_str (codes "abcd") ∷ []))
debug-AllShow_example =
    debug-AllShow ascii_only ascii_only-IsUtf8 events 5
      (value (codes "ab") ∷ wstring (codes "cd") ∷ []) (codes "abcd") []
      (codes "ab", codes "cd", refl, (codes "cd", [], (refl, codes "cd", refl), refl, refl), refl)

-- A byte that is not UTF-8 ends the process.
invalid_terminates :
    debug ascii_only events 5 (value (codes "ab") ∷ value (200 ∷ []) ∷ []) [] ≡ (terminated, [])
unfolding debug insert_all insert log destroyed
invalid_terminates = refl

-- The text ends at its first zero.
zero_cuts :
    debug ascii_only events 5 (value (97 ∷ 0 ∷ 98 ∷ []) ∷ []) [] ≡ (completed, codes "a" ∷ [])
unfolding debug insert_all insert log destroyed c_str
zero_cuts = refl

-- A provider that could not be registered is not unregistered.
no_provider : destroy_etw_logger events 0 (codes "x" ∷ []) ≡ codes "x" ∷ []
unfolding destroy_etw_logger
no_provider = refl
