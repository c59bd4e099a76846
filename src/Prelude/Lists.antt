-- ===== src/Prelude/Lists.antt =====
-- Lists measured and indexed by native numbers, under the library's names, and the writes into a
-- buffer that the C++ code makes through pointers.
use Prim.Native.Nat.{ℕ, zero, suc, ◌+◌, ◌-◌, ◌≤◌}
use mathlib.Core.Path.{◌≡◌, refl, ap}
use mathlib.Core.List.{List, [], ◌∷◌, ◌++◌}
use mathlib.Core.Option.{Option, none, some}
use native.Mathlib.Omega.{arith}
use mathlib.Core.Bool.{true}
use iis_asgi_handler.Prelude.Tests.{leb, if◌then◌else◌}

-- The bytes, or the UTF-16 code units, of a text.
abbrev pub Bytes : Type 0
Bytes = List ℕ

module _ {ℓ} {A : Type ℓ} where
  abbrev pub length : List A → ℕ
  length [] = 0
  length (x ∷ xs) = suc (length xs)

  abbrev pub take : ℕ → List A → List A
  take zero xs = []
  take (suc n) [] = []
  take (suc n) (x ∷ xs) = x ∷ take n xs

  abbrev pub drop : ℕ → List A → List A
  drop zero xs = xs
  drop (suc n) [] = []
  drop (suc n) (x ∷ xs) = drop n xs

  abbrev pub replicate : ℕ → A → List A
  replicate zero a = []
  replicate (suc n) a = a ∷ replicate n a

  abbrev pub get_elem? : List A → ℕ → Option A
  get_elem? [] i = none
  get_elem? (x ∷ xs) zero = some x
  get_elem? (x ∷ xs) (suc i) = get_elem? xs i

  abbrev pub get_or : List A → ℕ → A → A
  get_or [] i d = d
  get_or (x ∷ xs) zero d = x
  get_or (x ∷ xs) (suc i) d = get_or xs i d

  pub length-append : (xs ys : List A) → length (xs ++ ys) ≡ length xs + length ys
  length-append [] ys = omega arith
  length-append (x ∷ xs) ys = omega (arith, length-append xs ys)

  pub length-zero : (xs : List A) → length xs ≡ 0 → xs ≡ []
  length-zero [] h = refl
  length-zero (x ∷ xs) h = absurd (omega arith)

  pub length-replicate : (n : ℕ) (a : A) → length (replicate n a) ≡ n
  length-replicate zero a = refl
  length-replicate (suc n) a = ap suc (length-replicate n a)

  pub length-take : (n : ℕ) (xs : List A) → n ≤ length xs → length (take n xs) ≡ n
  length-take zero xs h = refl
  length-take (suc n) [] h = absurd (omega arith)
  length-take (suc n) (x ∷ xs) h = omega (arith, length-take n xs)

  pub length-drop : (n : ℕ) (xs : List A) → length (drop n xs) ≡ length xs - n
  length-drop zero xs = omega arith
  length-drop (suc n) [] = omega arith
  length-drop (suc n) (x ∷ xs) = omega (arith, length-drop n xs)

  pub take-append-drop : (n : ℕ) (xs : List A) → take n xs ++ drop n xs ≡ xs
  take-append-drop zero xs = refl
  take-append-drop (suc n) [] = refl
  take-append-drop (suc n) (x ∷ xs) = ap (◌∷◌ x) (take-append-drop n xs)

  pub take-append_self : (xs ys : List A) (n : ℕ) → length xs ≡ n → take n (xs ++ ys) ≡ xs
  take-append_self [] ys n h = rw (← h)
  take-append_self (x ∷ xs) ys n h = rw (← h) (ap (◌∷◌ x) (take-append_self xs ys (length xs) refl))

  pub drop-append : (xs ys : List A) (k n : ℕ) → length xs + k ≡ n → drop n (xs ++ ys) ≡ drop k ys
  drop-append [] ys k n h = let e : k ≡ n = omega arith in rw (← e)
  drop-append (x ∷ xs) ys k zero h = absurd (omega arith)
  drop-append (x ∷ xs) ys k (suc n) h = drop-append xs ys k n (omega arith)

  pub take-append :
      (xs ys : List A) (k n : ℕ) → length xs + k ≡ n → take n (xs ++ ys) ≡ xs ++ take k ys
  take-append [] ys k n h = let e : k ≡ n = omega arith in rw (← e)
  take-append (x ∷ xs) ys k zero h = absurd (omega arith)
  take-append (x ∷ xs) ys k (suc n) h = ap (◌∷◌ x) (take-append xs ys k n (omega arith))

  pub drop-append_le :
      (xs ys : List A) (n : ℕ) → n ≤ length xs → drop n (xs ++ ys) ≡ drop n xs ++ ys
  drop-append_le xs ys zero h = refl
  drop-append_le [] ys (suc n) h = absurd (omega arith)
  drop-append_le (x ∷ xs) ys (suc n) h = drop-append_le xs ys n (omega arith)

  -- `memcpy(buffer + offset, bytes)`, or `none` where it would leave the buffer.
  unfoldable pub write_at : List A → ℕ → List A → Option (List A)
  write_at buffer offset bytes =
      if leb (offset + length bytes) (length buffer)
      then some (take offset buffer ++ bytes ++ drop (offset + length bytes) buffer)
      else none

  -- A write just behind what is filled extends it, and keeps the size of the buffer.
  pub write_at-append :
      (filled room bytes : List A) (offset : ℕ)
      → length filled ≡ offset
      → length bytes ≤ length room
      → write_at (filled ++ room) offset bytes
        ≡ some ((filled ++ bytes) ++ drop (length bytes) room)
  unfolding write_at
  write_at-append filled room bytes offset h k =
      let fits : leb (offset + length bytes) (length (filled ++ room)) ≡ true =
        ground (arith, length-append filled room) in
      rw (fits, take-append_self filled room offset h)
        (rw (drop-append filled room (length bytes) (offset + length bytes) (omega arith)))
