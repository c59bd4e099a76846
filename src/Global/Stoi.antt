-- ===== src/Global/Stoi.antt =====
-- The number of processes as the configuration gives it, in decimal.
use iis_asgi_handler.Prelude.{
  ◌>>=◌, inl, inr, Bool-cases, ℕ, zero, suc, ◌+◌, ◌-◌, ◌*◌, ◌/◌, ◌%◌, ◌^◌, ◌<◌, ◌≡◌, refl, sym, ap,
  ◌∙◌, inl, inr, true, false, Bool-cases, List, [], ◌∷◌, ◌++◌, ℤ, pos, negsuc, ltb, leb, ◌==◌,
  if◌then◌else◌, Result, ok, err, Error, arith,
}
use iis_asgi_handler.Request.{to_string_fuel, to_string}
use iis_asgi_handler.Global.{
  is_digit, is_space, skip_spaces, digits_value, stoi_unsigned, stoi_signed, stoi, size_of,
}

abbrev AllDigits : List ℕ → Type 0
AllDigits [] = Unit {0}
AllDigits (c ∷ cs) = (is_digit c ≡ true) × AllDigits cs

AllDigits-append : (cs ds : List ℕ) → AllDigits cs → AllDigits ds → AllDigits (cs ++ ds)
AllDigits-append [] ds h k = k
AllDigits-append (c ∷ cs) ds h k = (h.0, AllDigits-append cs ds h.1 k)

digits_value-append :
    (n : ℕ) (cs : List ℕ) (d : ℕ)
    → AllDigits cs
    → is_digit d ≡ true
    → digits_value n (cs ++ d ∷ []) ≡ digits_value n cs * 10 + (d - b'0')
unfolding digits_value
digits_value-append n [] d h k = rw k
digits_value-append n (c ∷ cs) d h k = rw h.0 (digits_value-append (n * 10 + (c - b'0')) cs d h.1 k)

to_string-AllDigits : (fuel n : ℕ) → AllDigits (to_string_fuel fuel n)
unfolding to_string_fuel
to_string-AllDigits zero n = tt
to_string-AllDigits (suc fuel) n =
    let digit : is_digit (b'0' + n % 10) ≡ true = ground arith in
    elim (Bool-cases (ltb n 10)) [
      | inl h ↦ rw h (digit, tt)
      | inr h ↦ rw h (
          AllDigits-append (to_string_fuel fuel (n / 10)) ((b'0' + n % 10) ∷ [])
            (to_string-AllDigits fuel (n / 10)) (digit, tt))
    ]

digits_value_one : (d : ℕ) → is_digit d ≡ true → digits_value 0 (d ∷ []) ≡ d - b'0'
unfolding digits_value
digits_value_one d h = rw h (omega arith)

digits_value-to_string : (fuel n : ℕ) → n < fuel → digits_value 0 (to_string_fuel fuel n) ≡ n
unfolding to_string_fuel
digits_value-to_string zero n h = absurd (omega arith)
digits_value-to_string (suc fuel) n h =
    let digit : is_digit (b'0' + n % 10) ≡ true = ground arith in
    elim (Bool-cases (ltb n 10)) [
      | inl small ↦ rw small (digits_value_one (b'0' + n % 10) digit ∙ ground arith)
      | inr large ↦ rw large (
          digits_value-append 0 (to_string_fuel fuel (n / 10)) (b'0' + n % 10)
            (to_string-AllDigits fuel (n / 10)) digit
          ∙ omega (arith, digits_value-to_string fuel (n / 10) (ground arith)))
    ]

to_string-cons : (fuel n : ℕ) → (c : ℕ) × (cs : List ℕ) × (to_string_fuel (suc fuel) n ≡ c ∷ cs)
unfolding to_string_fuel
to_string-cons fuel n = elim (Bool-cases (ltb n 10)) [
  | inl h ↦ (b'0' + n % 10, [], rw h)
  | inr h ↦ rw h (cons (to_string_fuel fuel (n / 10)))
]
  where
    cons : (xs : List ℕ) → (c : ℕ) × (cs : List ℕ) × (xs ++ (b'0' + n % 10) ∷ [] ≡ c ∷ cs)
    cons [] = (b'0' + n % 10, [], refl)
    cons (x ∷ xs) = (x, xs ++ (b'0' + n % 10) ∷ [], refl)

skip_digit : (c : ℕ) (cs : List ℕ) → is_digit c ≡ true → skip_spaces (c ∷ cs) ≡ c ∷ cs
unfolding skip_spaces
skip_digit c cs h = let e : is_space c ≡ false = ground arith in rw e

signed_digit :
    (c : ℕ) (cs : List ℕ) → is_digit c ≡ true → stoi_signed (c ∷ cs) ≡ stoi_unsigned false (c ∷ cs)
unfolding stoi_signed
signed_digit c cs h =
    let minus : (c == b'-') ≡ false = ground arith in
    let plus : (c == b'+') ≡ false = ground arith in rw (minus, plus)

signed_minus : (cs : List ℕ) → stoi (b'-' ∷ cs) ≡ stoi_unsigned true cs
unfolding stoi stoi_signed skip_spaces
signed_minus cs = refl

-- What std::stoi gives for a number and for a minus sign before it.
abbrev pub in_range : ℕ → Result ℤ
in_range n = if ltb n (2 ^ 31) then ok (pos n) else err Error.logic_error

abbrev pub in_range_negative : ℕ → Result ℤ
in_range_negative n =
    if leb n (2 ^ 31) then ok (if n == 0 then pos 0 else negsuc (n - 1)) else err Error.logic_error

-- The conversion to size_t, of the negative.
abbrev pub as_size_negative : ℕ → Result ℕ
as_size_negative n =
    if leb n (2 ^ 31) then ok (if n == 0 then 0 else 2 ^ 64 - n) else err Error.logic_error

size-in_range : (n : ℕ) → (in_range_negative n >>= λ z. ok (size_of z)) ≡ as_size_negative n
size-in_range n = elim (Bool-cases (leb n (2 ^ 31))) [
  | inl fits ↦ elim (Bool-cases (n == 0)) [
    | inl empty ↦ simp (fits, empty) refl
    | inr positive ↦ let above : 0 < n = ground arith in simp (fits, positive) (ap ok (omega arith))
  ]
  | inr beyond ↦ simp beyond refl
]

-- A number in decimal is read as itself where an int can hold it, with a minus sign as its
-- negative, and otherwise std::stoi throws. As a number of processes, which is a size_t, the
-- negative of a positive n is 2 ^ 64 - n.
pub stoi-to_string :
    (n : ℕ)
    → (stoi (to_string n) ≡ in_range n)
      × (stoi (b'-' ∷ to_string n) ≡ in_range_negative n)
      × ((stoi (b'-' ∷ to_string n) >>= λ z. ok (size_of z)) ≡ as_size_negative n)
unfolding to_string stoi stoi_unsigned
stoi-to_string n =
    let (c, cs, e) = to_string-cons n n in
    let digits = rw e at (to_string-AllDigits (suc n) n) in
    let value = ap (digits_value 0) (sym e) ∙ digits_value-to_string (suc n) n (omega arith) in
    let negative : stoi (b'-' ∷ to_string n) ≡ in_range_negative n =
      signed_minus (to_string n) ∙ rw (e, digits.0, value) in
    (
      rw (e, skip_digit c cs digits.0, signed_digit c cs digits.0, digits.0, value),
      negative,
      ap (λ z. z >>= λ z. ok (size_of z)) negative ∙ size-in_range n,
    )
