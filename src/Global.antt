-- ===== src/Global.antt =====
-- ProcessPoolLib/GlobalModule.cpp: the pools that an application's configuration asks for. The
-- configuration system of IIS (ahadmin.h, not part of the repository) is what it answers.
pub mod Stoi
pub mod Loaded
use iis_asgi_handler.Prelude.{
  ℕ, zero, suc, ◌+◌, ◌-◌, ◌*◌, ◌^◌, Bool, true, false, ◌&&◌, ◌||◌, List, [], ◌∷◌, ◌++◌, Option,
  none, some, ℤ, pos, negsuc, codes, ltb, leb, ◌==◌, if◌then◌else◌, Result, ok, err, Error, ◌>>=◌,
  or_err,
}

-- A text of UTF-16 code units.
abbrev pub WideString : Type 0
WideString = List ℕ

-- What the interfaces answer: `none` for an HRESULT that is a failure.
pub record Element : Type 0 where
  pub property : WideString → Option WideString

pub record Collection : Type 0 where
  pub element_count : Option ℕ
  pub item : ℕ → Option Element

pub record Section : Type 0 where
  pub collection : Option Collection

-- The arguments of ProcessPool's constructor, of which the last is a size_t.
pub record ProcessPool : Type 0 where
  pub executable : WideString
  pub arguments : WideString
  pub num_processes : ℕ

abbrev pub is_digit : ℕ → Bool
is_digit c = leb b'0' c && leb c b'9'

abbrev pub is_space : ℕ → Bool
is_space c = c == 32 || (leb 9 c && leb c 13)

unfoldable pub skip_spaces : WideString → WideString
skip_spaces [] = []
skip_spaces (c ∷ cs) = let rest = skip_spaces cs in if is_space c then rest else c ∷ cs

-- The number that the digits at the head make.
unfoldable pub digits_value : ℕ → WideString → ℕ
digits_value n [] = n
digits_value n (c ∷ cs) =
    let more = digits_value (n * 10 + (c - b'0')) cs in if is_digit c then more else n

-- The text behind its sign: std::stoi throws invalid_argument where there is no digit, and
-- out_of_range where an int cannot hold the number. Both are logic_errors.
unfoldable pub stoi_unsigned : (negative : Bool) → WideString → Result ℤ
stoi_unsigned negative [] = err Error.logic_error
stoi_unsigned negative (c ∷ cs) =
    let n = digits_value 0 (c ∷ cs) in
    if is_digit c
    then (if negative
        then (if leb n (2 ^ 31)
            then ok (if n == 0 then pos 0 else negsuc (n - 1))
            else err Error.logic_error)
        else (if ltb n (2 ^ 31) then ok (pos n) else err Error.logic_error))
    else err Error.logic_error

unfoldable pub stoi_signed : WideString → Result ℤ
stoi_signed [] = stoi_unsigned false []
stoi_signed (c ∷ cs) =
    if c == b'-'
    then stoi_unsigned true cs
    else if c == b'+'
    then stoi_unsigned false cs
    else stoi_unsigned false (c ∷ cs)

-- std::stoi()
unfoldable pub stoi : WideString → Result ℤ
stoi s = stoi_signed (skip_spaces s)

-- An int as a size_t, in a build for x64; in one for x86 a size_t has 32 bits.
abbrev pub size_of : ℤ → ℕ
size_of (pos n) = n
size_of (negsuc n) = 2 ^ 64 - (n + 1)

-- GetProperty()
unfoldable pub get_property : Element → WideString → Result WideString
get_property element name = or_err (element.property name) Error.runtime_error

-- The body of the loop of LoadConfiguration(), up to the new pool.
unfoldable pub load_element : Option Element → Result ProcessPool
load_element item = do
  element ← or_err item Error.runtime_error
  executable ← get_property element (codes "executable")
  arguments ← get_property element (codes "arguments")
  text ← get_property element (codes "count")
  count ← stoi text
  ok (record { executable = executable; arguments = arguments; num_processes = size_of count })

-- How a function ended that may have thrown: `none` if it has not.
abbrev pub Thrown : Type 0
Thrown = Option Error

-- The loop, from an index on for so many rounds. The pools made before an exception stay.
unfoldable pub load_elements :
    (rounds element_idx : ℕ) → Collection → List ProcessPool → List ProcessPool × Thrown
load_elements zero element_idx collection pools = (pools, none)
load_elements (suc rounds) element_idx collection pools =
    elim (load_element (collection.item element_idx)) [
      | ok pool ↦ load_elements rounds (element_idx + 1) collection (pools ++ pool ∷ [])
      | err e ↦ (pools, some e)
    ]

unfoldable pub load_collection : Result Collection → List ProcessPool → List ProcessPool × Thrown
load_collection (err e) pools = (pools, some e)
load_collection (ok collection) pools = elim collection.element_count [
  | none ↦ (pools, some Error.runtime_error)
  | some n ↦ load_elements n 0 collection pools
]

-- LoadConfiguration(), with the answer to GetAdminSection().
unfoldable pub load_configuration : Option Section → List ProcessPool → List ProcessPool × Thrown
load_configuration none pools = (pools, none)
load_configuration (some section) pools =
    load_collection (or_err section.collection Error.runtime_error) pools

-- The catch of OnGlobalApplicationStart() takes std::runtime_error.
unfoldable pub caught : Thrown → Thrown
caught (some Error.runtime_error) = none
caught thrown = thrown

-- OnGlobalApplicationStart(): the module's pools, and what leaves it.
unfoldable pub on_global_application_start :
    Option Section → List ProcessPool → List ProcessPool × Thrown
on_global_application_start section pools =
    let (pools', thrown) = load_configuration section pools in (pools', caught thrown)

-- OnGlobalApplicationStop(), of whichever application.
unfoldable pub on_global_application_stop : List ProcessPool → List ProcessPool
on_global_application_stop pools = []
