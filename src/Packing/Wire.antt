-- ===== src/Packing/Wire.antt =====
-- msgpack's values, as its format documents them, and a reader of them that knows nothing of the
-- messages: lengths come first, and a map or an array is as long as it says.
use iis_asgi_handler.Prelude.{
  ℕ, zero, suc, ◌<◌, ◌^◌, List, ◌∷◌, Option, none, some, Bytes, length, ◌==◌, if◌then◌else◌,
}
use iis_asgi_handler.Packing.{
  Token, pack_map, pack_array, pack_str, pack_bin, pack_str_body, pack_bin_body, pack_int,
}

mutual
  pub data Value : Type 0 where
    str bin : Bytes → Value
    int : ℕ → Value
    array : Values → Value
    map : Entries → Value

  pub data Values : Type 0 where
    nil : Values
    cons : Value → Values → Values

  -- A map's keys are texts.
  pub data Entries : Type 0 where
    end : Entries
    entry : Bytes → Value → Entries → Entries

abbrev pub count : Values → ℕ
count nil = 0
count (cons v vs) = suc (count vs)

abbrev pub count_entries : Entries → ℕ
count_entries end = 0
count_entries (entry k v es) = suc (count_entries es)

-- Every length can be passed as a uint32_t.
abbrev mutual
  pub Sized : Value → Type 0
  Sized (str s) = length s < 2 ^ 32
  Sized (bin s) = length s < 2 ^ 32
  Sized (int n) = Unit {0}
  Sized (array vs) = (count vs < 2 ^ 32) × SizedValues vs
  Sized (map es) = (count_entries es < 2 ^ 32) × SizedEntries es

  pub SizedValues : Values → Type 0
  SizedValues nil = Unit {0}
  SizedValues (cons v vs) = Sized v × SizedValues vs

  pub SizedEntries : Entries → Type 0
  SizedEntries end = Unit {0}
  SizedEntries (entry k v es) = (length k < 2 ^ 32) × Sized v × SizedEntries es

unfoldable pub read_str : ℕ → Bytes → List Token → Option (Bytes × List Token)
read_str n s rest = if length s == n then some (s, rest) else none

unfoldable pub read_key : List Token → Option (Bytes × List Token)
unfolding read_str
read_key (pack_str n ∷ pack_str_body s ∷ rest) = read_str n s rest
read_key _ = none

infixl 5 ◌>>=◌
abbrev pub ◌>>=◌ {ℓ κ} : {A : Type ℓ} {B : Type κ} → Option A → (A → Option B) → Option B
none >>= f = none
some a >>= f = f a

-- The value at the head, and what follows it; on fuel.
unfoldable mutual
  unfolding read_str read_key

  pub read : ℕ → List Token → Option (Value × List Token)
  read (suc fuel) (pack_str n ∷ pack_str_body s ∷ rest) =
      read_str n s rest >>= λ (s', rest'). some (str s', rest')
  read (suc fuel) (pack_bin n ∷ pack_bin_body s ∷ rest) =
      read_str n s rest >>= λ (s', rest'). some (bin s', rest')
  read (suc fuel) (pack_int n ∷ rest) = some (int n, rest)
  read (suc fuel) (pack_array n ∷ rest) =
      read_values fuel n rest >>= λ (vs, rest'). some (array vs, rest')
  read (suc fuel) (pack_map n ∷ rest) =
      read_entries fuel n rest >>= λ (es, rest'). some (map es, rest')
  read _ _ = none

  pub read_values : ℕ → ℕ → List Token → Option (Values × List Token)
  read_values fuel zero tokens = some (nil, tokens)
  read_values zero (suc n) tokens = none
  read_values (suc fuel) (suc n) tokens = do
    (v, rest) ← read fuel tokens
    (vs, rest') ← read_values fuel n rest
    some (cons v vs, rest')

  pub read_entries : ℕ → ℕ → List Token → Option (Entries × List Token)
  read_entries fuel zero tokens = some (end, tokens)
  read_entries zero (suc n) tokens = none
  read_entries (suc fuel) (suc n) tokens = do
    (k, rest) ← read_key tokens
    (v, rest') ← read fuel rest
    (es, rest'') ← read_entries fuel n rest'
    some (entry k v es, rest'')
