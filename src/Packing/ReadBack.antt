-- ===== src/Packing/ReadBack.antt =====
-- msgpack's values as calls of its packer, and the reader on them.
use iis_asgi_handler.Prelude.{
  ℕ, zero, suc, ◌+◌, ◌^◌, ◌≤◌, ◌<◌, ◌≡◌, refl, true, List, [], ◌∷◌, ◌++◌, append_assoc, some, Bytes,
  length, ◌==◌, arith,
}
use iis_asgi_handler.Packing.{
  Token, pack_map, pack_array, pack_int, uint32, pack_string, pack_bytestring, call,
}
use iis_asgi_handler.Packing.Wire.{
  Value, str, bin, int, array, map, Values, nil, cons, Entries, end, entry, count, count_entries,
  Sized, SizedValues, SizedEntries, read_str, read_key, read, read_values, read_entries,
}

-- How a value is written.
unfoldable mutual
  pub tokens : Value → List Token
  tokens (str s) = pack_string s
  tokens (bin s) = pack_bytestring s
  tokens (int n) = call (pack_int n)
  tokens (array vs) = pack_array (uint32 (count vs)) ∷ tokens_values vs
  tokens (map es) = pack_map (uint32 (count_entries es)) ∷ tokens_entries es

  pub tokens_values : Values → List Token
  tokens_values nil = []
  tokens_values (cons v vs) = tokens v ++ tokens_values vs

  pub tokens_entries : Entries → List Token
  tokens_entries end = []
  tokens_entries (entry k v es) = pack_string k ++ (tokens v ++ tokens_entries es)

-- The fuel that reading it takes.
abbrev mutual
  pub weight : Value → ℕ
  weight (str s) = 1
  weight (bin s) = 1
  weight (int n) = 1
  weight (array vs) = suc (weight_values vs)
  weight (map es) = suc (weight_entries es)

  pub weight_values : Values → ℕ
  weight_values nil = 0
  weight_values (cons v vs) = suc (weight v + weight_values vs)

  pub weight_entries : Entries → ℕ
  weight_entries end = 0
  weight_entries (entry k v es) = suc (weight v + weight_entries es)

read_str_lem :
    (s : Bytes) (rest : List Token)
    → length s < 2 ^ 32
    → read_str (uint32 (length s)) s rest ≡ some (s, rest)
unfolding read_str
read_str_lem s rest h = let e : (length s == uint32 (length s)) ≡ true = ground arith in rw e

weight_pos : (v : Value) → 0 < weight v
weight_pos (str s) = omega arith
weight_pos (bin s) = omega arith
weight_pos (int n) = omega arith
weight_pos (array vs) = omega arith
weight_pos (map es) = omega arith

mutual
  unfolding tokens read read_key

  read-tokens_lem :
      (v : Value) (fuel : ℕ) (rest : List Token)
      → weight v ≤ fuel
      → Sized v
      → read fuel (tokens v ++ rest) ≡ some (v, rest)
  read-tokens_lem v zero rest h sized = absurd (omega (arith, weight_pos v))
  read-tokens_lem (str s) (suc fuel) rest h sized = rw (read_str_lem s rest sized)
  read-tokens_lem (bin s) (suc fuel) rest h sized = rw (read_str_lem s rest sized)
  read-tokens_lem (int n) (suc fuel) rest h sized = refl
  read-tokens_lem (array vs) (suc fuel) rest h sized =
      let e : uint32 (count vs) ≡ count vs = omega (arith, sized.0) in
      rw (e, read_values-tokens vs fuel rest (omega arith) sized.1)
  read-tokens_lem (map es) (suc fuel) rest h sized =
      let e : uint32 (count_entries es) ≡ count_entries es = omega (arith, sized.0) in
      rw (e, read_entries-tokens es fuel rest (omega arith) sized.1)

  read_values-tokens :
      (vs : Values) (fuel : ℕ) (rest : List Token)
      → weight_values vs ≤ fuel
      → SizedValues vs
      → read_values fuel (count vs) (tokens_values vs ++ rest) ≡ some (vs, rest)
  read_values-tokens nil fuel rest h sized = refl
  read_values-tokens (cons v vs) zero rest h sized = absurd (omega arith)
  read_values-tokens (cons v vs) (suc fuel) rest h sized = rw (
    append_assoc (tokens v) (tokens_values vs) rest,
    read-tokens_lem v fuel (tokens_values vs ++ rest) (omega arith) sized.0,
    read_values-tokens vs fuel rest (omega arith) sized.1,
  )

  read_entries-tokens :
      (es : Entries) (fuel : ℕ) (rest : List Token)
      → weight_entries es ≤ fuel
      → SizedEntries es
      → read_entries fuel (count_entries es) (tokens_entries es ++ rest) ≡ some (es, rest)
  read_entries-tokens end fuel rest h sized = refl
  read_entries-tokens (entry k v es) zero rest h sized = absurd (omega arith)
  read_entries-tokens (entry k v es) (suc fuel) rest h sized = rw (
    append_assoc (tokens v) (tokens_entries es) rest,
    read_str_lem k (tokens v ++ (tokens_entries es ++ rest)) sized.0,
    read-tokens_lem v fuel (tokens_entries es ++ rest) (omega arith) sized.1,
    read_entries-tokens es fuel rest (omega arith) sized.2,
  )

-- A value whose lengths fit is read back as it was, and what follows it is left.
pub read-tokens :
    (v : Value) (fuel : ℕ) (rest : List Token)
    → weight v ≤ fuel
    → Sized v
    → read fuel (tokens v ++ rest) ≡ some (v, rest)
read-tokens v fuel rest h sized = read-tokens_lem v fuel rest h sized
