-- ===== src/Channels/Names.antt =====
-- What a random name can look like.
use iis_asgi_handler.Prelude.{
  ℕ, zero, suc, ◌+◌, ◌%◌, ◌<◌, ◌≡◌, refl, ap, Bool, true, false, ◌&&◌, ◌||◌, [], ◌∷◌, Bytes, length,
  length-append, take, take-append_self, drop, drop-append, get_or, leb, arith,
}
use iis_asgi_handler.Channels.{Engine, charset, max_index, generate_random_ascii, new_channel}

-- An ASCII letter or digit other than 'z'.
abbrev pub is_name_char : ℕ → Bool
is_name_char c =
    (leb b'0' c && leb c b'9') || (leb b'A' c && leb c b'Z') || (leb b'a' c && leb c b'y')

abbrev pub AllNameChars : Bytes → Type 0
AllNameChars [] = Unit {0}
AllNameChars (c ∷ s) = (is_name_char c ≡ true) × AllNameChars s

-- The first characters of the set are those of names.
names_first : ℕ → Bytes → Bool
names_first zero cs = true
names_first (suc n) [] = false
names_first (suc n) (c ∷ cs) = is_name_char c && names_first n cs

get_or-names_first :
    (cs : Bytes) (n i : ℕ) → names_first n cs ≡ true → i < n → is_name_char (get_or cs i 0) ≡ true
unfolding names_first
get_or-names_first cs zero i h lt = absurd (omega arith)
get_or-names_first [] (suc n) i h lt = absurd (cc)
get_or-names_first (c ∷ cs) (suc n) zero h lt = ground arith
get_or-names_first (c ∷ cs) (suc n) (suc i) h lt =
    get_or-names_first cs n i (ground arith) (omega arith)

charset_table : names_first max_index charset ≡ true
unfolding names_first
charset_table = refl

drawn : (r : ℕ) → is_name_char (get_or charset (r % max_index) 0) ≡ true
drawn r = get_or-names_first charset max_index (r % max_index) charset_table (omega arith)

module _ (engine : Engine) where
  -- A random name has the length asked for and consists of letters and digits, but never of a 'z':
  -- the index is taken modulo `strlen(charset) - 1`, so the last character is never drawn.
  pub generate_random_ascii-AllNameChars :
      (n : ℕ) (s : engine.State)
      → (length (generate_random_ascii engine n s).0 ≡ n)
        × AllNameChars (generate_random_ascii engine n s).0
  unfolding generate_random_ascii
  generate_random_ascii-AllNameChars zero s = (refl, tt)
  generate_random_ascii-AllNameChars (suc n) s =
      let (size, chars) = generate_random_ascii-AllNameChars n (engine.draw s).1 in
      (ap suc size, (drawn (engine.draw s).0, chars))

  -- The name of a new channel is the prefix followed by ten such characters.
  pub new_channel-prefix :
      (prefix : Bytes) (s : engine.State)
      → let name = (new_channel engine prefix s).0 in
        (take (length prefix) name ≡ prefix)
        × (length name ≡ length prefix + 10)
        × AllNameChars (drop (length prefix) name)
  unfolding new_channel
  new_channel-prefix prefix s = (
    take-append_self prefix random (length prefix) refl,
    omega (arith, length-append prefix random, size),
    rw (drop-append prefix random 0 (length prefix) (omega arith)) chars,
  )
    where
      random : Bytes
      random = (generate_random_ascii engine 10 s).0

      size : length random ≡ 10
      size = (generate_random_ascii-AllNameChars 10 s).0

      chars : AllNameChars random
      chars = (generate_random_ascii-AllNameChars 10 s).1
