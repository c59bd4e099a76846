-- ===== src/ProcessPool/Quoting.antt =====
-- ProcessPool::EscapeArgument(), and how a Windows program reads its command line.
use iis_asgi_handler.Prelude.{
  ℕ, zero, suc, ◌+◌, ◌*◌, ◌≡◌, ◌≢◌, refl, sym, ap, ◌∙◌, ◌⊎◌, inl, inr, Bool, true, false,
  Bool-cases, List, [], ◌∷◌, ◌++◌, append_assoc, append-nil, replicate, ◌==◌, arith,
}
use iis_asgi_handler.ProcessPool.{backslash, quote, needs_quotes, escape_from, escape_argument}

-- How a Windows program splits its command line (the rules that the source refers to): at the start
-- of an argument, or inside a quotation, `read quoted line` gives it and what is left of the line.
pub record ArgumentReader : Type 0 where
  pub read : Bool → List ℕ → List ℕ × List ℕ

abbrev pub prepend : List ℕ → List ℕ × List ℕ → List ℕ × List ℕ
prepend text (argument, rest) = (text ++ argument, rest)

-- Where an argument ends: at the end of the line, or at a space.
abbrev pub Ends : List ℕ → Type 0
Ends rest = (rest ≡ []) ⊎ ((line : List ℕ) × (rest ≡ 32 ∷ line))

-- A text without what ends an argument or opens a quotation: a space, a tab or a quotation mark.
abbrev pub Unbroken : List ℕ → Type 0
Unbroken [] = Unit {0}
Unbroken (c ∷ cs) = (c ≢ 32) × (c ≢ 9) × (c ≢ 34) × Unbroken cs

pub record Rules (reader : ArgumentReader) : Type 0 where
  -- 2n backslashes and a quotation mark: n backslashes, and the mark opens or closes a quotation.
  -- Used where the mark is not followed by another.
  pub opens : (line : List ℕ) → reader.read false (quote ∷ line) ≡ reader.read true line
  pub closes :
      (n : ℕ) (rest : List ℕ)
      → Ends rest
      → reader.read true (replicate (n * 2) backslash ++ quote ∷ rest)
        ≡ (replicate n backslash, rest)
  -- 2n + 1 backslashes and a quotation mark: n backslashes and the mark itself.
  pub marks :
      (n : ℕ) (line : List ℕ)
      → reader.read true (replicate (n * 2 + 1) backslash ++ quote ∷ line)
        ≡ prepend (replicate n backslash ++ quote ∷ []) (reader.read true line)
  -- Backslashes before another character are themselves. Inside a quotation so is a space.
  pub stands :
      (n c : ℕ) (line : List ℕ)
      → (c == backslash) ≡ false
      → (c == quote) ≡ false
      → reader.read true (replicate n backslash ++ c ∷ line)
        ≡ prepend (replicate n backslash ++ c ∷ []) (reader.read true line)
  -- Outside one, a text without spaces, tabs and marks is itself, up to where the argument ends.
  pub plain :
      (text rest : List ℕ)
      → text ≢ []
      → Unbroken text
      → Ends rest
      → reader.read false (text ++ rest) ≡ (text, rest)

-- What the code leaves without quotes.
needs_quotes-Unbroken : (text : List ℕ) → needs_quotes text ≡ false → Unbroken text
unfolding needs_quotes
needs_quotes-Unbroken [] e = tt
needs_quotes-Unbroken (c ∷ cs) e = (
  λ same. ground (arith, e, same),
  λ same. ground (arith, e, same),
  λ same. ground (arith, e, same),
  needs_quotes-Unbroken cs (ground (arith, e)),
)

pub replicate_shift : (n b : ℕ) (cs : List ℕ) → replicate (suc n) b ++ cs ≡ replicate n b ++ b ∷ cs
replicate_shift zero b cs = refl
replicate_shift (suc n) b cs = ap (◌∷◌ b) (replicate_shift n b cs)

module _ (reader : ArgumentReader) (rules : Rules reader) where
  read_escaped :
      (n : ℕ) (argument rest : List ℕ)
      → Ends rest
      → reader.read true (escape_from n argument ++ rest)
        ≡ (replicate n backslash ++ argument, rest)
  unfolding escape_from
  read_escaped n [] rest ends =
      ap (reader.read true) (append_assoc (replicate (n * 2) backslash) (quote ∷ []) rest)
      ∙ rules.closes n rest ends
      ∙ ap (λ text. (text, rest)) (sym (append-nil (replicate n backslash)))
  read_escaped n (c ∷ cs) rest ends = elim (Bool-cases (c == backslash)) [
    | inl b ↦
        let same : c ≡ backslash = ground arith in
        rw b (
          read_escaped (suc n) cs rest ends
          ∙ ap (λ text. (text, rest))
              (replicate_shift n backslash cs
                ∙ ap (λ d. replicate n backslash ++ d ∷ cs) (sym same)))
    | inr b ↦ elim (Bool-cases (c == quote)) [
      | inl q ↦
          let same : c ≡ quote = ground arith in
          rw (b, q)
            (ap (reader.read true)
                (append_assoc (replicate (n * 2 + 1) backslash) (quote ∷ escape_from 0 cs) rest)
              ∙ rules.marks n (escape_from 0 cs ++ rest)
              ∙ ap (prepend (replicate n backslash ++ quote ∷ [])) (read_escaped 0 cs rest ends)
              ∙ ap (λ text. (text, rest))
                  (append_assoc (replicate n backslash) (quote ∷ []) cs
                    ∙ ap (λ d. replicate n backslash ++ d ∷ cs) (sym same)))
      | inr q ↦
          rw (b, q)
            (ap (reader.read true)
                (append_assoc (replicate n backslash) (c ∷ escape_from 0 cs) rest)
              ∙ rules.stands n c (escape_from 0 cs ++ rest) b q
              ∙ ap (prepend (replicate n backslash ++ c ∷ [])) (read_escaped 0 cs rest ends)
              ∙ ap (λ text. (text, rest)) (append_assoc (replicate n backslash) (c ∷ []) cs))
    ]
  ]

  -- By the rules by which a Windows program splits its command line, an escaped argument that
  -- is not empty, in front of a space or the end of the line is read back as the argument, and the
  -- rest is left.
  pub read-escape_argument :
      (argument rest : List ℕ)
      → argument ≢ []
      → Ends rest
      → reader.read false (escape_argument argument ++ rest) ≡ (argument, rest)
  unfolding escape_argument
  read-escape_argument argument rest some_text ends = elim (Bool-cases (needs_quotes argument)) [
    | inl q ↦
        rw q (rules.opens (escape_from 0 argument ++ rest) ∙ read_escaped 0 argument rest ends)
    | inr q ↦ rw q (rules.plain argument rest some_text (needs_quotes-Unbroken argument q) ends)
  ]
