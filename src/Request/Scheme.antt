-- ===== src/Request/Scheme.antt =====
-- GetRequestScheme() of AsgiHandlerLib/RequestHandler.cpp.
use iis_asgi_handler.Prelude.{
  ℕ, suc, ◌≡◌, refl, ap, ◌⊎◌, inl, inr, false, List, [], ◌∷◌, ◌++◌, take, none, some, ◌==◌, arith,
  Bool-cases,
}
use iis_asgi_handler.Request.{find, scheme_of}

-- `c` does not stand in the text.
abbrev pub Lacks : ℕ → List ℕ → Type 0
Lacks c [] = Unit {0}
Lacks c (x ∷ xs) = ((x == c) ≡ false) × Lacks c xs

-- A text either lacks the character, or is split at its first occurrence.
find-first :
    (c : ℕ) (xs : List ℕ)
    → ((find c xs ≡ none) × Lacks c xs)
      ⊎ ((i : ℕ) × (rest : List ℕ) × (find c xs ≡ some i)
          × Lacks c (take i xs)
          × (xs ≡ take i xs ++ c ∷ rest))
unfolding find
find-first c [] = inl (refl, tt)
find-first c (x ∷ xs) = elim (Bool-cases (x == c)) [
  | inl e ↦ inr (0, xs, rw (e, find), tt, ap (λ y. y ∷ xs) (ground arith))
  | inr e ↦ elim (find-first c xs) [
    | inl (p, l) ↦ inl (rw (e, find, p), (e, l))
    | inr (i, rest, p, l, q) ↦ inr (suc i, rest, rw (e, find, p), (e, l), ap (◌∷◌ x) q)
  ]
]

-- The scheme holds no colon. It is the part of the URL before its first colon, and empty if the URL
-- has none.
pub scheme_of-first_colon :
    (url : List ℕ)
    → Lacks b':' (scheme_of url)
      × (((rest : List ℕ) × (url ≡ scheme_of url ++ b':' ∷ rest))
          ⊎ (Lacks b':' url × (scheme_of url ≡ [])))
unfolding scheme_of
scheme_of-first_colon url = elim (find-first b':' url) [
  | inl (p, l) ↦ rw (p, scheme_of) (tt, inr (l, refl))
  | inr (i, rest, p, l, q) ↦ rw (p, scheme_of) (l, inl (rest, q))
]
