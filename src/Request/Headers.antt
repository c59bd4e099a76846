-- ===== src/Request/Headers.antt =====
-- The headers that the application is shown.
use iis_asgi_handler.Prelude.{
  ℕ, zero, suc, ◌+◌, ◌<◌, ◌≡◌, ◌≢◌, ◌↔◌, refl, sym, ap, ap₂, subst, ◌∙◌, ◌⊎◌, inl, inr, true, List,
  [], ◌∷◌, ◌++◌, Bytes, length, codes, some, get_elem?, get_or, ltb, Bool-cases, arith,
}
use mathlib.Core.List.{Memᴰ}
use iis_asgi_handler.Messages.{Header}
use iis_asgi_handler.Request.{
  RawRequest, known_header_name, known_header_map, known_headers_from, get_request_headers,
}

-- Where a header of the result comes from: a known header with a value that is not empty, under the
-- name of its index, or an unknown header as it is.
pub data Shown (r : RawRequest) (h : Header) : Type 0 where
  known :
      (i : ℕ) (value : Bytes)
      → get_elem? r.known_headers i ≡ some value
      → 0 < length value
      → h ≡ (known_header_name i, value)
      → Shown r h
  unknown : Memᴰ h r.unknown_headers → Shown r h

mem-cons {ℓ} : {A : Type ℓ} {a x : A} {xs : List A} → Memᴰ a (x ∷ xs) → (a ≡ x) ⊎ Memᴰ a xs
mem-cons (Memᴰ.head e) = inl e
mem-cons (Memᴰ.tail m) = inr m

mem-append {ℓ} : {A : Type ℓ} {a : A} (xs ys : List A) → Memᴰ a (xs ++ ys) → Memᴰ a xs ⊎ Memᴰ a ys
mem-append [] ys m = inr m
mem-append (x ∷ xs) ys (Memᴰ.head e) = inl (Memᴰ.head e)
mem-append (x ∷ xs) ys (Memᴰ.tail m) = elim (mem-append xs ys m) [
  | inl l ↦ inl (Memᴰ.tail l)
  | inr r ↦ inr r
]

mem-append_left {ℓ} : {A : Type ℓ} {a : A} (xs ys : List A) → Memᴰ a xs → Memᴰ a (xs ++ ys)
mem-append_left [] ys m = elim m [ ]
mem-append_left (x ∷ xs) ys (Memᴰ.head e) = Memᴰ.head e
mem-append_left (x ∷ xs) ys (Memᴰ.tail m) = Memᴰ.tail (mem-append_left xs ys m)

mem-append_right {ℓ} : {A : Type ℓ} {a : A} (xs ys : List A) → Memᴰ a ys → Memᴰ a (xs ++ ys)
mem-append_right [] ys m = m
mem-append_right (x ∷ xs) ys m = Memᴰ.tail (mem-append_right xs ys m)

-- The loop over the known headers, from index `i` on.
mem-known_headers_from :
    (i : ℕ) (values : List Bytes) (j k : ℕ) (value : Bytes)
    → i + j ≡ k
    → get_elem? values j ≡ some value
    → 0 < length value
    → Memᴰ (known_header_name k, value) (known_headers_from i values)
unfolding known_headers_from
mem-known_headers_from i [] j k value s e pos = absurd (cc)
mem-known_headers_from i (v ∷ values) zero k value s e pos =
    let shown : ltb 0 (length v) ≡ true = ground arith in
    rw shown (Memᴰ.head (ap₂ (λ a b. (known_header_name a, b)) (omega arith) (cc)))
mem-known_headers_from i (v ∷ values) (suc j) k value s e pos =
    let there = mem-known_headers_from (suc i) values j k value (omega arith) e pos in
    elim (Bool-cases (ltb 0 (length v))) [
      | inl shown ↦ rw shown (Memᴰ.tail there)
      | inr skipped ↦ rw skipped there
    ]

known_headers_from-Shown :
    (r : RawRequest) (i : ℕ) (values : List Bytes) (h : Header)
    → ((j : ℕ) → get_elem? values j ≡ get_elem? r.known_headers (i + j))
    → Memᴰ h (known_headers_from i values)
    → Shown r h
unfolding known_headers_from
known_headers_from-Shown r i [] h same m = elim m [ ]
known_headers_from-Shown r i (v ∷ values) h same m =
    let later : (j : ℕ) → get_elem? values j ≡ get_elem? r.known_headers (suc i + j) =
      λ j. same (suc j) ∙ ap (get_elem? r.known_headers) (omega arith) in
    elim (Bool-cases (ltb 0 (length v))) [
      | inl shown ↦ elim (mem-cons (rw (shown, known_headers_from) at m)) [
        | inl e ↦
            known i v (sym (same 0 ∙ ap (get_elem? r.known_headers) (omega arith))) (ground arith) e
        | inr m' ↦ known_headers_from-Shown r (suc i) values h later m'
      ]
      | inr skipped ↦
          known_headers_from-Shown r (suc i) values h later (rw (skipped, known_headers_from) at m)
    ]

-- The application is shown exactly the known headers that are not empty, each under the name that
-- the table has for it, and the unknown headers.
pub get_request_headers-Shown :
    (r : RawRequest) (h : Header) → Memᴰ h (get_request_headers r) ↔ Shown r h
unfolding get_request_headers
get_request_headers-Shown r h = (to, from)
  where
    to : Memᴰ h (known_headers_from 0 r.known_headers ++ r.unknown_headers) → Shown r h
    to m = elim (mem-append (known_headers_from 0 r.known_headers) r.unknown_headers m) [
      | inl k ↦
          known_headers_from-Shown r 0 r.known_headers h
            (λ j. ap (get_elem? r.known_headers) (omega arith)) k
      | inr u ↦ unknown u
    ]

    from : Shown r h → Memᴰ h (known_headers_from 0 r.known_headers ++ r.unknown_headers)
    from (known i value e pos name) = mem-append_left _ _ (
        subst (λ x. Memᴰ x (known_headers_from 0 r.known_headers)) (sym name)
          (mem-known_headers_from 0 r.known_headers i i value (omega arith) e pos))
    from (unknown m) = mem-append_right _ _ m

-- HttpHeaderContentType
abbrev pub content_type : ℕ
content_type = 12

-- No entry of a list, nor the empty text, is `name`.
abbrev Differ : List Bytes → Bytes → Type 0
Differ [] name = [] ≢ name
Differ (x ∷ xs) name = (x ≢ name) × Differ xs name

get_or-ne : (xs : List Bytes) (name : Bytes) (i : ℕ) → Differ xs name → get_or xs i [] ≢ name
get_or-ne [] name i d = d
get_or-ne (x ∷ xs) name zero d = d.0
get_or-ne (x ∷ xs) name (suc i) d = get_or-ne xs name i d.1

names-Differ : Differ known_header_map (codes "Content-Type")
unfolding known_header_map
names-Differ = ground arith

-- The Content-Type of a request is always shown under the name "ContentType", and no known header
-- is ever shown under the name "Content-Type".
pub content_type_misnamed :
    (r : RawRequest) (value : Bytes)
    → get_elem? r.known_headers content_type ≡ some value
    → 0 < length value
    → Memᴰ (codes "ContentType", value) (get_request_headers r)
      × ((i : ℕ) → known_header_name i ≢ codes "Content-Type")
unfolding known_header_name
content_type_misnamed r value e pos = (
  (get_request_headers-Shown r (codes "ContentType", value)).1
      (known content_type value e pos refl),
  λ i. get_or-ne known_header_map (codes "Content-Type") i names-Differ,
)
