-- ===== src/Global/Loaded.antt =====
-- Which pools an application's start leaves, and which exceptions leave it.
use iis_asgi_handler.Prelude.{
  ℕ, zero, suc, ◌+◌, ◌≡◌, refl, sym, ap, ◌∙◌, List, [], ◌∷◌, ◌++◌, map, append-nil, append_assoc,
  none, some, Result, ok, err, Error,
}
use iis_asgi_handler.Global.{
  Collection, ProcessPool, Thrown, load_element, load_elements, load_collection, load_configuration,
  caught, on_global_application_start,
}

-- What each of the elements, from an index on, comes to by itself.
abbrev pub elements : (rounds element_idx : ℕ) → Collection → List (Result ProcessPool)
elements zero i collection = []
elements (suc rounds) i collection =
    load_element (collection.item i) ∷ elements rounds (i + 1) collection

-- The pools before the first element that fails, and its failure.
abbrev pub good : List (Result ProcessPool) → List ProcessPool
good [] = []
good (ok pool ∷ results) = pool ∷ good results
good (err e ∷ results) = []

abbrev pub failure : List (Result ProcessPool) → Thrown
failure [] = none
failure (ok pool ∷ results) = failure results
failure (err e ∷ results) = some e

load_elements_lem :
    (rounds i : ℕ) (collection : Collection) (pools : List ProcessPool)
    → load_elements rounds i collection pools
      ≡ (pools ++ good (elements rounds i collection), failure (elements rounds i collection))
unfolding load_elements
load_elements_lem zero i collection pools = ap (λ l. (l, none)) (sym (append-nil pools))
load_elements_lem (suc rounds) i collection pools =
    one (load_element (collection.item i))
      (λ pool. load_elements_lem rounds (i + 1) collection (pools ++ pool ∷ []))
  where
    rest : List (Result ProcessPool)
    rest = elements rounds (i + 1) collection

    one :
        (result : Result ProcessPool)
        → ((pool : ProcessPool)
            → load_elements rounds (i + 1) collection (pools ++ pool ∷ [])
              ≡ ((pools ++ pool ∷ []) ++ good rest, failure rest))
        → elim result as (λ r. List ProcessPool × Thrown) [
          | ok pool ↦ load_elements rounds (i + 1) collection (pools ++ pool ∷ [])
          | err e ↦ (pools, some e)
        ]
          ≡ (pools ++ good (result ∷ rest), failure (result ∷ rest))
    one (ok pool) later =
        later pool ∙ ap (λ l. (l, failure rest)) (append_assoc pools (pool ∷ []) (good rest))
    one (err e) later = ap (λ l. (l, some e)) (sym (append-nil pools))

pub on_global_application_start-elements :
    (collection : Collection) (n : ℕ) (pools : List ProcessPool)
    → collection.element_count ≡ some n
    → on_global_application_start (some (record { collection = some collection })) pools
      ≡ (pools ++ good (elements n 0 collection), caught (failure (elements n 0 collection)))
unfolding on_global_application_start load_configuration load_collection
on_global_application_start-elements collection n pools counted = simp counted (
    ap (λ (l : List ProcessPool × Thrown). (l.0, caught l.1))
      (load_elements_lem n 0 collection pools))

good-map :
    (specs : List ProcessPool) (rest : List (Result ProcessPool))
    → good (map ok specs ++ rest) ≡ specs ++ good rest
good-map [] rest = refl
good-map (s ∷ specs) rest = ap (◌∷◌ s) (good-map specs rest)

failure-map :
    (specs : List ProcessPool) (rest : List (Result ProcessPool))
    → failure (map ok specs ++ rest) ≡ failure rest
failure-map [] rest = refl
failure-map (s ∷ specs) rest = failure-map specs rest

-- A count that std::stoi refuses, or any other logic_error, after elements that are well formed:
-- their pools are kept, and the exception leaves the module.
pub logic_error_escapes :
    (collection : Collection) (n : ℕ) (pools specs : List ProcessPool)
    (later : List (Result ProcessPool))
    → collection.element_count ≡ some n
    → elements n 0 collection ≡ map ok specs ++ err Error.logic_error ∷ later
    → on_global_application_start (some (record { collection = some collection })) pools
      ≡ (pools ++ specs, some Error.logic_error)
unfolding caught
logic_error_escapes collection n pools specs later counted e =
    on_global_application_start-elements collection n pools counted
    ∙ rw (
      e,
      good-map specs (err Error.logic_error ∷ later),
      failure-map specs (err Error.logic_error ∷ later),
      append-nil specs,
    )
