-- ===== src/Tests/Global.antt =====
-- A configuration of two pools, of which the second has no sensible count.
use iis_asgi_handler.Prelude.{
  ◌>>=◌, ℕ, zero, suc, ◌-◌, ◌^◌, ◌≡◌, refl, [], ◌∷◌, Option, none, some, pos, negsuc, codes,
  Bytes-discrete, ℕ_discrete, ok, err, Error,
}
use mathlib.Core.Logic.{ite}
use iis_asgi_handler.Request.{to_string}
use iis_asgi_handler.Global.{
  Element, Collection, ProcessPool, WideString, skip_spaces, digits_value, stoi_unsigned,
  stoi_signed, stoi, size_of, get_property, load_element, on_global_application_start,
}
use iis_asgi_handler.Global.Stoi.{stoi-to_string}
use iis_asgi_handler.Global.Loaded.{elements, logic_error_escapes}

abbrev pool_element : WideString → Element
pool_element count = record {
  property = λ name. ite (Bytes-discrete name (codes "executable")) (some (codes "python")) (
      ite (Bytes-discrete name (codes "arguments")) (some (codes "worker"))
        (ite (Bytes-discrete name (codes "count")) (some count) none));
}

abbrev item : ℕ → Option Element
item zero = some (pool_element (codes " 2"))
item (suc n) = some (pool_element (codes "many"))

abbrev two : Collection
two = record { element_count = some 2; item = item }

abbrev first_pool : ProcessPool
first_pool = record { executable = codes "python"; arguments = codes "worker"; num_processes = 2 }

elements_run : elements 2 0 two ≡ ok first_pool ∷ err Error.logic_error ∷ []
unfolding load_element get_property stoi stoi_signed stoi_unsigned digits_value skip_spaces
    Bytes-discrete ℕ_discrete
elements_run = refl

logic_error_run :
    on_global_application_start (some (record { collection = some two })) []
    ≡ (first_pool ∷ [], some Error.logic_error)
logic_error_run = logic_error_escapes two 2 [] (first_pool ∷ []) [] refl elements_run

stoi-to_string_run :
    (stoi (to_string 64) ≡ ok (pos 64))
    × (stoi (b'-' ∷ to_string 64) ≡ ok (negsuc 63))
    × ((stoi (b'-' ∷ to_string 64) >>= λ z. ok (size_of z)) ≡ ok (2 ^ 64 - 64))
stoi-to_string_run = stoi-to_string 64
