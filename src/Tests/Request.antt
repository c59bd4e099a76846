-- ===== src/Tests/Request.antt =====
-- A POST with a body of two bytes, a Content-Type and one header that IIS does not know.
use iis_asgi_handler.Prelude.{
  ℕ, ◌+◌, ◌*◌, ◌≡◌, refl, ◌↔◌, ◌⊎◌, take, drop, List, [], ◌∷◌, ◌++◌, length, codes, replicate,
  arith,
}
use mathlib.Core.List.{Memᴰ}
use iis_asgi_handler.Channels.{Engine, new_channel}
use iis_asgi_handler.Channels.Names.{AllNameChars, new_channel-prefix}
use iis_asgi_handler.Request.{
  RawRequest, WideField, scheme_of, get_request_http_version, known_header_name,
  get_request_headers,
}
use iis_asgi_handler.Request.Headers.{Shown, get_request_headers-Shown, content_type_misnamed}
use iis_asgi_handler.Request.Scheme.{scheme_of-first_colon, Lacks}

-- Draws 0, 1, 2 and so on.
abbrev pub counter : Engine
counter = record { State = ℕ; draw = λ s. (s, s + 1) }

abbrev pub field : List ℕ → WideField
field units = record { units = units; byte_length = 2 * length units }

abbrev pub post : RawRequest
post = record {
  http_ver_major = 1;
  http_ver_minor = 1;
  http_method = codes "POST";
  full_url = field (codes "http://h/p");
  abs_path = field (codes "/p");
  query_string = field [];
  known_headers = replicate 12 [] ++ codes "text/plain" ∷ replicate 28 [];
  unknown_headers = (codes "X-A", codes "1") ∷ [];
}

http_version_runs : get_request_http_version post ≡ codes "1.1"
unfolding get_request_http_version
http_version_runs = refl

scheme_runs : scheme_of (codes "http://h/p") ≡ codes "http"
unfolding scheme_of
scheme_runs = refl

headers_run :
    get_request_headers post
    ≡ (codes "ContentType", codes "text/plain") ∷ (codes "X-A", codes "1") ∷ []
unfolding get_request_headers known_header_name
headers_run = refl

content_type_misnamed_example :
    Memᴰ (codes "ContentType", codes "text/plain") (get_request_headers post)
    × ((i : ℕ) → known_header_name i ≡ codes "Content-Type" → ⊥)
content_type_misnamed_example = content_type_misnamed post (codes "text/plain") refl (omega arith)

get_request_headers-Shown_example :
    Memᴰ (codes "X-A", codes "1") (get_request_headers post) ↔ Shown post (codes "X-A", codes "1")
get_request_headers-Shown_example = get_request_headers-Shown post (codes "X-A", codes "1")

scheme_of-first_colon_run :
    Lacks b':' (scheme_of (codes "http://h/p"))
    × (((rest : List ℕ) × (codes "http://h/p" ≡ scheme_of (codes "http://h/p") ++ b':' ∷ rest))
        ⊎ (Lacks b':' (codes "http://h/p") × (scheme_of (codes "http://h/p") ≡ [])))
scheme_of-first_colon_run = scheme_of-first_colon (codes "http://h/p")

new_channel-prefix_run :
    let name = (new_channel counter (codes "http.request!") 60).0 in
    (take 13 name ≡ codes "http.request!") × (length name ≡ 23) × AllNameChars (drop 13 name)
new_channel-prefix_run = new_channel-prefix counter (codes "http.request!") 60
