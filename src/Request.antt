-- ===== src/Request.antt =====
-- AsgiHandlerLib/RequestHandler.cpp: what a handler takes from the request that IIS gives it.
pub mod Scheme
pub mod Headers
use iis_asgi_handler.Prelude.{
  ℕ, zero, suc, ◌+◌, ◌/◌, ◌%◌, Bool, true, false, List, [], ◌∷◌, ◌++◌, Option, none, some, Bytes,
  length, take, get_or, codes, ltb, leb, ◌==◌, if◌then◌else◌,
}
use iis_asgi_handler.Messages.{Header}

-- A pointer to UTF-16 code units, and the length in bytes that goes with it.
pub record WideField : Type 0 where
  pub units : List ℕ
  pub byte_length : ℕ

-- The parts of HTTP_REQUEST and IHttpRequest that are read. `known_headers` is the array of raw
-- values that is indexed by HTTP_HEADER_ID.
pub record RawRequest : Type 0 where
  pub http_ver_major : ℕ
  pub http_ver_minor : ℕ
  pub http_method : Bytes
  pub full_url : WideField
  pub abs_path : WideField
  pub query_string : WideField
  pub known_headers : List Bytes
  pub unknown_headers : List Header

-- `std::wstring(p, length / sizeof(wchar_t))`
unfoldable pub wide : WideField → List ℕ
wide f = take (f.byte_length / 2) f.units

-- `std::to_string`: decimal digits. A USHORT has five at most.
unfoldable pub to_string_fuel : ℕ → ℕ → Bytes
to_string_fuel zero n = []
to_string_fuel (suc fuel) n =
    let high = to_string_fuel fuel (n / 10) in
    let digit = (b'0' + n % 10) ∷ [] in if ltb n 10 then digit else high ++ digit

unfoldable pub to_string : ℕ → Bytes
unfolding to_string_fuel
to_string n = to_string_fuel (suc n) n

-- RequestHandler::GetRequestHttpVersion()
unfoldable pub get_request_http_version : RawRequest → Bytes
unfolding to_string
get_request_http_version r =
    if r.http_ver_major == 1
    then to_string r.http_ver_major ++ (codes "." ++ to_string r.http_ver_minor)
    else to_string r.http_ver_major

-- `url.find(c)`, with `none` for `npos`.
unfoldable pub find : ℕ → List ℕ → Option ℕ
find c [] = none
find c (x ∷ xs) = elim (x == c) [
  | true ↦ some 0
  | false ↦ elim (find c xs) [ none ↦ none | some i ↦ some (suc i) ]
]

unfoldable pub scheme_of : List ℕ → List ℕ
unfolding find
scheme_of url = elim (find b':' url) [ none ↦ [] | some colon_idx ↦ take colon_idx url ]

-- `to_bytes` is `std::wstring_convert<std::codecvt_utf8<wchar_t>>::to_bytes`.
module _ (to_bytes : List ℕ → Bytes) where
  -- RequestHandler::GetRequestScheme()
  unfoldable pub get_request_scheme : RawRequest → Bytes
  unfolding scheme_of wide
  get_request_scheme r = to_bytes (scheme_of (wide r.full_url))

  -- RequestHandler::GetRequestPath()
  unfoldable pub get_request_path : RawRequest → Bytes
  unfolding wide
  get_request_path r = to_bytes (wide r.abs_path)

  -- RequestHandler::GetRequestQueryString()
  unfoldable pub get_request_query_string : RawRequest → Bytes
  unfolding wide
  get_request_query_string r = to_bytes (wide r.query_string)

-- `kKnownHeaderMap`, in the order of HTTP_HEADER_ID in http.h.
pub known_header_map : List Bytes
known_header_map =
    codes "Cache-Control"
    ∷ codes "Connection"
    ∷ codes "Date"
    ∷ codes "Keep-Alive"
    ∷ codes "Pragma"
    ∷ codes "Trailer"
    ∷ codes "Transfer-Encoding"
    ∷ codes "Upgrade"
    ∷ codes "Via"
    ∷ codes "Warning"
    ∷ codes "Allow"
    ∷ codes "Content-Length"
    ∷ codes "ContentType"
    ∷ codes "Content-Encoding"
    ∷ codes "Content-Language"
    ∷ codes "Content-Location"
    ∷ codes "Content-Md5"
    ∷ codes "Content-Range"
    ∷ codes "Expires"
    ∷ codes "Last-Modified"
    ∷ codes "Accept"
    ∷ codes "Accept-Charset"
    ∷ codes "Accept-Encoding"
    ∷ codes "Accept-Language"
    ∷ codes "Authorization"
    ∷ codes "Cookie"
    ∷ codes "Expect"
    ∷ codes "From"
    ∷ codes "Host"
    ∷ codes "If-Match"
    ∷ codes "If-Modified-Since"
    ∷ codes "If-None-Match"
    ∷ codes "If-Range"
    ∷ codes "If-Unmodified-Since"
    ∷ codes "Max-Forwards"
    ∷ codes "Proxy-Authorization"
    ∷ codes "Referer"
    ∷ codes "Range"
    ∷ codes "Te"
    ∷ codes "Translate"
    ∷ codes "User-Agent"
    ∷ []

-- `operator[]` gives the empty string for an index that is not in the map.
unfoldable pub known_header_name : ℕ → Bytes
unfolding known_header_map
known_header_name i = get_or known_header_map i []

-- The loop over `known_headers`, from index `i` on.
unfoldable pub known_headers_from : ℕ → List Bytes → List Header
known_headers_from i [] = []
known_headers_from i (value ∷ values) =
    let rest = known_headers_from (suc i) values in
    if ltb 0 (length value) then (known_header_name i, value) ∷ rest else rest

-- RequestHandler::GetRequestHeaders()
unfoldable pub get_request_headers : RawRequest → List Header
unfolding known_headers_from
get_request_headers r = known_headers_from 0 r.known_headers ++ r.unknown_headers
