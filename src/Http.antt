-- ===== src/Http.antt =====
-- httpclient/curl_base.cpp: the HTTP client over libcurl. libcurl is a parameter: `perform` is what
-- `curl_easy_perform` makes of the options that were set, a code and the bytes that came back, `none`
-- where `curl_easy_init` gives no handle. The members return the code; 0 is success.
use bserver.Base.{ℕ, List, [], ◌∷◌, ◌++◌, Bytes, text, Option, none, some, ◌==◌, if◌then◌else◌}

pub data Method : Type 0 where
  get_method post_method : Method

-- The options that matter: URL, header lines, and the fields of a POST.
pub record HttpRequest : Type 0 where
  pub method : Method
  pub url : Bytes
  pub headers : List Bytes
  pub fields : Bytes

abbrev pub Perform : Type 0
Perform = HttpRequest → Option (ℕ × Bytes)

-- `headers_`
pub record CurlBase : Type 0 where
  pub headers : List Bytes

-- A text handed over as `const char*` ends at its first zero byte.
unfoldable pub c_str : Bytes → Bytes
c_str [] = []
c_str (c ∷ s) = let rest = c_str s in if c == 0 then [] else c ∷ rest

unfoldable pub curl_base : CurlBase
curl_base = record { headers = [] }

unfoldable pub init_json_header : CurlBase → CurlBase
init_json_header c = record {
  headers =
      c.headers
      ++ (text "Content-type: application/json"
          ∷ text "Accept: application/json"
          ∷ text "Cache-Control: no-cache"
          ∷ text "Pragma: no-cache"
          ∷ []);
}

-- Appends each header line, in order.
unfoldable pub add_header : List Bytes → CurlBase → CurlBase
unfolding c_str
add_header [] c = c
add_header (h ∷ hs) c = add_header hs (record { headers = c.headers ++ (c_str h ∷ []) })

abbrev pub failed_init : ℕ
failed_init = 2

-- What a call gives: its code, and what it appended to `response_data`.
unfoldable pub outcome : Option (ℕ × Bytes) → Bytes → ℕ × Bytes
outcome none response = (failed_init, response)
outcome (some (code, s)) response = (code, response ++ s)

unfoldable pub post_request : CurlBase → Bytes → Bytes → HttpRequest
unfolding c_str
post_request c addr fields = record {
  method = post_method;
  url = c_str addr;
  headers = c.headers;
  fields = c_str fields;
}

-- `Get` sets no header lines.
unfoldable pub get_request : Bytes → HttpRequest
unfolding c_str
get_request addr = record { method = get_method; url = c_str addr; headers = []; fields = [] }

unfoldable pub post : Perform → CurlBase → Bytes → Bytes → Bytes → ℕ × Bytes
unfolding outcome post_request
post perform c addr fields response = outcome (perform (post_request c addr fields)) response

unfoldable pub get : Perform → Bytes → Bytes → ℕ × Bytes
unfolding outcome get_request
get perform addr response = outcome (perform (get_request addr)) response
