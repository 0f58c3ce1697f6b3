-- ===== src/Config.antt =====
-- src/pyroscope.rs: the configuration of the agent and the methods that set its parts, which the
-- builder of the agent passes on.
use pyroscope_rs.Base.{ℕ, String, List, [], ◌∷◌, ◌++◌, Option, none, some}
use pyroscope_rs.Errors.{Result, ok, err, ◌>>=◌, ad_hoc}
use pyroscope_rs.Base.Equality.{string_eq}
use pyroscope_rs.Base.Map
use pyroscope_rs.Base.Map.{Map}
use pyroscope_rs.Backend.{Report}

pub record BasicAuth : Type 0 where
  pub username : String
  pub password : String

pub record PyroscopeConfig : Type 0 where
  pub url : String
  pub application_name : String
  pub tags : Map String String
  pub sample_rate : ℕ
  pub spy_name : String
  pub spy_version : String
  pub basic_auth : Option BasicAuth
  pub func : Option (Report → Report)
  pub tenant_id : Option String
  pub http_headers : Map String String

unfoldable pub new : String → String → ℕ → String → String → PyroscopeConfig
new url application_name sample_rate spy_name spy_version = record {
  url = url;
  application_name = application_name;
  tags = [];
  sample_rate = sample_rate;
  spy_name = spy_name;
  spy_version = spy_version;
  basic_auth = none;
  func = none;
  tenant_id = none;
  http_headers = [];
}

abbrev pub set_url : PyroscopeConfig → String → PyroscopeConfig
set_url c url = record c { url = url }

abbrev pub set_basic_auth : PyroscopeConfig → String → String → PyroscopeConfig
set_basic_auth c username password = record c {
  basic_auth = some (record { username = username; password = password });
}

abbrev pub set_func : PyroscopeConfig → (Report → Report) → PyroscopeConfig
set_func c func = record c { func = some func }

-- `collect` into a `HashMap`: the last value of a key is kept
unfoldable pub collect : Map String String → List (String × String) → Map String String
collect m [] = m
collect m ((key, value) ∷ rest) = collect (Map.insert key value m) rest

unfoldable pub set_tags : PyroscopeConfig → List (String × String) → PyroscopeConfig
unfolding collect
set_tags c tags = record c { tags = collect [] tags }

abbrev pub set_tenant_id : PyroscopeConfig → String → PyroscopeConfig
set_tenant_id c tenant_id = record c { tenant_id = some tenant_id }

abbrev pub set_http_headers : PyroscopeConfig → Map String String → PyroscopeConfig
set_http_headers c http_headers = record c { http_headers = http_headers }

-- what serde_json makes of a text, as far as the parsers below look at it
pub data Json : Type 0 where
  text : String → Json
  not_text : Json

pub data Parsed : Type 0 where
  object : List (String × Json) → Parsed
  array : List Json → Parsed
  scalar : Parsed

abbrev pub as_object : Parsed → Result (List (String × Json))
as_object (object fields) = ok fields
as_object (array _) = err (ad_hoc "expected object")
as_object scalar = err (ad_hoc "expected object")

abbrev pub as_array : Parsed → Result (List Json)
as_array (array items) = ok items
as_array (object _) = err (ad_hoc "expected array")
as_array scalar = err (ad_hoc "expected array")

unfoldable pub insert_headers :
    Map String String → List (String × Json) → Result (Map String String)
insert_headers m [] = ok m
insert_headers m ((k, text value) ∷ rest) = insert_headers (Map.insert k value m) rest
insert_headers m ((k, not_text) ∷ rest) = err (ad_hoc "invalid http header value, not a string")

unfoldable pub push_texts : List String → List Json → Result (List String)
push_texts res [] = ok res
push_texts res (text s ∷ rest) = push_texts (res ++ s ∷ []) rest
push_texts res (not_text ∷ rest) = err (ad_hoc "invalid element value, not a string")

-- `from_str` stands for that of serde_json. The messages leave out the value that is printed in them.
module _ (from_str : String → Result Parsed) where
  unfoldable pub parse_http_headers_json : String → Result (Map String String)
  unfolding insert_headers
  parse_http_headers_json s = do
    parsed ← from_str s
    fields ← as_object parsed
    insert_headers [] fields

  unfoldable pub parse_vec_string_json : String → Result (List String)
  unfolding push_texts
  parse_vec_string_json s = do parsed ← from_str s; items ← as_array parsed; push_texts [] items
