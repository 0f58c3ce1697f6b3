-- ===== src/Session.antt =====
-- src/session.rs: a session is a window of ten seconds with its reports, and its push makes the request
-- to the server. What other crates do is the record `Crates`; `none` stands for a panic.
pub mod Windows
use Prim.Native.String.{◌++◌ as append}
use pyroscope_rs.Base.{
  ℕ, ◌+◌, ◌-◌, ◌*◌, ◌%◌, ◌^◌, String, Bool, true, false, List, [], ◌∷◌, ◌++◌, Option, none, some,
  map, option_bind,
}
use pyroscope_rs.Base.Map.{Map}
use pyroscope_rs.Backend.{Report}
use pyroscope_rs.Config.{BasicAuth, PyroscopeConfig}
use pyroscope_rs.Encode
use pyroscope_rs.Encode.{Profile}
use pyroscope_rs.Errors.{Result, ok, err, ◌>>=◌}
use pyroscope_rs.Utils.{TimeRange, get_time_range}

pub record Session : Type 0 where
  pub config : PyroscopeConfig
  pub reports : List Report
  pub from : ℕ
  pub until : ℕ

-- `a - b` on u64
abbrev pub minus : ℕ → ℕ → ℕ
minus a b = (a + 2 ^ 64 - b) % 2 ^ 64

unfoldable pub new : Result ℕ → ℕ → PyroscopeConfig → List Report → Result Session
unfolding get_time_range
new now until config reports = get_time_range now until >>= λ r. ok (record {
  config = config;
  reports = reports;
  from = minus r.from 10;
  until = minus r.until 10;
})

unfoldable pub encode_reports : Session → List Report → Option Profile
encode_reports s reports =
    Encode.encode reports s.config.sample_rate (s.from * 1000000000 % 2 ^ 64)
      (minus s.until s.from * 1000000000 % 2 ^ 64)

pub record LabelPair : Type 0 where
  pub name : String
  pub value : String

pub record RawSample : Type 0 where
  pub raw_profile : List ℕ
  pub id : String

pub record RawProfileSeries : Type 0 where
  pub labels : List LabelPair
  pub samples : List RawSample

pub record PushRequest : Type 0 where
  pub series : List RawProfileSeries

-- the request that is handed to the HTTP client
pub record HttpRequest : Type 0 where
  pub url : String
  pub header : List (String × String)
  pub basic_auth : Option BasicAuth
  pub body : List ℕ
  pub timeout_secs : ℕ

pub data Response : Type 0 where
  success : Response
  failure : ℕ → Response

-- prost, uuid, libflate, url and reqwest. `endpoint` is `none` where the parsed address cannot take a
-- path, and else the address with the two segments pushed.
pub record Crates : Type 0 where
  pub encode_profile : Profile → List ℕ
  pub encode_request : PushRequest → List ℕ
  pub new_v4 : String
  pub gzip : List ℕ → Result (List ℕ)
  pub parse : String → Result String
  pub endpoint : String → Option String
  pub send : HttpRequest → Result Response

abbrev pub tag_labels : Map String String → List LabelPair
tag_labels = map λ (tag : String × String). record { name = tag.0; value = tag.1 }

unfoldable pub labels : PyroscopeConfig → List LabelPair
labels c =
    record { name = "service_name"; value = c.application_name }
    ∷ record { name = "__name__"; value = "process_cpu" }
    ∷ tag_labels c.tags

-- the reports of a session after the function of the configuration
unfoldable pub applied : Session → List Report
applied s = elim s.config.func [ none ↦ s.reports | some f ↦ map f s.reports ]

abbrev pub tenant_header : Option String → List (String × String)
tenant_header none = []
tenant_header (some tenant_id) = ("X-Scope-OrgID", tenant_id) ∷ []

unfoldable pub headers : PyroscopeConfig → List (String × String)
headers c =
    ("User-Agent", user_agent)
      ∷ ("Content-Type", "application/proto")
      ∷ ("Content-Encoding", "gzip")
      ∷ tenant_header c.tenant_id
    ++ c.http_headers
  where
    user_agent : String
    user_agent =
        append "pyroscope-rs/" (append c.spy_name (append "/" (append c.spy_version " reqwest")))

module _ (crates : Crates) where
  open crates use {encode_profile, encode_request, new_v4, gzip, parse, endpoint, send}

  unfoldable pub push_request : PyroscopeConfig → Profile → PushRequest
  push_request config profile = record {
    series =
        record {
          labels = labels config;
          samples = record { raw_profile = encode_profile profile; id = new_v4 } ∷ [];
        }
        ∷ [];
  }

  -- from the address on: any response is a success of `push`, which logs a failing status
  unfoldable pub deliver : PyroscopeConfig → List ℕ → String → Option (Result (Unit {0}))
  deliver config body parsed = option_bind (endpoint parsed) λ url. some (
      send (record {
        url = url;
        header = headers config;
        basic_auth = config.basic_auth;
        body = body;
        timeout_secs = 10;
      })
      >>= λ response. ok tt)

  unfoldable pub push_with : PyroscopeConfig → Profile → Option (Result (Unit {0}))
  unfolding deliver
  push_with config profile = elim (gzip (encode_request (push_request config profile))) [
    | err e ↦ some (err e)
    | ok body ↦ elim (parse config.url) [
      | err e ↦ some (err e)
      | ok parsed ↦ deliver config body parsed
    ]
  ]

  unfoldable pub push : Session → Option (Result (Unit {0}))
  unfolding encode_reports applied push_with
  push s = option_bind (encode_reports s (applied s)) λ profile. push_with s.config profile
