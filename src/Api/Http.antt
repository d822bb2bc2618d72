-- ===== src/Api/Http.antt =====
-- Requests, replies, what a failed call throws, and the state that the client keeps.
use omni_tun.Prelude.{
  ◌>>=◌, ℕ, String, Bool, ◌&&◌, Option, none, some, List, Dict, leb, ltb, nat_eq, if◌then◌else◌,
}
use omni_tun.Js.{Value, str, prop, coalesce, or_else}
use omni_tun.Token.{Keys, Storage}

-- What `fetch` is called with.
pub record Request : Type 0 where
  pub url : String
  pub method : Option String
  pub headers : Dict String
  pub body : Option String

-- `RequestInit`, as far as the callers use it.
pub record Options : Type 0 where
  pub method : Option String
  pub headers : Dict String
  pub body : Option String

-- What `res.json()` gives, or the message of what it throws.
pub data Body : Type 0 where
  parsed : Value → Body
  unreadable : String → Body

pub record Response : Type 0 where
  pub status : ℕ
  pub status_text : String
  pub body : Body

-- The outcome of `fetch`: it rejects with an error, or there is a response.
pub data Reply : Type 0 where
  rejected : String → Reply
  response : Response → Reply

-- `ApiError`. Its fields are read from an untyped body.
pub record ApiError : Type 0 where
  pub code : Value
  pub message : Value
  pub details : Value

-- What is thrown: an `ApiError`, an error of the platform with its message, or another value.
pub data Thrown : Type 0 where
  api_error : ApiError → Thrown
  native_error : String → Thrown
  thrown : Value → Thrown

pub data Result {ℓ} (A : Type ℓ) : Type ℓ where
  ok : A → Result A
  throw : Thrown → Result A

-- `res.ok`
abbrev pub is_ok : Response → Bool
is_ok res = leb 200 res.status && ltb res.status 300

abbrev pub http_error : Response → ApiError
http_error res = record {
  code = str "HTTP_ERROR";
  message = str res.status_text;
  details = Value.undefined;
}

abbrev pub or_http_error : Response → Option ApiError → ApiError
or_http_error res none = http_error res
or_http_error res (some e) = e

-- The body of an error, read in the `try`; `none` where a read throws.
unfoldable pub error_in : Response → Value → Option ApiError
error_in res body = prop body "error" >>= λ nested.
    let err_obj = or_else nested body in
    prop err_obj "code" >>= λ code. prop err_obj "message" >>= λ message.
    prop body "details" >>= λ details. some (record {
      code = coalesce code (str "UNKNOWN");
      message = coalesce message (str res.status_text);
      details = details;
    })

-- The `ApiError` that a response which is not ok turns into.
unfoldable pub error_of : Response → ApiError
error_of res = elim res.body [
  | unreadable message ↦ http_error res
  | parsed body ↦ or_http_error res (error_in res body)
]

-- The end of `request`: throw, return nothing on 204, or return the body.
unfoldable pub finish : Response → Result Value
finish res =
    if is_ok res
    then (if nat_eq res.status 204
        then ok Value.undefined
        else elim res.body [ unreadable message ↦ throw (native_error message) | parsed v ↦ ok v ])
    else throw (api_error (error_of res))

-- The client object with the storage that it shares with `lib/auth.ts`, and the requests that were
-- sent so far, the latest first.
pub record World : Type 0 where
  pub token : Value
  pub storage : Storage
  pub sent : List Request

-- What the two applications differ in: the keys of the tokens, the base URL of the build, and the
-- path of the refresh call.
pub record App : Type 0 where
  pub keys : Keys
  pub base_url : String
  pub refresh_path : String
