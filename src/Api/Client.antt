-- ===== src/Api/Client.antt =====
-- The class `ApiClient`. `net` answers a request, given the requests that were sent before it: it
-- stands for the server and the network, and nothing is assumed of it.
use omni_tun.Prelude.{
  String, ◌&&◌, Option, none, some, List, [], ◌∷◌, Dict, put, remove, spread, nat_eq, ◌==◌,
  if◌then◌else◌,
}
use Prim.Native.String
use omni_tun.Js.{Value, null, str, obj, no_entries, entry, prop, coalesce, truthy, nullable}
use omni_tun.Js.Env.{Js, text_of}
use omni_tun.Token.{Storage, get_access_token, get_refresh_token}
use omni_tun.Api.Http.{
  Request, Options, Response, parsed, unreadable, Reply, rejected, response, native_error, Result,
  throw, is_ok, finish, World, App,
}

abbrev pub json_header : Dict String
json_header = ("Content-Type", "application/json") ∷ []

abbrev pub bearer : Js → Value → String
bearer js token = String.◌++◌ "Bearer " (text_of js token)

module _ (js : Js) (app : App) (net : List Request → Request → Reply) where
  -- `new ApiClient()` over what the storage holds.
  unfoldable pub new_client : Storage → World
  new_client st = record {
    token = nullable (get_access_token app.keys st);
    storage = st;
    sent = [];
  }

  unfoldable pub set_token : Value → World → World
  set_token token w = record w {
    token = token;
    storage = put app.keys.access (text_of js token) w.storage;
  }

  unfoldable pub clear_token : World → World
  clear_token w = record w { token = null; storage = remove app.keys.access w.storage }

  unfoldable pub build_url : String → String
  build_url path = if app.base_url == "" then path else String.◌++◌ app.base_url path

  -- `await fetch(…)`
  unfoldable pub fetch : Request → World → Reply × World
  fetch req w = (net w.sent req, record w { sent = req ∷ w.sent })

  unfoldable pub refresh_request : String → Request
  refresh_request refresh = record {
    url = build_url app.refresh_path;
    method = some "POST";
    headers = json_header;
    body = some (js.stringify (obj (entry "refresh_token" (str refresh) no_entries)));
  }

  -- `if (data.refresh_token) localStorage.setItem(…)`
  unfoldable pub keep_refresh : Option Value → World → World
  keep_refresh none w = w
  keep_refresh (some refresh) w =
      if truthy refresh
      then record w { storage = put app.keys.refresh (text_of js refresh) w.storage }
      else w

  -- What `_doRefresh` makes of the parsed body: on `null` the first read throws.
  unfoldable pub take_tokens : Value → World → Value × World
  take_tokens payload w = elim (prop payload "access_token") [
    | none ↦ (null, clear_token w)
    | some access ↦ (
      coalesce access null,
      keep_refresh (prop payload "refresh_token") (if truthy access then set_token access w else w),
    )
  ]

  unfoldable pub after_refresh : Reply → World → Value × World
  after_refresh (rejected message) w = (null, clear_token w)
  after_refresh (response res) w =
      if is_ok res
      then elim res.body [
        | unreadable message ↦ (null, clear_token w)
        | parsed payload ↦ take_tokens payload w
      ]
      else (null, clear_token w)

  -- `_doRefresh`: its `try` leaves nothing to throw.
  unfoldable pub do_refresh : World → Value × World
  do_refresh w = elim (get_refresh_token app.keys w.storage) [
    | none ↦ (null, w)
    | some refresh ↦
        if refresh == ""
        then (null, w)
        else (let (reply, w') = fetch (refresh_request refresh) w in after_refresh reply w')
  ]

  -- `if (!this.token) this.token = readToken()`
  unfoldable pub load_token : World → World
  load_token w =
      if truthy w.token
      then w
      else record w { token = nullable (get_access_token app.keys w.storage) }

  unfoldable pub headers_for : Value → Dict String → Dict String
  headers_for token own =
      let headers = spread json_header own in
      if truthy token then put "Authorization" (bearer js token) headers else headers

  unfoldable pub request_for : String → Options → Dict String → Request
  request_for path options headers = record {
    url = build_url path;
    method = options.method;
    headers = headers;
    body = options.body;
  }

  unfoldable pub settle : Reply → Result Value
  settle (rejected message) = throw (native_error message)
  settle (response res) = finish res

  -- The second attempt, with the renewed token.
  unfoldable pub retry : Request → Value → World → Result Value × World
  retry req token w =
      let again = record req { headers = put "Authorization" (bearer js token) req.headers } in
      let (reply, w') = fetch again w in (settle reply, w')

  unfoldable pub on_response : Request → Response → World → Result Value × World
  on_response req res w =
      if nat_eq res.status 401 && truthy w.token
      then (let (renewed, w') = do_refresh w in
          if truthy renewed then retry req renewed w' else (finish res, w'))
      else (finish res, w)

  -- `request`, with no other call under way.
  unfoldable pub request : String → Options → World → Result Value × World
  request path options w =
      let w' = load_token w in
      let req = request_for path options (headers_for w'.token options.headers) in
      let (reply, w'') = fetch req w' in
      elim reply [
        | rejected message ↦ (throw (native_error message), w'')
        | response res ↦ on_response req res w''
      ]
