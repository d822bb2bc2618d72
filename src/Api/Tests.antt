-- ===== src/Api/Tests.antt =====
-- Runs of the client against small servers, and its laws there.
use omni_tun.Prelude.{
  ◌+◌, ◌≤◌, ◌<◌, String, true, false, ◌≡◌, ◌≢◌, refl, none, some, List, [], ◌∷◌, get, length,
  eq_iff, ◌==◌, inl,
}
use omni_tun.Js.{null, str, obj, entry, no_entries, prop, truthy, own}
use omni_tun.Js.Sample.{sample_js}
use omni_tun.Token.{get_refresh_token, get_access_token}
use omni_tun.Api.{
  Request, Options, Response, Reply, rejected, response, parsed, unreadable, World, App, Result, ok,
  throw, api_error, error_of, web_app, load_token, refresh_request, request, settle, new_client,
  build_url, is_ok, ApiError,
}
use omni_tun.Api.Laws.Coherence.{IsCoherent, request-IsCoherent}
use omni_tun.Api.Laws.Attempts.{first_request, request_bounded}
use omni_tun.Api.Laws.Renewal.{
  IsUnauthorized, Refreshes, Grants, with_token, request_renewed, request_refused,
}
use omni_tun.Api.Laws.Errors.{Ends, request-Ends}

abbrev app : App
app = web_app ""

abbrev no_content : Response
no_content = record { status = 401; status_text = "Unauthorized"; body = unreadable "empty" }

abbrev granted : Response
granted = record {
  status = 200;
  status_text = "OK";
  body = parsed (obj (entry "access_token" (str "new") no_entries));
}

abbrev listed : Response
listed = record { status = 200; status_text = "OK"; body = parsed (str "tunnels") }

-- 401, then a new token, then the answer.
abbrev renews : List Request → Request → Reply
renews [] req = response no_content
renews (a ∷ []) req = response granted
renews (a ∷ b ∷ l) req = response listed

-- 401 to everything.
abbrev refuses : List Request → Request → Reply
refuses sent req = response no_content

abbrev plain : Options
plain = record { method = none; headers = []; body = none }

-- A client with both tokens.
abbrev holder : World
holder = record {
  token = str "old";
  storage = ("access_token", "old") ∷ ("refresh_token", "r") ∷ [];
  sent = [];
}

abbrev stranger : World
stranger = record { token = null; storage = []; sent = [] }

keys_differ : app.keys.refresh ≢ app.keys.access
keys_differ e = cc ((eq_iff app.keys.refresh app.keys.access).1 e)

keys_differ' : app.keys.access ≢ app.keys.refresh
keys_differ' e = cc ((eq_iff app.keys.access app.keys.refresh).1 e)

r-nonempty : (s : String) → (s == "") ≡ false → s ≢ ""
r-nonempty s h e = cc (h, (eq_iff s "").1 e)

holder-IsCoherent : IsCoherent sample_js app renews holder
unfolding get
holder-IsCoherent = refl

request-IsCoherent_example :
    IsCoherent sample_js app renews (request sample_js app renews "/v1/tunnels" plain holder).1
request-IsCoherent_example =
    request-IsCoherent sample_js app renews keys_differ "/v1/tunnels" plain holder holder-IsCoherent

request_bounded_example :
    (length holder.sent < length (request sample_js app renews "/v1/tunnels" plain holder).1.sent)
    × (length (request sample_js app renews "/v1/tunnels" plain holder).1.sent
        ≤ length holder.sent + 3)
request_bounded_example = request_bounded sample_js app renews "/v1/tunnels" plain holder

stranger_anonymous : truthy (load_token sample_js app refuses stranger).token ≡ false
unfolding load_token truthy get_access_token get
stranger_anonymous = refl

module _ (net : List Request → Request → Reply) where
  holder_holds : truthy (load_token sample_js app net holder).token ≡ true
  unfolding load_token truthy
  holder_holds = refl

  holder_stored :
      get_refresh_token app.keys (load_token sample_js app net holder).storage ≡ some "r"
  unfolding load_token truthy get_refresh_token get
  holder_stored = refl

  -- The server answers 401 first.
  holder_unauthorized :
      net [] (first_request sample_js app net "/v1/tunnels" plain holder) ≡ response no_content
      → IsUnauthorized sample_js app net "/v1/tunnels" plain holder
  holder_unauthorized e = record {
    res = no_content;
    holds_token = holder_holds;
    answered = e;
    unauthorized = refl;
  }

  abbrev holder_asks : Request
  holder_asks = first_request sample_js app net "/v1/tunnels" plain holder

  abbrev holder_refresh : Request
  holder_refresh = refresh_request sample_js app net "r"

  holder_refreshes :
      (reply : Reply)
      → net (holder_asks ∷ []) holder_refresh ≡ reply
      → Refreshes sample_js app net "/v1/tunnels" plain holder reply
  holder_refreshes reply e = record {
    refresh = "r";
    stored = holder_stored;
    nonempty = r-nonempty "r" refl;
    replied = e;
  }

grants : Grants sample_js app renews "new" (response granted)
unfolding prop own
grants = record {
  res = granted;
  payload = obj (entry "access_token" (str "new") no_entries);
  is_response = refl;
  succeeded = refl;
  body = refl;
  access_token = refl;
  nonempty = r-nonempty "new" refl;
}

abbrev asked : Request
asked = holder_asks renews

request_renewed_example :
    ((request sample_js app renews "/v1/tunnels" plain holder).0
      ≡ settle sample_js app renews (response listed))
    × ((request sample_js app renews "/v1/tunnels" plain holder).1.sent
        ≡ with_token sample_js app renews (str "new") asked ∷ holder_refresh renews ∷ asked ∷ [])
    × ((request sample_js app renews "/v1/tunnels" plain holder).1.token ≡ str "new")
unfolding holder_refreshes
request_renewed_example =
    request_renewed sample_js app renews "/v1/tunnels" plain holder "new" (response granted)
      (holder_unauthorized renews refl) (holder_refreshes renews (response granted) refl) grants

request_refused_example :
    ((request sample_js app refuses "/v1/tunnels" plain holder).0
      ≡ throw (api_error (error_of no_content)))
    × ((request sample_js app refuses "/v1/tunnels" plain holder).1.sent
        ≡ holder_refresh refuses ∷ holder_asks refuses ∷ [])
    × ((request sample_js app refuses "/v1/tunnels" plain holder).1.token ≡ null)
    × (get app.keys.access (request sample_js app refuses "/v1/tunnels" plain holder).1.storage
        ≡ none)
    × (get app.keys.refresh (request sample_js app refuses "/v1/tunnels" plain holder).1.storage
        ≡ some "r")
unfolding holder_refreshes holder_unauthorized
request_refused_example =
    request_refused sample_js app refuses "/v1/tunnels" plain holder (response no_content)
      (holder_unauthorized refuses refl) (holder_refreshes refuses (response no_content) refl)
      (inl refl) keys_differ'

-- Everything is answered.
abbrev answers : List Request → Request → Reply
answers sent req = response listed

answered : (request sample_js app answers "/v1/tunnels" plain stranger).0 ≡ ok (str "tunnels")
unfolding request load_token omni_tun.Api.fetch omni_tun.Api.on_response omni_tun.Api.finish truthy
    get_access_token get
answered = refl

request-Ends_example :
    Ends sample_js app answers
      (build_url sample_js app answers "/v1/tunnels")
      (request sample_js app answers "/v1/tunnels" plain stranger).1
      (str "tunnels")
request-Ends_example =
    request-Ends sample_js app answers "/v1/tunnels" plain stranger (str "tunnels") answered
