-- ===== src/Token/Tests.antt =====
-- Runs of the functions on tokens, and the laws at concrete inputs.
use omni_tun.Prelude.{
  ℕ, String, true, ◌≡◌, ◌≢◌, ◌↔◌, ◌<◌, ◌*◌, refl, none, some, [], ◌∷◌, get, pos, eq_iff,
}
use omni_tun.Js.{null, str}
use omni_tun.Js.Sample.{sample_js}
use omni_tun.Token.{
  Storage, JwtPayload, web_keys, split_dots, NoDot, get_access_token, get_refresh_token, set_tokens,
  clear_tokens, parse_jwt, is_authenticated, payload_of,
}
use omni_tun.Token.Laws.Format.{IsJwtOf, parse_jwt_iff}
use omni_tun.Token.Laws.Session.{is_authenticated_iff}
use omni_tun.Token.{admin_is_authenticated, admin_keys}

abbrev payload : JwtPayload
payload = record { sub = "u1"; org_id = str ""; role = str "member"; exp = pos 2000 }

parse_jwt_runs : parse_jwt sample_js "member" "h.claims.s" ≡ some payload
unfolding parse_jwt split_dots payload_of omni_tun.Js.prop omni_tun.Js.coalesce
parse_jwt_runs = refl

two_parts : parse_jwt sample_js "member" "h.claims" ≡ none
unfolding parse_jwt split_dots
two_parts = refl

abbrev member_storage : Storage
member_storage = ("access_token", "h.claims.s") ∷ []

logged_in_counts : is_authenticated sample_js web_keys "member" member_storage 1_999_999 ≡ true
unfolding is_authenticated get_access_token omni_tun.Token.token_valid omni_tun.Token.not_expired
    parse_jwt split_dots payload_of omni_tun.Js.prop omni_tun.Js.coalesce get
logged_in_counts = refl

web_keys_differ : web_keys.access ≢ web_keys.refresh
web_keys_differ e = cc ((eq_iff web_keys.access web_keys.refresh).1 e)

abbrev stored : Storage
stored = set_tokens web_keys "a" "r" []

is_authenticated_iff_example :
    (is_authenticated sample_js web_keys "member" member_storage 1_999_999 ≡ true) ↔ (
      (token : String) × (p : JwtPayload) × (n : ℕ) × (get web_keys.access member_storage
        ≡ some token)
      × (token ≢ "")
      × (parse_jwt sample_js "member" token ≡ some p)
      × (p.exp ≡ pos n)
      × (1_999_999 < n * 1000))
is_authenticated_iff_example =
    is_authenticated_iff sample_js web_keys "member" member_storage 1_999_999

parse_jwt_iff_example :
    (parse_jwt sample_js "member" "h.claims.s" ≡ some payload)
    ↔ IsJwtOf sample_js "member" payload "h.claims.s"
parse_jwt_iff_example = parse_jwt_iff sample_js "member" "h.claims.s" payload
