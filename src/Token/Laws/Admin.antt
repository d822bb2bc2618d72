-- ===== src/Token/Laws/Admin.antt =====
-- Both applications accept the same tokens.
use omni_tun.Prelude.{ℕ, String, Bool, false, ◌≡◌, refl, Option, none, some, arith, scaled_exceeds}
use omni_tun.Js.{Value, prop}
use omni_tun.Js.Env.{Js}
use omni_tun.Token.{
  Storage, payload_of, parse_jwt, token_valid, is_authenticated, not_expired, admin_keys,
  admin_get_access_token, admin_payload_of, admin_parse_jwt, admin_token_valid,
  admin_is_authenticated, JwtPayload, AdminJwtPayload,
}

abbrev web_counts : Option JwtPayload → ℕ → Bool
web_counts o now = elim o [ none ↦ false | some p ↦ not_expired p now ]

abbrev admin_counts : Option AdminJwtPayload → ℕ → Bool
admin_counts o now = elim o [ none ↦ false | some p ↦ scaled_exceeds 1000 p.exp now ]

payload_counts :
    (default_role : String) (v : Value) (now : ℕ)
    → admin_counts (admin_payload_of v) now ≡ web_counts (payload_of default_role v) now
unfolding admin_payload_of payload_of prop not_expired
payload_counts default_role (Value.obj fs) now = ground arith
payload_counts default_role _ now = refl

parse_counts :
    (js : Js) (default_role token : String) (now : ℕ)
    → admin_counts (admin_parse_jwt js token) now ≡ web_counts (parse_jwt js default_role token) now
unfolding admin_parse_jwt parse_jwt
parse_counts js default_role token now = grind (arith, payload_counts default_role)

-- A token counts as a login in the administration exactly when it would in the web application, if it
-- were stored under its key, whatever default roles are used.
pub admin_is_authenticated_lem :
    (js : Js) (default_role : String) (st : Storage) (now : ℕ)
    → admin_is_authenticated js st now ≡ is_authenticated js admin_keys default_role st now
unfolding admin_is_authenticated is_authenticated admin_get_access_token admin_token_valid
    token_valid
admin_is_authenticated_lem js default_role st now = grind (arith, parse_counts js default_role)
