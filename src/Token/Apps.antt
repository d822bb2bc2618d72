-- ===== src/Token/Apps.antt =====
-- The keys of the two applications, and the functions of admin/src/lib/auth.ts, which are those of
-- web/src/lib/auth.ts at other keys, with another default role and no `org_id`.
use omni_tun.Prelude.{
  ◌>>=◌, ℕ, ℤ, String, Bool, false, Option, none, some, ◌==◌, if◌then◌else◌, scaled_exceeds,
}
use omni_tun.Js.{Value, str, prop, coalesce, as_string, as_number}
use omni_tun.Js.Env.{Js}
use omni_tun.Token.Defs.{
  Keys, Storage, get_access_token, get_refresh_token, set_tokens, clear_tokens, middle,
}
use omni_tun.Token.Split.{split_dots}

abbrev pub web_keys : Keys
web_keys = record { access = "access_token"; refresh = "refresh_token" }

abbrev pub admin_keys : Keys
admin_keys = record { access = "admin_access_token"; refresh = "admin_refresh_token" }

unfoldable pub admin_get_access_token : Storage → Option String
admin_get_access_token st = get_access_token admin_keys st

unfoldable pub admin_get_refresh_token : Storage → Option String
admin_get_refresh_token st = get_refresh_token admin_keys st

unfoldable pub admin_set_tokens : String → String → Storage → Storage
admin_set_tokens access refresh st = set_tokens admin_keys access refresh st

unfoldable pub admin_clear_tokens : Storage → Storage
admin_clear_tokens st = clear_tokens admin_keys st

pub record AdminJwtPayload : Type 0 where
  pub sub : String
  pub role : Value
  pub exp : ℤ

unfoldable pub admin_payload_of : Value → Option AdminJwtPayload
admin_payload_of p = do
  s ← prop p "sub"
  e ← prop p "exp"
  sub ← as_string s
  exp ← as_number e
  role ← prop p "role"
  some (record { sub = sub; role = coalesce role (str "operator"); exp = exp })

unfoldable pub admin_parse_jwt : Js → String → Option AdminJwtPayload
admin_parse_jwt js token = do
  part ← middle (split_dots token)
  text ← js.atob part
  p ← js.json_parse text
  admin_payload_of p

unfoldable pub admin_token_valid : Js → String → ℕ → Bool
admin_token_valid js token now =
    if token == ""
    then false
    else elim (admin_parse_jwt js token) [ none ↦ false | some p ↦ scaled_exceeds 1000 p.exp now ]

unfoldable pub admin_is_authenticated : Js → Storage → ℕ → Bool
admin_is_authenticated js st now = elim (admin_get_access_token st) [
  | none ↦ false
  | some token ↦ admin_token_valid js token now
]
