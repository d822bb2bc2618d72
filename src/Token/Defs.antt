-- ===== src/Token/Defs.antt =====
-- The functions of both `lib/auth.ts`.
use omni_tun.Prelude.{
  ℕ, ℤ, String, Bool, false, Option, none, some, List, [], ◌∷◌, Dict, get, put, remove, ◌==◌,
  if◌then◌else◌, scaled_exceeds, ◌>>=◌,
}
use omni_tun.Js.{Value, str, prop, coalesce, as_string, as_number}
use omni_tun.Js.Env.{Js}
use omni_tun.Token.Split.{split_dots}

-- The keys under which an application keeps its tokens.
pub record Keys : Type 0 where
  pub access : String
  pub refresh : String

abbrev pub Storage : Type 0
Storage = Dict String

unfoldable pub get_access_token : Keys → Storage → Option String
get_access_token keys st = get keys.access st

unfoldable pub get_refresh_token : Keys → Storage → Option String
get_refresh_token keys st = get keys.refresh st

unfoldable pub set_tokens : Keys → String → String → Storage → Storage
set_tokens keys access refresh st = put keys.refresh refresh (put keys.access access st)

unfoldable pub clear_tokens : Keys → Storage → Storage
clear_tokens keys st = remove keys.refresh (remove keys.access st)

-- `JwtPayload`. Only the types of `sub` and `exp` are checked, so the other fields hold any value.
pub record JwtPayload : Type 0 where
  pub sub : String
  pub org_id : Value
  pub role : Value
  pub exp : ℤ

-- The part between the two dots.
abbrev pub middle : List String → Option String
middle (h ∷ b ∷ s ∷ []) = some b
middle _ = none

-- The checks on the parsed payload, and the object that is returned.
unfoldable pub payload_of : String → Value → Option JwtPayload
unfolding prop coalesce
payload_of default_role p = do
  s ← prop p "sub"
  e ← prop p "exp"
  sub ← as_string s
  exp ← as_number e
  org ← prop p "org_id"
  role ← prop p "role"
  some (record {
    sub = sub;
    org_id = coalesce org (str "");
    role = coalesce role (str default_role);
    exp = exp;
  })

-- Whatever throws in the `try` gives null too.
unfoldable pub parse_jwt : Js → String → String → Option JwtPayload
parse_jwt js default_role token = do
  part ← middle (split_dots token)
  text ← js.atob part
  p ← js.json_parse text
  payload_of default_role p

-- `payload.exp * 1000 > Date.now()`
unfoldable pub not_expired : JwtPayload → ℕ → Bool
not_expired p now = scaled_exceeds 1000 p.exp now

-- A token that `isAuthenticated` accepts; the empty text is falsy.
unfoldable pub token_valid : Js → String → String → ℕ → Bool
unfolding not_expired
token_valid js default_role token now =
    if token == ""
    then false
    else elim (parse_jwt js default_role token) [ none ↦ false | some p ↦ not_expired p now ]

unfoldable pub is_authenticated : Js → Keys → String → Storage → ℕ → Bool
unfolding get_access_token
is_authenticated js keys default_role st now = elim (get_access_token keys st) [
  | none ↦ false
  | some token ↦ token_valid js default_role token now
]
