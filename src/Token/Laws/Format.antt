-- ===== src/Token/Laws/Format.antt =====
-- Which texts `parseJWT` takes apart, and what it reads from them.
use Prim.Native.String
use omni_tun.Prelude.{
  ◌>>=◌, String, Char, ◌≡◌, sym, ◌↔◌, Option, some, List, [], ◌∷◌, All, split_on,
  split_on_of_IsFree, split_on-append, split_on-IsFree, join_with, join_with-split_on,
}
use omni_tun.Js.Env.{Js}
use omni_tun.Token.{split_dots, NoDot, middle, payload_of, parse_jwt, JwtPayload}

abbrev dot : Char
dot = "."

-- A text in the form of a JWT: three parts with a dot between them.
abbrev pub jwt : String → String → String → String
jwt h b s = String.◌++◌ h (String.◌∷◌ dot (String.◌++◌ b (String.◌∷◌ dot s)))

split_dots-jwt :
    (h b s : String) → NoDot h → NoDot b → NoDot s → split_dots (jwt h b s) ≡ h ∷ b ∷ s ∷ []
unfolding split_dots
split_dots-jwt h b s ph pb ps =
    rw (split_on-append dot h _ ph, split_on-append dot b s pb, split_on_of_IsFree dot s ps)

-- What `parseJWT` makes of the part between the dots.
abbrev pub decode_part : Js → String → String → Option JwtPayload
decode_part js default_role part = do
  text ← js.atob part
  p ← js.json_parse text
  payload_of default_role p

-- The token is three dot-free parts with dots between them, of which the middle one decodes to the
-- payload.
abbrev pub IsJwtOf : Js → String → JwtPayload → String → Type 0
IsJwtOf js default_role p token =
    (h : String) × (b : String) × (s : String) × (token ≡ jwt h b s)
    × (NoDot h × NoDot b × NoDot s)
    × (decode_part js default_role b ≡ some p)

parse_jwt_of_IsJwtOf :
    (js : Js) (default_role token : String) (p : JwtPayload)
    → IsJwtOf js default_role p token
    → parse_jwt js default_role token ≡ some p
unfolding parse_jwt
parse_jwt_of_IsJwtOf js default_role token p (h, b, s, e, (ph, pb, ps), d) =
    rw (e, split_dots-jwt h b s ph pb ps) d

-- The same of the parts of the token.
parts-IsJwtOf :
    (js : Js) (default_role token : String) (p : JwtPayload) (parts : List String)
    → join_with dot parts ≡ token
    → All NoDot parts
    → (middle parts >>= decode_part js default_role) ≡ some p
    → IsJwtOf js default_role p token
parts-IsJwtOf js r token p (h ∷ b ∷ s ∷ []) j (ph, (pb, (ps, _))) e =
    (h, b, s, sym j, (ph, pb, ps), e)
parts-IsJwtOf js r token p [] j d e = cc
parts-IsJwtOf js r token p (h ∷ []) j d e = cc
parts-IsJwtOf js r token p (h ∷ b ∷ []) j d e = cc
parts-IsJwtOf js r token p (h ∷ b ∷ s ∷ t ∷ ps) j d e = cc

-- A token parses to a payload exactly when it is three dot-free parts with dots between them, of which
-- the middle one decodes to that payload; the first and the last part are not read.
pub parse_jwt_iff :
    (js : Js) (default_role token : String) (p : JwtPayload)
    → (parse_jwt js default_role token ≡ some p) ↔ IsJwtOf js default_role p token
unfolding parse_jwt split_dots
parse_jwt_iff js r token p = (
  parts-IsJwtOf js r token p (split_on dot token) (join_with-split_on dot token)
      (split_on-IsFree dot token),
  parse_jwt_of_IsJwtOf js r token p,
)
