-- ===== src/Token/Laws/Session.antt =====
-- The tokens that are stored, and when the stored access token counts as a login.
use omni_tun.Prelude.{
  ℕ, ◌≤◌, ◌<◌, ◌*◌, String, true, false, ◌≡◌, ◌≢◌, ◌↔◌, none, some, get, arith, eq_iff, pos,
  Option-cases, inl, inr, sym, ◌∙◌, get-put_ne, get-put_self, get-remove_self, get-remove-none,
  pos_part,
}
use omni_tun.Js.Env.{Js}
use omni_tun.Token.{
  Keys, Storage, get_access_token, get_refresh_token, set_tokens, clear_tokens, parse_jwt,
  JwtPayload, not_expired, token_valid, is_authenticated,
}

-- With keys that differ, `setTokens` stores both tokens, and what was stored under other keys stays.
pub get-set_tokens :
    (keys : Keys) (access refresh : String) (st : Storage)
    → keys.access ≢ keys.refresh
    → (get_access_token keys (set_tokens keys access refresh st) ≡ some access)
      × (get_refresh_token keys (set_tokens keys access refresh st) ≡ some refresh)
      × ((k : String)
          → k ≢ keys.access
          → k ≢ keys.refresh
          → get k (set_tokens keys access refresh st) ≡ get k st)
unfolding get_access_token get_refresh_token set_tokens
get-set_tokens keys access refresh st h = (
  get-put_ne refresh _ (λ e. h (sym e)) ∙ get-put_self _ access st,
  get-put_self _ refresh _,
  λ k ha hr. get-put_ne refresh _ (λ e. hr (sym e)) ∙ get-put_ne access st (λ e. ha (sym e)),
)

-- After `clearTokens` neither token is there, and no clock makes the user authenticated.
pub clear_tokens-not_authenticated :
    (js : Js) (keys : Keys) (default_role : String) (st : Storage) (now : ℕ)
    → (get_access_token keys (clear_tokens keys st) ≡ none)
      × (get_refresh_token keys (clear_tokens keys st) ≡ none)
      × (is_authenticated js keys default_role (clear_tokens keys st) now ≡ false)
unfolding get_access_token get_refresh_token clear_tokens is_authenticated
clear_tokens-not_authenticated js keys default_role st now =
    let gone : get keys.access (clear_tokens keys st) ≡ none =
      get-remove-none keys.refresh _ _ (get-remove_self keys.access st) in
    (gone, get-remove_self keys.refresh _, ground (arith, gone))

-- The user is authenticated exactly when a non-empty access token is stored that parses, and whose
-- `exp`, in seconds, lies after the clock, in milliseconds.
pub is_authenticated_iff :
    (js : Js) (keys : Keys) (default_role : String) (st : Storage) (now : ℕ)
    → (is_authenticated js keys default_role st now ≡ true) ↔ (
        (token : String) × (p : JwtPayload) × (n : ℕ) × (get keys.access st ≡ some token)
        × (token ≢ "")
        × (parse_jwt js default_role token ≡ some p)
        × (p.exp ≡ pos n)
        × (now < n * 1000))
unfolding is_authenticated token_valid not_expired
is_authenticated_iff js keys default_role st now = (
  λ h. elim (Option-cases (get keys.access st)) [
    | inl missing ↦ cc (h, missing)
    | inr (token, stored) ↦ elim (Option-cases (parse_jwt js default_role token)) [
      | inl refused ↦ ground (arith, eq_iff token "")
      | inr (p, parsed) ↦ (
        token,
        p,
        pos_part p.exp,
        ground arith,
        ground (arith, eq_iff token ""),
        parsed,
        ground (arith, eq_iff token ""),
        ground (arith, eq_iff token ""),
      )
    ]
  ],
  λ (token, p, n, stored, nonempty, parsed, e, before). ground (arith, eq_iff token ""),
)

-- A login can end by the passing of time, and not begin by it.
pub is_authenticated_earlier :
    (js : Js) (keys : Keys) (default_role : String) (st : Storage) (now later : ℕ)
    → now ≤ later
    → is_authenticated js keys default_role st later ≡ true
    → is_authenticated js keys default_role st now ≡ true
is_authenticated_earlier js keys default_role st now later h a =
    let (token, p, n, stored, nonempty, parsed, e, before) =
      (is_authenticated_iff js keys default_role st later).0 a in
    (is_authenticated_iff js keys default_role st now).1
      (token, p, n, stored, nonempty, parsed, e, omega arith)
