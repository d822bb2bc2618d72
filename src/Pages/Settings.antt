-- ===== src/Pages/Settings.antt =====
-- web/src/pages/Settings.tsx: the tabs of the API keys, of the second factor, of the invitations and of
-- the sessions. Toasts are translation keys, the latest first.
use Prim.Native.String
use omni_tun.Prelude.{
  ◌>>=◌, pos, String, Bool, false, not, ◌||◌, Option, none, some, List, [], ◌∷◌, ◌==◌, nat_eq,
  if◌then◌else◌,
}
use omni_tun.Js.{Value, num, str, entry, no_entries, prop, truthy}
use omni_tun.Js.Env.{Js}
use omni_tun.Api.{Request, Reply, Result, ok, throw, App, World, request}
use omni_tun.Queries.{Queries, plain, bare, with_body, send_mutation}
use omni_tun.Store.{AuthState, fetch_user}
use omni_tun.Forms.{is_blank, text_length}

pub record ApiKeysTab : Type 0 where
  pub show_create_key : Bool
  pub new_key_name : String
  pub created_key : Option Value
  pub revoke_target : Option String
  pub toasts : List String
  pub queries : Queries

pub record SecurityTab : Type 0 where
  pub is_enrolling : Bool
  pub secret : Value
  pub qr_code_url : Value
  pub verify_code : String
  pub is_verifying : Bool
  pub is_disabling : Bool
  pub toasts : List String
  pub auth : AuthState

pub record MembersTab : Type 0 where
  pub is_generating : Bool
  pub toasts : List String
  pub queries : Queries

pub record SessionsTab : Type 0 where
  pub revoke_target : Option String
  pub toasts : List String
  pub queries : Queries

abbrev pub api_key_path : String → String
api_key_path id = String.◌++◌ "/v1/api-keys/" id

abbrev pub api_keys_key : List String
api_keys_key = "apikeys" ∷ []

abbrev pub invitations_key : List String
invitations_key = "invitations" ∷ []

abbrev pub sessions_key : List String
sessions_key = "sessions" ∷ []

unfoldable pub close_created_key : ApiKeysTab → ApiKeysTab
close_created_key s = record s { created_key = none; show_create_key = false }

module _ (js : Js) (app : App) (net : List Request → Request → Reply) where
  -- `onSuccess`, which fails on a reply without properties, and what follows the call.
  abbrev pub key_created : Result Value → ApiKeysTab → ApiKeysTab
  key_created (throw e) s = s
  key_created (ok reply) s = elim (prop reply "key") [
    | none ↦ s
    | some key ↦ record s { created_key = some key; new_key_name = "" }
  ]

  -- `trim` is `String.prototype.trim`.
  unfoldable pub handle_create_key : (String → String) → ApiKeysTab → ApiKeysTab
  handle_create_key trim s =
      if is_blank s.new_key_name
      then s
      else (let (result, q) =
            send_mutation js app net "/v1/api-keys"
              (with_body js "POST" (entry "name" (str (trim s.new_key_name)) no_entries))
              (api_keys_key ∷ []) s.queries in
          key_created result (record s { queries = q }))

  -- The toast is the one of a creation.
  abbrev pub key_revoked : Result Value → ApiKeysTab → ApiKeysTab
  key_revoked (throw e) s = s
  key_revoked (ok v) s = record s {
    toasts = "settings.api_keys.created" ∷ s.toasts;
    revoke_target = none;
  }

  unfoldable pub revoke_key : String → ApiKeysTab → ApiKeysTab
  revoke_key id s =
      let (result, q) =
        send_mutation js app net (api_key_path id) (bare "DELETE") (api_keys_key ∷ []) s.queries in
      key_revoked result (record s { queries = q })

  abbrev pub with_api : World → SecurityTab → SecurityTab
  with_api w s = record s { auth = record s.auth { api = w } }

  abbrev pub told : String → SecurityTab → SecurityTab
  told key s = record s { toasts = key ∷ s.toasts }

  abbrev pub enrolment_of : Value → Option (Value × Value)
  enrolment_of reply = do
    secret ← prop reply "secret"
    url ← prop reply "qr_code_url"
    some (secret, url)

  abbrev pub show_enrolment : Option (Value × Value) → SecurityTab → SecurityTab
  show_enrolment none s = told "settings.security.enroll_failed" s
  show_enrolment (some (secret, url)) s = record s { secret = secret; qr_code_url = url }

  abbrev pub enrolled : Result Value → SecurityTab → SecurityTab
  enrolled (ok reply) s = show_enrolment (enrolment_of reply) s
  enrolled (throw e) s = told "settings.security.enroll_failed" s

  unfoldable pub handle_enroll_mfa : SecurityTab → SecurityTab
  handle_enroll_mfa s =
      let (result, w) = request js app net "/v1/auth/mfa/enroll" plain s.auth.api in
      record (enrolled result (with_api w s)) { is_enrolling = false }

  -- `await fetchUser()`
  abbrev pub refreshed : SecurityTab → SecurityTab
  refreshed s = record s { auth = fetch_user js app net s.auth }

  abbrev pub verify_read : Option Value → SecurityTab → SecurityTab
  verify_read none s = told "settings.security.verify_failed" s
  verify_read (some success) s =
      if truthy success
      then refreshed (record (told "settings.security.mfa_enabled" s) {
        secret = str "";
        qr_code_url = str "";
        verify_code = "";
      })
      else told "settings.security.verify_failed" s

  abbrev pub verified : Result Value → SecurityTab → SecurityTab
  verified (ok reply) s = verify_read (prop reply "success") s
  verified (throw e) s = told "settings.security.verify_failed" s

  unfoldable pub handle_verify_mfa : SecurityTab → SecurityTab
  handle_verify_mfa s =
      if (s.verify_code == "") || not (nat_eq (text_length s.verify_code) 6)
      then s
      else (let (result, w) =
            request js app net "/v1/auth/mfa/verify"
              (with_body js "POST" (entry "code" (str s.verify_code) no_entries)) s.auth.api in
          record (verified result (with_api w s)) { is_verifying = false })

  abbrev pub disabled : Result Value → SecurityTab → SecurityTab
  disabled (ok v) s = refreshed (told "settings.security.mfa_disabled" s)
  disabled (throw e) s = told "settings.security.disable_failed" s

  unfoldable pub handle_disable_mfa : SecurityTab → SecurityTab
  handle_disable_mfa s =
      let (result, w) = request js app net "/v1/auth/mfa/disable" (bare "POST") s.auth.api in
      record (disabled result (with_api w s)) { is_disabling = false }

  abbrev pub invitation_made : String → Result Value → MembersTab → MembersTab
  invitation_made key (ok v) s = record s { toasts = key ∷ s.toasts }
  invitation_made key (throw e) s = s

  -- An invitation without a limit of uses, for seven days; with the `finally`.
  unfoldable pub generate_link : MembersTab → MembersTab
  generate_link s =
      let (result, q) =
        send_mutation js app net "/v1/org/invitations"
          (with_body js "POST"
            (entry "max_uses" (num (pos 0)) (entry "expires_in" (num (pos 604_800)) no_entries)))
          (invitations_key ∷ []) s.queries in
      record (invitation_made "invitations.generate" result (record s { queries = q })) {
        is_generating = false;
      }

  unfoldable pub delete_invitation : String → MembersTab → MembersTab
  delete_invitation id s =
      let (result, q) =
        send_mutation js app net (String.◌++◌ "/v1/org/invitations/" id) (bare "DELETE")
          (invitations_key ∷ []) s.queries in
      invitation_made "invitations.deleted" result (record s { queries = q })

  abbrev pub session_revoked : Result Value → SessionsTab → SessionsTab
  session_revoked (ok v) s = record s {
    toasts = "sessions.revoked" ∷ s.toasts;
    revoke_target = none;
  }
  session_revoked (throw e) s = s

  abbrev pub revoke_session : String → SessionsTab → SessionsTab
  revoke_session id s =
      let (result, q) =
        send_mutation js app net (String.◌++◌ "/v1/sessions/" id) (bare "DELETE")
          (sessions_key ∷ []) s.queries in
      session_revoked result (record s { queries = q })

  -- An empty id counts as none.
  unfoldable pub handle_revoke_session : SessionsTab → SessionsTab
  handle_revoke_session s = elim s.revoke_target [
    | none ↦ s
    | some id ↦ if id == "" then s else revoke_session id s
  ]
