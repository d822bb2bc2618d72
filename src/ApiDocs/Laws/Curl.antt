-- ===== src/ApiDocs/Laws/Curl.antt =====
-- The commands of curl.
use text.Mathlib.TextLemmas.{append-nil as text_append-nil, append_assoc as text_append_assoc}
use omni_tun.Prelude.{
  String, ◌≡◌, refl, Option, List, [], ◌∷◌, select, any, Bool-cases, inl, inr, if◌then◌else◌,
}
use omni_tun.Js.{Value}
use omni_tun.ApiDocs.Defs.{Parameter, RequestBody}
use omni_tun.ApiDocs.Samples.{
  template, base_url, sends_body, is_in, header_lines, type_line, auth_line, query_string,
  data_line, json_schema, or_query, generate_curl,
}

or_query-any :
    (params : List Parameter) (first so_far : String)
    → or_query (select (is_in "query") params) first so_far ≡ (
        if any (is_in "query") params
        then template (first ∷ "?" ∷ query_string (select (is_in "query") params) ∷ "\"" ∷ [])
        else so_far)
or_query-any [] first so_far = refl
or_query-any (p ∷ ps) first so_far = elim (Bool-cases (is_in "query" p)) [
  | inl asked ↦ rw asked
  | inr other ↦ rw other (or_query-any ps first so_far)
]

module _ (to_upper : String → String) (pretty : Value → String) (method path : String)
    (params : List Parameter) (body : Option RequestBody) where
  -- What follows `curl -X` and the URL: the headers, unless there are parameters of the query.
  abbrev pub first_line : String
  first_line = template ("curl -X " ∷ to_upper method ∷ " \"" ∷ base_url ∷ path ∷ [])

  abbrev pub body_line : String
  body_line = if sends_body method then data_line pretty (json_schema body) else ""

  abbrev pub all_headers : String
  all_headers =
      template (header_lines (select (is_in "header") params) ∷ type_line method ∷ auth_line ∷ [])

  -- The command of a request without parameters of the query has every header, the one of the access
  -- token among them; the command of any other has no header at all.
  pub generate_curl_lem : generate_curl to_upper pretty method path params body ≡ (
      if any (is_in "query") params
      then template
          (first_line ∷ "?" ∷ query_string (select (is_in "query") params) ∷ "\"" ∷ body_line ∷ [])
      else template (first_line ∷ "\"" ∷ all_headers ∷ body_line ∷ []))
  unfolding generate_curl
  generate_curl_lem = elim (Bool-cases (sends_body method)) [
    | inl sends ↦ elim (Bool-cases (any (is_in "query") params)) [
      | inl asks ↦ rw (sends, or_query-any, asks) (simp (text_append_assoc, text_append-nil))
      | inr bare ↦ rw (sends, or_query-any, bare) (simp (text_append_assoc, text_append-nil))
    ]
    | inr none_sent ↦ elim (Bool-cases (any (is_in "query") params)) [
      | inl asks ↦ rw (none_sent, or_query-any, asks) (simp (text_append_assoc, text_append-nil))
      | inr bare ↦ rw (none_sent, or_query-any, bare) (simp (text_append_assoc, text_append-nil))
    ]
  ]
