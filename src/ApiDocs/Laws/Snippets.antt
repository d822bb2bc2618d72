-- ===== src/ApiDocs/Laws/Snippets.antt =====
-- The samples in Go and in Python.
use Prim.Native.String
use text.Mathlib.TextLemmas.{
  append_cancel_left, cons-append, append-nil as text_append-nil, append_assoc as text_append_assoc,
}
use omni_tun.Prelude.{
  ℕ, Dict, ◌≤◌, code, String, false, ◌≡◌, ◌≢◌, ap, sym, ◌∙◌, Option, none, some, [], ◌∷◌, get, ◌==◌,
  arith, String-cases, ne→eq_false, eq_refl, eq_iff, inl, inr, if◌then◌else◌, ◌>>=◌,
}
use omni_tun.Palette.{or_text}
use omni_tun.ApiDocs.Samples.{
  sample_tag, capitalised, go_list, go_create, go_one, go_delete, sample_key, go_todo,
  generate_go_snippet, python_list, python_create, python_one, python_delete, python_todo,
  generate_python_snippet,
}

pub data HttpMethod : Type 0 where
  get_ post put_ patch delete_ : HttpMethod

abbrev pub method_text : HttpMethod → String
method_text get_ = "get"
method_text post = "post"
method_text put_ = "put"
method_text patch = "patch"
method_text delete_ = "delete"

abbrev first_code : String → ℕ
first_code String.[] = 0
first_code (String.◌∷◌ c s) = code c

first_code-append : (s t : String) → 1 ≤ first_code s → first_code (String.◌++◌ s t) ≡ first_code s
first_code-append String.[] t h = absurd (omega arith)
first_code-append (String.◌∷◌ c s) t h = ap first_code (cons-append c s t)

-- A text is not found under a key that begins differently.
get_other :
    (k j v : String) (d : Dict String) → first_code j ≢ first_code k → get k ((j, v) ∷ d) ≡ get k d
unfolding get
get_other k j v d h = rw (ne→eq_false j k (λ e. h (ap first_code e)))

other_ne :
    (front tag other : String)
    → (other == tag) ≡ false
    → String.◌++◌ front other ≢ String.◌++◌ front tag
other_ne front tag other ne e = cc (ne, (eq_iff other tag).1 (append_cancel_left front other tag e))

-- After the method and the dash it is the tag that decides.
get_same :
    (front tag other v : String) (d : Dict String)
    → get (String.◌++◌ front tag) ((String.◌++◌ front other, v) ∷ d)
      ≡ (if other == tag then some v else get (String.◌++◌ front tag) d)
unfolding get
get_same front tag other v d = elim (String-cases other tag) [
  | inl same ↦ rw (same, eq_refl, eq_refl)
  | inr ne ↦ rw (
    ne,
    ne→eq_false (String.◌++◌ front other) (String.◌++◌ front tag) (other_ne front tag other ne),
  )
]

abbrev from_get : String → String → Dict String
from_get one delete = ("get-tunnel", one) ∷ ("delete-tunnel", delete) ∷ []

abbrev from_create : String → String → String → Dict String
from_create create one delete = ("create-tunnel", create) ∷ from_get one delete

abbrev samples_of : String → String → String → String → Dict String
samples_of list create one delete = ("list-tunnels", list) ∷ from_create create one delete

-- What is found among the samples, which the method and the tag decide.
abbrev pub found : HttpMethod → String → String → String → Option String
found get_ tag one delete = if "tunnel" == tag then some one else none
found delete_ tag one delete = if "tunnel" == tag then some delete else none
found _ tag one delete = none

-- No key of a sample begins with "p".
get-samples_of_p :
    (k list create one delete : String)
    → first_code k ≡ 112
    → get k (samples_of list create one delete) ≡ none
unfolding get
get-samples_of_p k list create one delete h =
    get_other k "list-tunnels" list (from_create create one delete) (omega (arith, h))
    ∙ get_other k "create-tunnel" create (from_get one delete) (omega (arith, h))
    ∙ get_other k "get-tunnel" one (("delete-tunnel", delete) ∷ []) (omega (arith, h))
    ∙ get_other k "delete-tunnel" delete [] (omega (arith, h))

abbrev key : String → String → String
key front tag = String.◌++◌ front tag

get-samples_of_key :
    (m : HttpMethod) (tag list create one delete : String)
    → get (key (String.◌++◌ (method_text m) "-") tag) (samples_of list create one delete)
      ≡ found m tag one delete
unfolding get
get-samples_of_key get_ tag list create one delete =
    let k = key "get-" tag in
    let h = first_code-append "get-" tag (omega arith) in
    get_other k "list-tunnels" list (from_create create one delete) (omega (arith, h))
    ∙ get_other k "create-tunnel" create (from_get one delete) (omega (arith, h))
    ∙ get_same "get-" tag "tunnel" one (("delete-tunnel", delete) ∷ [])
    ∙ ap (λ o. if "tunnel" == tag then some one else o)
        (get_other k "delete-tunnel" delete [] (omega (arith, h)))
get-samples_of_key delete_ tag list create one delete =
    let k = key "delete-" tag in
    let h = first_code-append "delete-" tag (omega arith) in
    get_other k "list-tunnels" list (from_create create one delete) (omega (arith, h))
    ∙ get_other k "create-tunnel" create (from_get one delete) (omega (arith, h))
    ∙ get_other k "get-tunnel" one (("delete-tunnel", delete) ∷ []) (omega (arith, h))
    ∙ get_same "delete-" tag "tunnel" delete []
get-samples_of_key post tag list create one delete =
    get-samples_of_p (key "post-" tag) list create one delete
      (first_code-append "post-" tag (omega arith))
get-samples_of_key put_ tag list create one delete =
    get-samples_of_p (key "put-" tag) list create one delete
      (first_code-append "put-" tag (omega arith))
get-samples_of_key patch tag list create one delete =
    get-samples_of_p (key "patch-" tag) list create one delete
      (first_code-append "patch-" tag (omega arith))

get-samples_of :
    (m : HttpMethod) (tag list create one delete : String)
    → get (sample_key (method_text m) tag) (samples_of list create one delete)
      ≡ found m tag one delete
get-samples_of m tag list create one delete =
    ap (λ k. get k (samples_of list create one delete))
      (sym (text_append_assoc (method_text m) "-" (String.◌++◌ tag ""))
        ∙ ap (λ t. String.◌++◌ (String.◌++◌ (method_text m) "-") t) (text_append-nil tag))
    ∙ get-samples_of_key m tag list create one delete

-- Whatever the method and the path: the samples in Go and in Python are those of getting or deleting one
-- tunnel, for GET and DELETE of a path of tunnels, the list of the tunnels included, and else the one
-- "TODO" line; those of listing and of creating tunnels are never shown. Where a text to capitalise is
-- empty there is no sample in Go.
pub generate_snippets_lem :
    (to_upper : String → String) (m : HttpMethod) (path : String)
    → (let tag = sample_tag path in
        (generate_go_snippet to_upper (method_text m) path ≡ (
          capitalised to_upper tag >>= λ service. elim (found m tag go_one go_delete) [
            | some snippet ↦ some snippet
            | none ↦ capitalised to_upper (method_text m) >>= λ call. some (go_todo service call)
          ]))
        × (generate_python_snippet (method_text m) path
            ≡ or_text (found m tag python_one python_delete) (python_todo tag (method_text m))))
unfolding generate_go_snippet generate_python_snippet
generate_snippets_lem to_upper m path =
    let tag = sample_tag path in
    (
      ap
          (λ o. capitalised to_upper tag >>= λ service. elim o [
            | some snippet ↦ some snippet
            | none ↦ capitalised to_upper (method_text m) >>= λ call. some (go_todo service call)
          ])
          (get-samples_of m tag go_list go_create go_one go_delete),
      ap (λ o. or_text o (python_todo tag (method_text m)))
          (get-samples_of m tag python_list python_create python_one python_delete),
    )
