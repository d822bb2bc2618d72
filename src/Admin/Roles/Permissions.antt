-- ===== src/Admin/Roles/Permissions.antt =====
-- The permissions and their boxes.
use Prim.Native.String
use omni_tun.Prelude.{
  String, Char, Bool, not, ◌&&◌, Option, none, some, List, [], ◌∷◌, ◌++◌, any, all, select,
  contains, toggle_in, split_on, same_char, if◌then◌else◌,
}

abbrev pub permission_categories : List (String × List String)
permission_categories =
    (
      "Tunnels",
      "tunnels:create" ∷ "tunnels:read" ∷ "tunnels:update" ∷ "tunnels:delete" ∷ "tunnels:start"
          ∷ "tunnels:stop" ∷ [],
    )
    ∷ ("Domains", "domains:create" ∷ "domains:read" ∷ "domains:update" ∷ "domains:delete" ∷ [])
    ∷ (
      "Networks",
      "networks:create" ∷ "networks:read" ∷ "networks:update" ∷ "networks:delete" ∷ "networks:join"
          ∷ "networks:leave" ∷ [],
    )
    ∷ ("Billing", "billing:read" ∷ "billing:manage" ∷ [])
    ∷ ("Members", "members:read" ∷ "members:invite" ∷ "members:remove" ∷ "members:change_role" ∷ [])
    ∷ ("Settings", "settings:read" ∷ "settings:update" ∷ [])
    ∷ []

-- `s.replace('_', ' ')`: the first one only.
abbrev pub replace_first : Char → Char → String → String
replace_first old new String.[] = String.[]
replace_first old new (String.◌∷◌ c s) =
    let rest = replace_first old new s in
    if same_char c old then String.◌∷◌ new s else String.◌∷◌ c rest

-- `s.charAt(0).toUpperCase() + s.slice(1)`; `to_upper` is `toUpperCase`.
abbrev pub capitalised : (String → String) → String → String
capitalised to_upper String.[] = to_upper ""
capitalised to_upper (String.◌∷◌ c s) = String.◌++◌ (to_upper (String.◌∷◌ c String.[])) s

abbrev pub label_of : (String → String) → List String → Option String
label_of to_upper (resource ∷ action ∷ rest) =
    some
      (String.◌++◌ (replace_first "_" " " action) (String.◌++◌ " " (capitalised to_upper resource)))
label_of to_upper parts = none

-- `permissionLabel`; it throws where there is no colon.
unfoldable pub permission_label : (String → String) → String → Option String
permission_label to_upper perm = label_of to_upper (split_on ":" perm)

unfoldable pub toggle_permission : String → List String → List String
toggle_permission perm prev = toggle_in perm prev

unfoldable pub toggle_category : List String → Bool → List String → List String
toggle_category perms checked prev =
    if checked
    then prev ++ select (λ p. not (contains p prev)) perms
    else select (λ p. not (contains p perms)) prev

unfoldable pub all_category_checked : List String → List String → Bool
all_category_checked perms form_perms = all (λ p. contains p form_perms) perms

unfoldable pub some_category_checked : List String → List String → Bool
some_category_checked perms form_perms =
    any (λ p. contains p form_perms) perms && not (all_category_checked perms form_perms)
