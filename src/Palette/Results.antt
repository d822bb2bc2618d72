-- ===== src/Palette/Results.antt =====
-- The results of a query, and the groups that they are shown in.
use omni_tun.Prelude.{
  ℕ, zero, suc, String, Bool, ◌||◌, Option, none, some, List, [], ◌∷◌, ◌++◌, map, select, ◌==◌,
  if◌then◌else◌,
}
use Prim.Native.String
use omni_tun.Types.{Tunnel, protocol_text}
use omni_tun.Palette.Matching.{fuzzy_match, is_empty}

-- `SearchResult`, without the icon.
pub record SearchResult : Type 0 where
  pub id : String
  pub name : String
  pub subtitle : String
  pub group : String
  pub to : String

pub record DomainItem : Type 0 where
  pub id : String
  pub domain : String
  pub tunnel_name : Option String
  pub tunnel_id : Option String
  pub verification_status : Option String

pub record MeshNetworkItem : Type 0 where
  pub id : String
  pub name : String
  pub cidr : Option String

pub record SettingsRoute : Type 0 where
  pub name : String
  pub slug : String
  pub to : String

-- What the query cache holds.
pub record Cache : Type 0 where
  pub tunnels : List Tunnel
  pub domains : List DomainItem
  pub mesh_networks : List MeshNetworkItem

-- `toLowerCase`, `toUpperCase`, the text of a translation key and of a number: parameters.
pub record Locale : Type 0 where
  pub to_lower : String → String
  pub to_upper : String → String
  pub translate : String → String
  pub number_text : ℕ → String

abbrev pub or_text : Option String → String → String
or_text none otherwise = otherwise
or_text (some s) otherwise = s

-- `s || otherwise`
abbrev pub or_filled : Option String → String → String
or_filled none otherwise = otherwise
or_filled (some s) otherwise = if s == "" then otherwise else s

-- `s.slice(0, n)`
abbrev pub take_text : ℕ → String → String
take_text zero s = String.[]
take_text (suc n) String.[] = String.[]
take_text (suc n) (String.◌∷◌ c s) = String.◌∷◌ c (take_text n s)

abbrev pub settings_routes : List SettingsRoute
settings_routes =
    record { name = "nav.settings"; slug = "settings"; to = "/settings" }
    ∷ record {
      name = "settings.tabs.organization";
      slug = "settings-organization";
      to = "/settings";
    }
    ∷ record { name = "settings.tabs.security"; slug = "settings-security"; to = "/settings" }
    ∷ record { name = "settings.tabs.api_keys"; slug = "settings-api"; to = "/settings" }
    ∷ record { name = "billing.title"; slug = "billing"; to = "/billing" }
    ∷ record { name = "notifications.title"; slug = "notifications"; to = "/notifications" }
    ∷ []

module _ (lo : Locale) (query : String) where
  abbrev pub found : String → Bool
  found text = fuzzy_match lo.to_lower query text

  -- `forEach` that pushes what it finds.
  abbrev pub collect {ℓ} :
      {A : Type ℓ} → (A → Bool) → (A → SearchResult) → List A → List SearchResult
  collect matches to_result items = map to_result (select matches items)

  unfoldable pub tunnel_matches : Tunnel → Bool
  tunnel_matches tunnel = found tunnel.name || found (or_text tunnel.domain "")

  unfoldable pub tunnel_result : Tunnel → SearchResult
  tunnel_result tunnel = record {
    id = String.◌++◌ "tunnel-" tunnel.id;
    name = tunnel.name;
    subtitle = String.◌++◌ (lo.to_upper (protocol_text tunnel.protocol)) (
        String.◌++◌ " — "
          (or_filled tunnel.domain (String.◌++◌ "Port " (lo.number_text tunnel.remote_port))));
    group = "tunnels";
    to = String.◌++◌ "/tunnels/" tunnel.id;
  }

  unfoldable pub domain_matches : DomainItem → Bool
  domain_matches d = found d.domain || found (or_text d.tunnel_name "")

  unfoldable pub domain_result : DomainItem → SearchResult
  domain_result d = record {
    id = String.◌++◌ "domain-" d.id;
    name = d.domain;
    subtitle = or_text d.tunnel_name (take_text 8 (or_text d.tunnel_id ""));
    group = "domains";
    to = "/domains";
  }

  unfoldable pub network_matches : MeshNetworkItem → Bool
  network_matches n = found n.name

  unfoldable pub network_result : MeshNetworkItem → SearchResult
  network_result n = record {
    id = String.◌++◌ "network-" n.id;
    name = n.name;
    subtitle = or_text n.cidr "";
    group = "networks";
    to = String.◌++◌ "/networks/" n.id;
  }

  unfoldable pub settings_matches : SettingsRoute → Bool
  settings_matches s = found (lo.translate s.name) || found s.slug

  unfoldable pub settings_result : SettingsRoute → SearchResult
  settings_result s = record {
    id = String.◌++◌ "settings-" s.slug;
    name = lo.translate s.name;
    subtitle = lo.translate "nav.settings";
    group = "settings";
    to = s.to;
  }

  -- The only link; its name is what the `replace` calls make of its slug.
  abbrev pub docs_link : SearchResult
  docs_link = record {
    id = "docs-getting-started";
    name = "Getting Started";
    subtitle = "";
    group = "docs";
    to = "#";
  }

  unfoldable pub docs_results : List SearchResult
  docs_results =
      if is_empty query then [] else if found "docs-getting-started" then docs_link ∷ [] else []

  unfoldable pub results : Cache → List SearchResult
  results cache =
      collect tunnel_matches tunnel_result cache.tunnels
      ++ (collect domain_matches domain_result cache.domains
          ++ (collect network_matches network_result cache.mesh_networks
              ++ (collect settings_matches settings_result settings_routes ++ docs_results)))

-- The `Map` of the groups, in the order in which they were first met.
abbrev pub Groups : Type 0
Groups = List (String × List SearchResult)

-- `map.get(r.group) ?? []`, `push`, `map.set`
unfoldable pub put_result : SearchResult → Groups → Groups
put_result r [] = (r.group, r ∷ []) ∷ []
put_result r ((g, items) ∷ groups) =
    let rest = put_result r groups in
    if r.group == g then (g, items ++ (r ∷ [])) ∷ groups else (g, items) ∷ rest

abbrev pub grouped_onto : Groups → List SearchResult → Groups
grouped_onto groups [] = groups
grouped_onto groups (r ∷ rs) = grouped_onto (put_result r groups) rs

unfoldable pub grouped : List SearchResult → Groups
grouped rs = grouped_onto [] rs
