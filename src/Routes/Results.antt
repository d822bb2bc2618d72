-- ===== src/Routes/Results.antt =====
-- Where the results of the command palette lead.
use Prim.Native.String
use omni_tun.Prelude.{String, ◌≡◌, ◌⊎◌, All}
use omni_tun.Palette.{SearchResult, Cache, SettingsRoute}
use omni_tun.Routes.Defs.{Router}
use omni_tun.Routes.Tables.{web_routes}
use omni_tun.Routes.Links.{IsSegment, LeadsToPage}

-- The ids of the tunnels and of the networks fill one part of a tidy path.
abbrev pub IsLinkable : Cache → Type 0
IsLinkable cache =
    All (λ t. IsSegment t.id) cache.tunnels × All (λ n. IsSegment n.id) cache.mesh_networks

-- The result leads to a page, or nowhere: the link to the documentation is "#".
abbrev pub IsGoodResult : Router → SearchResult → Type 0
IsGoodResult router r = LeadsToPage router web_routes r.to ⊎ (r.to ≡ "#")

abbrev IsSettingsRoute : Router → SettingsRoute → Type 0
IsSettingsRoute router s = LeadsToPage router web_routes s.to
