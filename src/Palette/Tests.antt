-- ===== src/Palette/Tests.antt =====
-- Runs of the palette on small inputs.
use omni_tun.Prelude.{
  ℕ, pos, String, true, false, ◌≡◌, refl, none, some, List, [], ◌∷◌, get_elem?, arith,
}
use omni_tun.Types.{Tunnel, http, active}
use omni_tun.Palette.{
  SearchResult, Locale, Cache, Palette, arrow_down, arrow_up, enter_key, handle_key, execute,
  fuzzy_match, includes, scan, grouped, results,
}
use omni_tun.Palette.Laws.Selection.{IsSelected, press, press-selects}
use omni_tun.Palette.Laws.Order.{flatten, flatten-grouped-results}

-- Locale in which every text is in lower case already.
abbrev plain_locale : Locale
plain_locale = record {
  to_lower = λ s. s;
  to_upper = λ s. s;
  translate = λ s. s;
  number_text = λ n. "80";
}

abbrev web_tunnel : Tunnel
web_tunnel = record {
  id = "t1";
  name = "web";
  protocol = http;
  local_port = 3000;
  remote_port = 80;
  domain = none;
  status = active;
  traffic_in = 0;
  traffic_out = 0;
  tags = none;
  auth_mode = none;
  tls_mode = none;
  compression = none;
  created_at = "";
  updated_at = "";
}

abbrev small_cache : Cache
small_cache = record {
  tunnels = web_tunnel ∷ [];
  domains =
      record {
        id = "d1";
        domain = "web.example";
        tunnel_name = some "web";
        tunnel_id = none;
        verification_status = none;
      }
      ∷ [];
  mesh_networks = record { id = "n1"; name = "office"; cidr = none } ∷ [];
}

abbrev row : String → SearchResult
row to = record { id = to; name = to; subtitle = ""; group = "networks"; to = to }

abbrev two_rows : List SearchResult
two_rows = row "/networks/a" ∷ row "/networks/b" ∷ []

abbrev opened : Palette
opened = record { is_open = true; query = ""; selected_index = pos 0; visited = [] }

finds_letters : fuzzy_match (λ s. s) "wb" "web" ≡ true
unfolding fuzzy_match includes scan
finds_letters = refl

misses_order : fuzzy_match (λ s. s) "bw" "web" ≡ false
unfolding fuzzy_match includes scan
misses_order = refl

flatten-grouped-results_example :
    flatten (grouped (results plain_locale "w" small_cache)) ≡ results plain_locale "w" small_cache
flatten-grouped-results_example = flatten-grouped-results plain_locale "w" small_cache

opened-IsSelected : IsSelected two_rows opened
opened-IsSelected = (0, refl, omega arith)

press-selects_example :
    (i : ℕ) × (item : SearchResult) × (get_elem? two_rows i ≡ some item)
    × ((press two_rows (arrow_down ∷ arrow_down ∷ arrow_up ∷ []) opened).selected_index ≡ pos i)
    × (handle_key two_rows enter_key
          (press two_rows (arrow_down ∷ arrow_down ∷ arrow_up ∷ []) opened)
        ≡ execute item.to (press two_rows (arrow_down ∷ arrow_down ∷ arrow_up ∷ []) opened))
press-selects_example =
    press-selects two_rows (arrow_down ∷ arrow_down ∷ arrow_up ∷ []) opened opened-IsSelected
