-- ===== src/TunnelsPage/Listing.antt =====
-- The list as the page shows it, the selected ids, and the batch calls.
use omni_tun.Prelude.{
  ℕ, suc, ◌*◌, String, Bool, true, false, ◌&&◌, Option, none, some, List, [], ◌∷◌, ◌==◌, map,
  contains, without, toggle_in, length, take, drop, select, all, ltb, if◌then◌else◌,
}
use omni_tun.Types.{Tunnel}
use omni_tun.Js.{Value, obj, arr, str, entry, no_entries, Elements, element, no_elements}
use omni_tun.Js.Env.{Js}
use omni_tun.Api.{Request, Options, Reply, Result, ok, throw, World, App, request}

abbrev pub page_size : ℕ
page_size = 10

abbrev pub has_tag : String → Tunnel → Bool
has_tag tag tunnel = elim tunnel.tags [ none ↦ false | some tags ↦ contains tag tags ]

-- `filteredTunnels`; a filter that is the empty text is none.
unfoldable pub filtered : Option String → List Tunnel → List Tunnel
filtered none tunnels = tunnels
filtered (some tag) tunnels = if tag == "" then tunnels else select (has_tag tag) tunnels

-- `slice(page * PAGE_SIZE, (page + 1) * PAGE_SIZE)`
unfoldable pub paginated {ℓ} : {A : Type ℓ} → ℕ → List A → List A
paginated page tunnels = take page_size (drop (page * page_size) tunnels)

unfoldable pub has_more {ℓ} : {A : Type ℓ} → ℕ → List A → Bool
has_more page tunnels = ltb (suc page * page_size) (length tunnels)

-- `selectedIds`, a `Set` in the order of insertion.
abbrev pub Ids : Type 0
Ids = List String

-- `next.delete(id)` or `next.add(id)`
unfoldable pub toggle_select : String → Ids → Ids
unfolding toggle_in
toggle_select id ids = toggle_in id ids

unfoldable pub all_selected : Ids → List Tunnel → Bool
all_selected ids shown = ltb 0 (length shown) && all (λ t. contains t.id ids) shown

-- `new Set(…)` keeps the first of equal ids.
abbrev pub set_of : List String → Ids
set_of [] = []
set_of (id ∷ ids) = id ∷ without id (set_of ids)

unfoldable pub toggle_select_all : Ids → List Tunnel → Ids
toggle_select_all ids shown = if all_selected ids shown then [] else set_of (map (λ t. t.id) shown)

-- `handleTagFilter`: the new filter, with the first page.
unfoldable pub tag_filter_after : Option String → Option String → Option String × ℕ
tag_filter_after none none = (none, 0)
tag_filter_after none (some tag) = (some tag, 0)
tag_filter_after (some current) none = (none, 0)
tag_filter_after (some current) (some tag) = (if current == tag then none else some tag, 0)

abbrev pub id_items : Ids → Elements
id_items [] = no_elements
id_items (id ∷ ids) = element (str id) (id_items ids)

abbrev pub ids_body : Js → Ids → Options
ids_body js ids = record {
  method = some "POST";
  headers = [];
  body = some (js.stringify (obj (entry "ids" (arr (id_items ids)) no_entries)));
}

-- What the batch handlers change: the client, the selection, the ids of the open delete dialog, whether
-- a batch runs, how often the list was fetched again, and the toasts (success or not), latest first.
pub record Batch : Type 0 where
  pub api : World
  pub selected : Ids
  pub delete_targets : Option Ids
  pub processing : Bool
  pub refetches : ℕ
  pub toasts : List Bool

-- The rest of the `try`, or the `catch`; then the `finally`.
unfoldable pub batch_done : Result Value → Batch → Batch
batch_done (ok v) b = record b {
  selected = [];
  refetches = suc b.refetches;
  toasts = true ∷ b.toasts;
  processing = false;
}
batch_done (throw e) b = record b { toasts = false ∷ b.toasts; processing = false }

-- `setBatchDeleteTargets(null)`, on success only.
abbrev pub dialog_closed : Result Value → Batch → Batch
dialog_closed (ok v) b = record b { delete_targets = none }
dialog_closed (throw e) b = b

module _ (js : Js) (app : App) (net : List Request → Request → Reply) where
  abbrev pub batch_call : String → Ids → Batch → Result Value × Batch
  batch_call path ids b =
      let (result, w) = request js app net path (ids_body js ids) b.api in
      (result, record b { api = w; processing = true })

  unfoldable pub handle_batch_start : Batch → Batch
  handle_batch_start b =
      let (result, b') = batch_call "/v1/tunnels/batch/start" b.selected b in batch_done result b'

  unfoldable pub handle_batch_stop : Batch → Batch
  handle_batch_stop b =
      let (result, b') = batch_call "/v1/tunnels/batch/stop" b.selected b in batch_done result b'

  unfoldable pub handle_batch_delete : Batch → Batch
  handle_batch_delete b = elim b.delete_targets [
    | none ↦ b
    | some ids ↦
        let (result, b') = batch_call "/v1/tunnels/batch/delete" ids b in
        dialog_closed result (batch_done result b')
  ]
