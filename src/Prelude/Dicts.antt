-- ===== src/Prelude/Dicts.antt =====
-- A dictionary with text keys: `localStorage`, the headers of a request, `Map<string, T>`.
-- A key that is set again keeps its place, as in JavaScript.
use Prim.Native.String.{String}
use mathlib.Core.Path.{◌≡◌, refl}
use mathlib.Core.Option.{Option, none, some}
use mathlib.Core.List.{List, [], ◌∷◌}
use native.Mathlib.Omega.{arith}
use text.Mathlib.Text.{◌==◌}
use text.Mathlib.TextEquality.{eq_iff}
use text.Mathlib.TextPositions.{eq_refl}
use mathlib.Core.Logic.{◌≢◌}
use omni_tun.Prelude.Tests.{if◌then◌else◌}

abbrev pub Dict {ℓ} : Type ℓ → Type ℓ
Dict V = List (String × V)

module _ {ℓ} {V : Type ℓ} where
  unfoldable pub get : String → Dict V → Option V
  get k [] = none
  get k ((j, v) ∷ d) = if j == k then some v else get k d

  unfoldable pub put : String → V → Dict V → Dict V
  put k v [] = (k, v) ∷ []
  put k v ((j, w) ∷ d) = let rest = put k v d in if j == k then (k, v) ∷ d else (j, w) ∷ rest

  unfoldable pub remove : String → Dict V → Dict V
  remove k [] = []
  remove k ((j, w) ∷ d) = let rest = remove k d in if j == k then rest else (j, w) ∷ rest

  -- `{ ...first, ...second }`
  unfoldable pub spread : Dict V → Dict V → Dict V
  spread first [] = first
  spread first ((k, v) ∷ d) = spread (put k v first) d

  pub get-put :
      (k j : String) (v : V) (d : Dict V) → get j (put k v d) ≡ (if k == j then some v else get j d)
  unfolding get put
  get-put k j v [] = refl
  get-put k j v ((i, w) ∷ d) = ground (arith, eq_iff k j, eq_iff i k, eq_iff i j, get-put k j v d)

  pub get-remove :
      (k j : String) (d : Dict V) → get j (remove k d) ≡ (if k == j then none else get j d)
  unfolding get remove
  get-remove k j [] = ground arith
  get-remove k j ((i, w) ∷ d) = ground (arith, eq_iff k j, eq_iff i k, eq_iff i j, get-remove k j d)

module _ {ℓ} {V : Type ℓ} where
  pub get-put_self : (k : String) (v : V) (d : Dict V) → get k (put k v d) ≡ some v
  get-put_self k v d = simp (get-put, eq_refl)

  pub get-put_ne : {k j : String} (v : V) (d : Dict V) → k ≢ j → get j (put k v d) ≡ get j d
  get-put_ne {k} {j} v d h = rw get-put (ground (arith, eq_iff k j))

  pub get-remove_self : (k : String) (d : Dict V) → get k (remove k d) ≡ none
  get-remove_self k d = simp (get-remove, eq_refl)

  -- What is gone stays gone when another key is removed too.
  pub get-remove-none : (k j : String) (d : Dict V) → get j d ≡ none → get j (remove k d) ≡ none
  get-remove-none k j d h = rw (get-remove, h) (ground arith)

  pub get-remove_ne : {k j : String} (d : Dict V) → k ≢ j → get j (remove k d) ≡ get j d
  get-remove_ne {k} {j} d h = rw get-remove (ground (arith, eq_iff k j))

pub ruleset dict_laws = (get-put, get-remove)
