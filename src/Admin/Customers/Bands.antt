-- ===== src/Admin/Customers/Bands.antt =====
-- The filter by health and the colours of both pages.
use omni_tun.Prelude.{
  ℕ, String, Bool, true, false, ◌&&◌, ◌≡◌, ◌↔◌, ◌⊎◌, refl, ap, sym, ◌∙◌, eq_iff, List, [], ◌∷◌,
  ◌++◌, ◌==◌, leb, arith, Bool-cases, inl, inr, if◌then◌else◌,
}
use omni_tun.Admin.IpWhitelist.{value_of}
use omni_tun.Admin.AuditLogs.{param_if}
use omni_tun.Admin.Customers.Defs.{
  CustomerCrm, health_color, detail_health_color, health_params, build_query,
}

pub data Band : Type 0 where
  healthy at_risk critical : Band

-- The option of the filter, and its colour.
abbrev pub band_text : Band → String
band_text healthy = "healthy"
band_text at_risk = "at_risk"
band_text critical = "critical"

abbrev pub band_color : Band → String
band_color healthy = "bg-emerald-500"
band_color at_risk = "bg-amber-500"
band_color critical = "bg-red-500"

-- A score lies within the bounds that are asked for.
abbrev pub within : ℕ → List (String × String) → Bool
within score [] = true
within score ((name, value) ∷ params) =
    (if name == "health_min"
      then leb (value_of value) score
      else if name == "health_max"
      then leb score (value_of value)
      else true)
    && within score params

within-param_if :
    (score : ℕ) (value : String) (params : List (String × String))
    → (within score (param_if "plan" value ++ params) ≡ within score params)
      × (within score (param_if "status" value ++ params) ≡ within score params)
within-param_if score value params = elim (Bool-cases (value == "")) [
  | inl empty ↦ rw empty (refl, refl)
  | inr filled ↦ rw filled (refl, refl)
]

-- The four tests on a score, in each of its three ranges.
abbrev TestsAre : ℕ → Bool → Bool → Bool → Bool → Type 0
TestsAre score at_least_80 at_least_50 at_most_79 at_most_49 =
    (leb 80 score ≡ at_least_80)
    × (leb 50 score ≡ at_least_50)
    × (leb score 79 ≡ at_most_79)
    × (leb score 49 ≡ at_most_49)

ranges :
    (score : ℕ)
    → TestsAre score true true false false
      ⊎ TestsAre score false true true false
      ⊎ TestsAre score false false true true
ranges score = elim (Bool-cases (leb 80 score)) [
  | inl high ↦ inl (high, ground (arith, high), ground (arith, high), ground (arith, high))
  | inr low ↦ elim (Bool-cases (leb 50 score)) [
    | inl middle ↦ inr (inl (low, middle, ground (arith, low), ground (arith, middle)))
    | inr lowest ↦ inr (inr (low, lowest, ground (arith, low), ground (arith, lowest)))
  ]
]

-- The bounds and the colour, as tests.
within-health_params :
    (band : Band) (score : ℕ)
    → within score (health_params (band_text band)) ≡ (health_color score == band_color band)
unfolding health_color
within-health_params healthy score = elim (ranges score) [
  | inl h ↦ simp (h.0, health_color)
  | inr (inl h) ↦ simp (h.0, h.1, health_color)
  | inr (inr h) ↦ simp (h.0, h.1, health_color)
]
within-health_params at_risk score = elim (ranges score) [
  | inl h ↦ simp (h.0, h.1, h.2, health_color)
  | inr (inl h) ↦ simp (h.0, h.1, h.2, health_color)
  | inr (inr h) ↦ simp (h.0, h.1, h.2, health_color)
]
within-health_params critical score = elim (ranges score) [
  | inl h ↦ simp (h.0, h.3, health_color)
  | inr (inl h) ↦ simp (h.0, h.1, h.3, health_color)
  | inr (inr h) ↦ simp (h.0, h.1, h.3, health_color)
]

within-build_query :
    (s : CustomerCrm) (band : Band) (score : ℕ)
    → s.health_filter ≡ band_text band
    → within score (build_query s) ≡ (health_color score == band_color band)
unfolding build_query
within-build_query s band score h =
    (within-param_if score s.plan_filter
      (param_if "status" s.status_filter ++ health_params s.health_filter)).0
    ∙ (within-param_if score s.status_filter (health_params s.health_filter)).1
    ∙ ap (λ filter. within score (health_params filter)) h
    ∙ within-health_params band score

-- Whatever the other filters are: with a band of the health chosen, the query asks for exactly the scores
-- that both pages show in the colour of the band.
pub build_query-bands :
    (s : CustomerCrm) (band : Band) (score : ℕ)
    → s.health_filter ≡ band_text band
    → ((within score (build_query s) ≡ true) ↔ (health_color score ≡ band_color band))
      × ((within score (build_query s) ≡ true) ↔ (detail_health_color score ≡ band_color band))
unfolding detail_health_color health_color
build_query-bands s band score h =
    let e = within-build_query s band score h in
    let same = eq_iff (health_color score) (band_color band) in
    let both : (within score (build_query s) ≡ true) ↔ (health_color score ≡ band_color band) =
      (λ t. same.0 (sym e ∙ t), λ c. e ∙ same.1 c) in
    (both, both)
