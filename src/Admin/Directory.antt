-- ===== src/Admin/Directory.antt =====
-- The lists of admin/src/pages/Users.tsx, Organizations.tsx and RelayNodes.tsx with their search, and
-- the uptime of RelayNodeDetail.tsx beside them.
use Prim.Native.String
use Prim.Native.Nat.{◌%◌}
use omni_tun.Prelude.{
  ℕ, ◌+◌, ◌*◌, ◌/◌, ◌<◌, ◌≤◌, String, Bool, ◌||◌, Option, List, length, select, arith, ◌==◌,
}
use omni_tun.Palette.{includes}

pub record UserRow : Type 0 where
  pub id : String
  pub name : String
  pub email : String
  pub org_name : String
  pub role : String
  pub status : String
  pub created_at : String
  pub last_login_at : Option String

pub record OrgRow : Type 0 where
  pub id : String
  pub name : String
  pub email : String
  pub plan : String
  pub status : String
  pub tunnel_count : ℕ
  pub user_count : ℕ
  pub created_at : String

pub record RelayRow : Type 0 where
  pub id : String
  pub name : String
  pub hostname : String
  pub region : String
  pub status : String
  pub version : String
  pub cpu_usage : ℕ
  pub memory_usage : ℕ
  pub active_connections : ℕ
  pub last_seen_at : String

-- `to_lower` is `toLowerCase`.
module _ (to_lower : String → String) (search : String) where
  abbrev pub matches : String → Bool
  matches text = includes (to_lower search) (to_lower text)

  unfoldable pub filtered_users : List UserRow → List UserRow
  filtered_users users = select (λ u. matches u.name || matches u.email || matches u.org_name) users

  unfoldable pub filtered_orgs : List OrgRow → List OrgRow
  filtered_orgs orgs = select (λ o. matches o.name || matches o.email) orgs

  unfoldable pub filtered_relays : List RelayRow → List RelayRow
  filtered_relays relays =
      select (λ r. matches r.name || matches r.hostname || matches r.region) relays

abbrev pub is_online : RelayRow → Bool
is_online r = r.status == "online"

unfoldable pub online_count : List RelayRow → ℕ
online_count relays = length (select is_online relays)

-- The whole days, and the whole hours of the rest.
abbrev pub uptime_days : ℕ → ℕ
uptime_days seconds = seconds / 86400

abbrev pub uptime_hours : ℕ → ℕ
uptime_hours seconds = (seconds % 86400) / 3600

-- `number_text` prints a number.
unfoldable pub format_uptime : (ℕ → String) → ℕ → String
format_uptime number_text seconds =
    String.◌++◌ (number_text (uptime_days seconds))
      (String.◌++◌ "d " (String.◌++◌ (number_text (uptime_hours seconds)) "h"))

-- The days and hours shown lie less than an hour below the uptime, and the hours are fewer than a day's.
pub uptime_lem :
    (seconds : ℕ)
    → (let shown = uptime_days seconds * 86400 + uptime_hours seconds * 3600 in
        (shown ≤ seconds) × (seconds < shown + 3600) × (uptime_hours seconds < 24))
uptime_lem seconds = (omega arith, omega arith, omega arith)
