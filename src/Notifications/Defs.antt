-- ===== src/Notifications/Defs.antt =====
-- The hook. A mounted component is a number; the layout and the notifications page are two of them.
use omni_tun.Prelude.{
  ℕ, ℤ, sub_ℕ, ◌*◌, String, Bool, true, false, not, Option, none, some, List, [], ◌∷◌, map, length,
  select, set, get_elem?, ◌==◌, if◌then◌else◌,
}

pub data Category : Type 0 where
  tunnels billing system : Category

pub data Severity : Type 0 where
  info warning error success : Severity

pub record Notification : Type 0 where
  pub id : String
  pub type : String
  pub category : Category
  pub title : String
  pub description : String
  pub read : Bool
  pub severity : Severity
  pub created_at : String
  pub link : Option String

abbrev minute : ℕ
minute = 60 * 1000

abbrev hour : ℕ
hour = 60 * minute

abbrev day : ℕ
day = 24 * hour

-- `iso` is `new Date(…).toISOString()`.
unfoldable pub generate_mock_notifications : (ℤ → String) → ℕ → List Notification
generate_mock_notifications iso now =
    record {
      id = "n1";
      type = "tunnel_created";
      category = tunnels;
      title = "Tunnel \"api-gateway\" created";
      description = "A new HTTP tunnel was created on port 8080.";
      read = false;
      severity = success;
      created_at = iso (sub_ℕ now (2 * minute));
      link = some "/tunnels";
    }
    ∷ record {
      id = "n2";
      type = "tunnel_error";
      category = tunnels;
      title = "Tunnel \"db-proxy\" connection error";
      description = "The tunnel failed to establish a connection to the remote server.";
      read = false;
      severity = error;
      created_at = iso (sub_ℕ now (15 * minute));
      link = some "/tunnels";
    }
    ∷ record {
      id = "n3";
      type = "domain_verified";
      category = tunnels;
      title = "Domain verified: app.example.com";
      description = "Your custom domain has been verified and is now active.";
      read = false;
      severity = success;
      created_at = iso (sub_ℕ now hour);
      link = some "/domains";
    }
    ∷ record {
      id = "n4";
      type = "billing_invoice";
      category = billing;
      title = "Invoice #INV-2026-05 generated";
      description = "Your monthly invoice for May 2026 is now available.";
      read = true;
      severity = info;
      created_at = iso (sub_ℕ now (2 * hour));
      link = some "/billing";
    }
    ∷ record {
      id = "n5";
      type = "billing_limit";
      category = billing;
      title = "Bandwidth usage at 80%";
      description = "You have used 8 GB of your 10 GB monthly bandwidth limit.";
      read = true;
      severity = warning;
      created_at = iso (sub_ℕ now (5 * hour));
      link = some "/billing";
    }
    ∷ record {
      id = "n6";
      type = "system_update";
      category = system;
      title = "OmniTun v2.4.0 released";
      description = "New features include enhanced mesh networking and improved performance.";
      read = true;
      severity = info;
      created_at = iso (sub_ℕ now day);
      link = none;
    }
    ∷ record {
      id = "n7";
      type = "system_maintenance";
      category = system;
      title = "Scheduled maintenance on June 1";
      description =
          "We will be performing scheduled maintenance. Expect up to 5 minutes of downtime.";
      read = true;
      severity = warning;
      created_at = iso (sub_ℕ now (2 * day));
      link = none;
    }
    ∷ record {
      id = "n8";
      type = "tunnel_started";
      category = tunnels;
      title = "Tunnel \"web-app\" started";
      description = "The tunnel has been started and is now accepting connections.";
      read = true;
      severity = success;
      created_at = iso (sub_ℕ now (3 * day));
      link = some "/tunnels";
    }
    ∷ []

-- The state of one mounted component.
pub record Hook : Type 0 where
  pub notifications : List Notification
  pub is_loading : Bool

-- `mockStore`, which the module has once, and the mounted components.
pub record Module : Type 0 where
  pub mock_store : List Notification
  pub hooks : List Hook

-- `setNotifications([...mockStore])` in component `i`.
unfoldable pub show_store : ℕ → Module → Module
show_store i m = elim (get_elem? m.hooks i) [
  | none ↦ m
  | some h ↦ record m { hooks = set m.hooks i (record h { notifications = m.mock_store }) }
]

-- The timer of component `i`, every thirty seconds.
unfoldable pub on_interval : (ℤ → String) → ℕ → ℕ → Module → Module
on_interval iso now i m =
    show_store i (record m { mock_store = generate_mock_notifications iso now })

-- `refetch`: `isLoading` is true and false again before anything else runs.
unfoldable pub refetch : (ℤ → String) → ℕ → ℕ → Module → Module
refetch iso now i m =
    let m' = show_store i (record m { mock_store = generate_mock_notifications iso now }) in
    elim (get_elem? m'.hooks i) [
      | none ↦ m'
      | some h ↦ record m' { hooks = set m'.hooks i (record h { is_loading = false }) }
    ]

abbrev pub mark_read : Notification → Notification
mark_read n = record n { read = true }

unfoldable pub mark_if : String → Notification → Notification
mark_if id n = if n.id == id then mark_read n else n

unfoldable pub mark_all_read : ℕ → Module → Module
mark_all_read i m = show_store i (record m { mock_store = map mark_read m.mock_store })

unfoldable pub mark_one_read : String → ℕ → Module → Module
mark_one_read id i m = show_store i (record m { mock_store = map (mark_if id) m.mock_store })

abbrev pub is_unread : Notification → Bool
is_unread n = not n.read

-- `unreadCount`
unfoldable pub unread_count : List Notification → ℕ
unread_count l = length (select is_unread l)

-- What component `i` shows; nothing if it is not mounted.
abbrev pub shown : ℕ → Module → List Notification
shown i m = elim (get_elem? m.hooks i) [ none ↦ [] | some h ↦ h.notifications ]
