-- ===== src/Admin/Announcements/Defs.antt =====
-- The form, its submission, and the deletion.
use Prim.Native.String
use omni_tun.Prelude.{String, Bool, true, false, Option, none, some, List, [], ◌∷◌, if◌then◌else◌}
use omni_tun.Js.{Value, bool, str, Entries, entry, no_entries}
use omni_tun.Js.Env.{Js}
use omni_tun.Api.{Request, Options, Reply, Result, ok, throw, App}
use omni_tun.Queries.{Queries, bare, with_body, send_mutation}
use omni_tun.Forms.{is_blank}

pub data AnnouncementSeverity : Type 0 where
  info warning critical : AnnouncementSeverity

abbrev pub severity_text : AnnouncementSeverity → String
severity_text info = "info"
severity_text warning = "warning"
severity_text critical = "critical"

pub record AnnouncementForm : Type 0 where
  pub title : String
  pub body : String
  pub severity : AnnouncementSeverity
  pub target : String
  pub active : Bool
  pub start_at : String
  pub end_at : String

pub record Announcement : Type 0 where
  pub id : String
  pub title : String
  pub body : String
  pub severity : AnnouncementSeverity
  pub target : String
  pub active : Bool
  pub start_at : Option String
  pub end_at : Option String

pub record Announcements : Type 0 where
  pub show_form : Bool
  pub editing : Option Announcement
  pub form : AnnouncementForm
  pub queries : Queries

abbrev pub new_announcement : AnnouncementForm
new_announcement = record {
  title = "";
  body = "";
  severity = info;
  target = "all";
  active = true;
  start_at = "";
  end_at = "";
}

abbrev pub or_empty : Option String → String
or_empty none = ""
or_empty (some s) = s

unfoldable pub reset_announcement : Announcements → Announcements
reset_announcement s = record s { show_form = false; editing = none; form = new_announcement }

unfoldable pub edit_announcement : Announcement → Announcements → Announcements
edit_announcement a s = record s {
  editing = some a;
  form = record {
    title = a.title;
    body = a.body;
    severity = a.severity;
    target = a.target;
    active = a.active;
    start_at = or_empty a.start_at;
    end_at = or_empty a.end_at;
  };
  show_form = true;
}

abbrev pub announcements_path : String
announcements_path = "/api/admin/v1/announcements"

abbrev pub announcement_path : String → String
announcement_path id = String.◌++◌ announcements_path (String.◌++◌ "/" id)

abbrev pub announcements_key : List String
announcements_key = "admin" ∷ "announcements" ∷ []

abbrev pub announcement_entries : AnnouncementForm → Entries
announcement_entries f = entry "title" (str f.title) (
    entry "body" (str f.body) (
      entry "severity" (str (severity_text f.severity)) (
        entry "target" (str f.target) (
          entry "active" (bool f.active)
            (entry "start_at" (str f.start_at) (entry "end_at" (str f.end_at) no_entries))))))

module _ (js : Js) (app : App) (net : List Request → Request → Reply) where
  abbrev pub announcement_sent : Result Value → Announcements → Announcements
  announcement_sent (ok v) s = reset_announcement s
  announcement_sent (throw e) s = s

  abbrev pub send_announcement : String → Options → Announcements → Announcements
  send_announcement path options s =
      let (result, q) = send_mutation js app net path options (announcements_key ∷ []) s.queries in
      announcement_sent result (record s { queries = q })

  unfoldable pub submit_announcement : Announcements → Announcements
  submit_announcement s = if is_blank s.form.title then s else elim s.editing [
    | none ↦
        send_announcement announcements_path (with_body js "POST" (announcement_entries s.form)) s
    | some a ↦
        send_announcement (announcement_path a.id)
          (with_body js "PUT" (announcement_entries s.form)) s
  ]

  unfoldable pub delete_announcement : String → Announcements → Announcements
  delete_announcement id s = record s {
    queries =
        (send_mutation js app net (announcement_path id) (bare "DELETE") (announcements_key ∷ [])
          s.queries).1;
  }
