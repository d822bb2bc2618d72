-- ===== src/Copying/Defs.antt =====
-- The mark, the timers that clear it, and the buttons.
use Prim.Native.String
use omni_tun.Prelude.{
  ℕ, ◌+◌, String, Bool, not, Option, none, some, List, [], ◌∷◌, any, leb, select, if◌then◌else◌,
}

-- The clock in milliseconds, the times at which the pending timers fire, and the toasts, as translation
-- keys, the latest first. A mark that is a Boolean in the source is the copied text here.
pub record Copying : Type 0 where
  pub copied : Option String
  pub clipboard : String
  pub now : ℕ
  pub due : List ℕ
  pub toasts : List String

unfoldable pub new_copying : ℕ → Copying
new_copying now = record { copied = none; clipboard = ""; now = now; due = []; toasts = [] }

-- `setTimeout(() => setCopied(null), 2000)` after the mark is set.
unfoldable pub marked : String → Copying → Copying
marked key s = record s { copied = some key; due = (2000 + s.now) ∷ s.due }

-- Some milliseconds go by: the timers that are due fire, and each one takes whatever mark there is.
unfoldable pub pass : ℕ → Copying → Copying
pass n s =
    let later = n + s.now in
    record s {
      now = later;
      copied = if any (λ t. leb t later) s.due then none else s.copied;
      due = select (λ t. not (leb t later)) s.due;
    }

abbrev pub toasted : String → Copying → Copying
toasted title s = record s { toasts = title ∷ s.toasts }

abbrev pub written : String → Copying → Copying
written text s = record s { clipboard = text }

-- With `await`: where the browser refuses to write, nothing follows.
abbrev pub copy_awaited : Bool → String → String → String → Copying → Copying
copy_awaited accepted text key title s =
    if accepted then toasted title (marked key (written text s)) else s

-- Without it: the mark is shown in any case.
abbrev pub write_text : Bool → String → Copying → Copying
write_text accepted text s = if accepted then written text s else s

unfoldable pub copy_domain : Bool → String → Copying → Copying
copy_domain accepted domain = copy_awaited accepted domain domain "common.copied"

unfoldable pub copy_key : Bool → String → Copying → Copying
copy_key accepted text = copy_awaited accepted text text "common.copied"

unfoldable pub copy_record : Bool → String → Copying → Copying
copy_record accepted text = copy_awaited accepted text text "common.copied"

unfoldable pub copy_secret : Bool → String → Copying → Copying
copy_secret accepted secret = copy_awaited accepted secret secret "common.copied"

unfoldable pub handle_copy_invite : Bool → String → Copying → Copying
handle_copy_invite accepted code = copy_awaited accepted code code "common.copied"

-- `origin` is `window.location.origin`.
abbrev pub join_link : String → String → String
join_link origin code = String.◌++◌ origin (String.◌++◌ "/join?code=" code)

unfoldable pub copy_link : String → Bool → String → Copying → Copying
copy_link origin accepted code =
    copy_awaited accepted (join_link origin code) code "invitations.link_copied"

unfoldable pub copy_command : Bool → String → String → Copying → Copying
copy_command accepted text key s =
    toasted "onboarding.copied_cli" (marked key (write_text accepted text s))

unfoldable pub copy_code : Bool → String → Copying → Copying
copy_code accepted code s = marked code (write_text accepted code s)

unfoldable pub copy_text : Bool → String → Copying → Copying
copy_text accepted text s = marked text (write_text accepted text s)
