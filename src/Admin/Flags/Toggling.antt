-- ===== src/Admin/Flags/Toggling.antt =====
-- The switch of a flag against its dialog.
use omni_tun.Prelude.{String, true, false, not, ◌≡◌, refl, ap, List}
use omni_tun.Js.{Value}
use omni_tun.Js.Env.{Js}
use omni_tun.Api.{Request, Reply, Result, ok, throw, App, request}
use omni_tun.Queries.{plain, with_body}
use omni_tun.Forms.{is_blank}
use omni_tun.Admin.Flags.Defs.{
  FlagForm, Flag, FlagsPage, flag_entries, flag_path, flags_path, listed_flags, fetch_flags,
  open_edit_flag, type_flag, flag_saved, fetch_after, handle_save_flag, handle_toggle_flag,
}

-- The texts of the flag are stored trimmed, its key and its name are not blank.
pub record IsStored (trim : String → String) (f : FlagForm) : Type 0 where
  pub trimmed_key : trim f.key ≡ f.key
  pub trimmed_name : trim f.name ≡ f.name
  pub trimmed_description : trim f.description ≡ f.description
  pub has_key : is_blank f.key ≡ false
  pub has_name : is_blank f.name ≡ false

-- What the list of the flags and the client are.
abbrev pub SameList : FlagsPage → FlagsPage → Type 0
SameList s t = (s.flags ≡ t.flags) × (s.api ≡ t.api)

after-SameList :
    (js : Js) (app : App) (net : List Request → Request → Reply) (s t : FlagsPage)
    (result : Result Value)
    → SameList s t
    → SameList (flag_saved js app net result s) (fetch_after js app net result t)
unfolding fetch_flags
after-SameList js app net s t (ok v) (e, e') = (
  ap (λ w. listed_flags (request js app net flags_path plain w).0) e',
  ap (λ w. (request js app net flags_path plain w).1) e',
)
after-SameList js app net s t (throw e) h = h

abbrev pub flipped : FlagForm → FlagForm
flipped f = record f { enabled = not f.enabled }

-- The switch of a stored flag and the dialog in which only "enabled" is changed do the same: the same
-- call, and after it the same list and the same client, whatever the server answers.
pub handle_toggle_flag-handle_save_flag :
    (js : Js) (app : App) (net : List Request → Request → Reply) (trim : String → String)
    (flag : Flag) (s : FlagsPage)
    → IsStored trim (flipped flag.fields)
    → SameList
        (handle_save_flag js app net trim (type_flag (flipped flag.fields) (open_edit_flag flag s)))
        (handle_toggle_flag js app net flag s)
unfolding handle_save_flag handle_toggle_flag open_edit_flag
handle_toggle_flag-handle_save_flag js app net trim flag s h =
    let call =
      request js app net (flag_path js app net flag)
        (with_body js "PUT" (flag_entries (flipped flag.fields))) s.api in
    let opened = type_flag (flipped flag.fields) (open_edit_flag flag s) in
    rw (h.has_key, h.has_name, h.trimmed_key, h.trimmed_name, h.trimmed_description)
      (after-SameList js app net (record opened { api = call.1; is_saving = true })
        (record s { api = call.1 }) call.0 (refl, refl))
