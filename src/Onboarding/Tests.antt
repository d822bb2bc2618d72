-- ===== src/Onboarding/Tests.antt =====
-- Runs of the page.
use omni_tun.Prelude.{true, false, ◌≤◌, ◌≡◌, refl, List, []}
use omni_tun.Js.{undefined}
use omni_tun.Js.Sample.{sample_js}
use omni_tun.Forms.{every_char, text_length}
use omni_tun.Api.{Request, Reply, rejected, App, World, web_app, new_client, ok}
use omni_tun.Onboarding.{
  Onboarding, slugify, org_submitted, org_created, next_step, type_org_name, new_page,
}
use omni_tun.Onboarding.Steps.{
  Progress, Journey, sets_out, moves, types_name, goes_on, submits_org, org_replies,
}
use omni_tun.Onboarding.Slug.{may_stand, begins_with_dash, slugify_bounds}
use omni_tun.Onboarding.Order.{start, IsOnTrack, start-Journey-IsOnTrack}

slug_of_name : slugify (λ s. s) "my team_2!" ≡ "my-team-2"
unfolding slugify
slug_of_name = refl

-- The cut to sixty-four characters comes after the dashes are taken off the end.
slug_ends_with_dash :
    slugify (λ s. s) "aaaaaaaaaaaaaaaaaaaaaaaaaaaaaaaaaaaaaaaaaaaaaaaaaaaaaaaaaaaaaaa b"
    ≡ "aaaaaaaaaaaaaaaaaaaaaaaaaaaaaaaaaaaaaaaaaaaaaaaaaaaaaaaaaaaaaaa-"
unfolding slugify
slug_ends_with_dash = refl

abbrev app : App
app = web_app ""

abbrev offline : List Request → Request → Reply
offline sent req = rejected "offline"

abbrev client : World
client = new_client sample_js app offline []

abbrev typed : Progress
unfolding type_org_name next_step slugify
typed = record {
  page = type_org_name (λ s. s) "team" (next_step (new_page client));
  is_saved = false;
}

abbrev submitted : Onboarding
submitted = record typed.page { org_creating = true; org_error = "" }

abbrev saved : Progress
unfolding org_created
saved = record {
  page = org_created sample_js app offline (ok undefined) submitted;
  is_saved = true;
}

saved-Journey : Journey sample_js app offline (start client) saved
unfolding type_org_name next_step org_submitted org_created slugify omni_tun.Forms.is_blank
saved-Journey =
    moves
      (moves
        (moves (moves sets_out (goes_on (start client) refl)) (
          types_name (record { page = next_step (new_page client); is_saved = false }) (λ s. s)
            "team"))
        (submits_org typed submitted refl refl refl))
      (org_replies (record { page = submitted; is_saved = false }) (ok undefined) client refl)

saved_step : saved.page.step ≡ 3
unfolding org_created next_step typed
saved_step = refl

start-Journey-IsOnTrack_example : IsOnTrack saved
start-Journey-IsOnTrack_example =
    start-Journey-IsOnTrack sample_js app offline client saved saved-Journey

slugify_bounds_example :
    (every_char may_stand (slugify (λ s. s) "-my team") ≡ true)
    × (text_length (slugify (λ s. s) "-my team") ≤ 64)
    × (begins_with_dash (slugify (λ s. s) "-my team") ≡ false)
slugify_bounds_example = slugify_bounds (λ s. s) "-my team"
