-- ===== src/Pages/Tests.antt =====
-- Runs.
use omni_tun.Prelude.{pos, ◌≡◌, refl}
use omni_tun.Pages.Downloads.{get_platform_filename, without_parens, selected_platform, mac_os}
use omni_tun.Pages.Ago.{hours_ago, time_ago}

two_hours : time_ago (pos 7_300_000) ≡ hours_ago 2
unfolding time_ago
two_hours = refl

file_for_intel :
    get_platform_filename (λ s. s) "macOS" "amd64 (Intel)" ≡ "omnitun_v1.3.0_macOS_amd64.tar.gz"
unfolding get_platform_filename without_parens
file_for_intel = refl

unknown_os : selected_platform "BeOS" ≡ mac_os
unfolding selected_platform
unknown_os = refl
