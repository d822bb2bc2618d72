-- ===== src/Admin/Roles/Tests.antt =====
-- Runs of the boxes.
use omni_tun.Prelude.{◌≡◌, refl, some}
use omni_tun.Admin.Roles.{permission_label}

label_of_change_role :
    permission_label (λ s. "M") "members:change_role" ≡ some "change role Members"
unfolding permission_label
label_of_change_role = refl
