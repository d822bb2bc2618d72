-- ===== src/Theme/Tests.antt =====
-- Runs of the theme button.
use omni_tun.Prelude.{String, Bool, true, false, ◌≡◌, refl, some, List, [], ◌∷◌}
use omni_tun.Theme.{system, mount, get_stored_theme}
use omni_tun.Theme.Reload.{click, preference, after_all, mount-after_all}

unknown_is_system : get_stored_theme (some (("omnitun-theme", "blue") ∷ [])) ≡ system
unfolding get_stored_theme omni_tun.Prelude.get
unknown_is_system = refl

mount-after_all_example :
    let p = after_all (click ∷ preference false ∷ click ∷ []) (true, mount true (some [])) in
    mount p.0 p.1.storage ≡ p.1
mount-after_all_example = mount-after_all (click ∷ preference false ∷ click ∷ []) true []
