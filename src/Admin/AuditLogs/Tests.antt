-- ===== src/Admin/AuditLogs/Tests.antt =====
-- Runs of the pages.
use omni_tun.Prelude.{◌≡◌, refl, [], ◌∷◌}
use omni_tun.Admin.AuditLogs.{new_logs, total_pages, query_params}

three_pages : total_pages 101 ≡ 3
unfolding total_pages
three_pages = refl

first_query : query_params (λ n. "n") new_logs ≡ ("limit", "n") ∷ ("offset", "n") ∷ []
unfolding query_params
first_query = refl
