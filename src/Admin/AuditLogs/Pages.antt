-- ===== src/Admin/AuditLogs/Pages.antt =====
-- The pages of the audit log.
use omni_tun.Prelude.{
  ℕ, zero, suc, ◌+◌, ◌-◌, ◌*◌, ◌≤◌, ◌<◌, min, String, not, ◌&&◌, ◌≡◌, ◌∙◌, refl, ◌⊎◌, List, [], ◌∷◌,
  leb, ltb, nat_eq, arith, inl, inr, Bool-cases,
}
use omni_tun.Admin.AuditLogs.Defs.{
  AuditLogs, FilterKey, new_logs, handle_filter_change, total_pages, click_next, click_previous,
  toggle_row,
}

-- The last page is the one that ends the list.
total_pages_bounds :
    (total : ℕ) → (total ≤ total_pages total * 50) × (total_pages total * 50 < total + 50)
unfolding total_pages
total_pages_bounds total = (omega arith, omega arith)

-- A click on a button or a row, or a changed filter with the total of the logs that match it then.
pub data LogsClick : Type 0 where
  next_page previous_page : LogsClick
  row : String → LogsClick
  filter : FilterKey → String → ℕ → LogsClick

abbrev pub click_logs : LogsClick → ℕ × AuditLogs → ℕ × AuditLogs
click_logs next_page (total, s) = (total, click_next total s)
click_logs previous_page (total, s) = (total, click_previous total s)
click_logs (row id) (total, s) = (total, toggle_row id s)
click_logs (filter key value t) (total, s) = (t, handle_filter_change key value s)

abbrev pub click_all : List LogsClick → ℕ × AuditLogs → ℕ × AuditLogs
click_all [] p = p
click_all (c ∷ cs) p = click_all cs (click_logs c p)

-- The page is the first one or shows something.
abbrev pub IsInRange : ℕ × AuditLogs → Type 0
IsInRange (total, s) = (s.page ≡ 0) ⊎ (s.page * 50 < total)

click_logs-IsInRange :
    (c : LogsClick) (total : ℕ) (s : AuditLogs)
    → IsInRange (total, s)
    → IsInRange (click_logs c (total, s))
unfolding click_next click_previous toggle_row handle_filter_change
click_logs-IsInRange next_page total s h =
    elim (Bool-cases (ltb 1 (total_pages total) && not (leb (total_pages total - 1) s.page))) [
      | inl on ↦ (let b = total_pages_bounds total in rw on (inr (ground (arith, on, b))))
      | inr off ↦ rw off h
    ]
click_logs-IsInRange previous_page total s h =
    elim (Bool-cases (ltb 1 (total_pages total) && not (nat_eq s.page 0))) [
      | inl on ↦ rw on (elim h [
        | inl first ↦ inl (omega (arith, first))
        | inr shows ↦ inr (omega (arith, shows))
      ])
      | inr off ↦ rw off h
    ]
click_logs-IsInRange (row id) total s h = h
click_logs-IsInRange (filter key value t) total s h = inl refl

click_all-IsInRange :
    (cs : List LogsClick) (p : ℕ × AuditLogs) → IsInRange p → IsInRange (click_all cs p)
click_all-IsInRange [] p h = h
click_all-IsInRange (c ∷ cs) (total, s) h =
    click_all-IsInRange cs (click_logs c (total, s)) (click_logs-IsInRange c total s h)

abbrev pub nexts : ℕ → LogsClick → List LogsClick
nexts zero c = []
nexts (suc n) c = c ∷ nexts n c

page-click_next :
    (total : ℕ) (s : AuditLogs)
    → s.page ≤ total_pages total - 1
    → (click_next total s).page ≡ min (s.page + 1) (total_pages total - 1)
unfolding click_next
page-click_next total s h =
    elim (Bool-cases (ltb 1 (total_pages total) && not (leb (total_pages total - 1) s.page))) [
      | inl on ↦ rw on (ground (arith, on))
      | inr off ↦ rw off (ground (arith, off, h))
    ]

page-nexts :
    (n total : ℕ) (s : AuditLogs)
    → s.page ≤ total_pages total - 1
    → (click_all (nexts n next_page) (total, s)).1.page ≡ min (s.page + n) (total_pages total - 1)
page-nexts zero total s h = omega (arith, h)
page-nexts (suc n) total s h =
    let e = page-click_next total s h in
    let rest = page-nexts n total (click_next total s) (omega (arith, e, h)) in
    rest ∙ omega (arith, e, h)

-- However the user clicks, the page is the first one or its offset is below the total of the logs that
-- match; and n clicks on "next" from the first page lead to page n, or to the last one.
pub audit_pages_lem :
    (cs : List LogsClick) (total n : ℕ)
    → IsInRange (click_all cs (total, new_logs))
      × ((click_all (nexts n next_page) (total, new_logs)).1.page ≡ min n (total_pages total - 1))
audit_pages_lem cs total n = (
  click_all-IsInRange cs (total, new_logs) (inl refl),
  page-nexts n total new_logs (omega arith) ∙ omega arith,
)
