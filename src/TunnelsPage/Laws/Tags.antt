-- ===== src/TunnelsPage/Laws/Tags.antt =====
-- The tags of the form.
use omni_tun.Prelude.{
  String, false, not, ◌||◌, ◌≡◌, List, [], ◌∷◌, ◌==◌, All, All-select, contains, snoc, IsDistinct,
  select-IsDistinct, snoc-IsDistinct, arith, Bool-cases, inl, inr,
}
use omni_tun.TunnelsPage.Filling.{Form, handle_add_tag, handle_remove_tag}

abbrev pub IsFilled : String → Type 0
IsFilled t = (t == "") ≡ false

-- No tag is empty, and none stands twice.
abbrev pub IsTagList : List String → Type 0
IsTagList tags = All IsFilled tags × IsDistinct tags

All-snoc :
    (t : String) (tags : List String) → IsFilled t → All IsFilled tags → All IsFilled (snoc tags t)
All-snoc t [] h k = (h, tt)
All-snoc t (u ∷ tags) h (l, k) = (l, All-snoc t tags h k)

snoc-IsTagList :
    (tag : String) (tags : List String)
    → (tag == "" || contains tag tags) ≡ false
    → IsTagList tags
    → IsTagList (snoc tags tag)
snoc-IsTagList tag tags taken (filled, distinct) = (
  All-snoc tag tags (ground (arith, taken)) filled,
  snoc-IsDistinct tag tags (ground (arith, taken)) distinct,
)

-- Adding and removing tags keeps the tags of the form non-empty and without repetition.
pub tags-IsTagList :
    (trim : String → String) (tag : String) (f : Form)
    → IsTagList f.new_tunnel.tags
    → IsTagList (handle_add_tag trim f).new_tunnel.tags
      × IsTagList (handle_remove_tag tag f).new_tunnel.tags
unfolding handle_add_tag handle_remove_tag
tags-IsTagList trim tag f (filled, distinct) = (
  added,
  (
    All-select IsFilled (λ t. not (t == tag)) f.new_tunnel.tags filled,
    select-IsDistinct (λ t. not (t == tag)) f.new_tunnel.tags distinct,
  ),
)
  where
    added : IsTagList (handle_add_tag trim f).new_tunnel.tags
    added =
        elim (Bool-cases
          (trim f.tag_input == "" || contains (trim f.tag_input) f.new_tunnel.tags)) [
            | inl refused ↦ rw refused (filled, distinct)
            | inr taken ↦
                rw taken
                  (snoc-IsTagList (trim f.tag_input) f.new_tunnel.tags taken (filled, distinct))
          ]
