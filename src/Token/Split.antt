-- ===== src/Token/Split.antt =====
-- `s.split('.')`.
use omni_tun.Prelude.{String, List, split_on, IsFree}

unfoldable pub split_dots : String → List String
split_dots s = split_on "." s

-- No character is a dot.
abbrev pub NoDot : String → Type 0
NoDot s = IsFree "." s
