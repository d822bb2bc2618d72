-- ===== src/Palette/Laws/Subsequence.antt =====
-- The search finds the texts that have the characters of the query in its order.
use omni_tun.Prelude.{String, Char, true, ◌≡◌}
use omni_tun.Palette.Matching.{same}

-- The first text is what is left of the second one without some of its characters.
pub data Within : String → String → Type 0 where
  nothing : (t : String) → Within String.[] t
  skip : {q t : String} (c : Char) → Within q t → Within q (String.◌∷◌ c t)
  keep :
      {q t : String} (c d : Char)
      → same c d ≡ true
      → Within q t
      → Within (String.◌∷◌ d q) (String.◌∷◌ c t)
