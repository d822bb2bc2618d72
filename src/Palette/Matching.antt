-- ===== src/Palette/Matching.antt =====
-- `fuzzyMatch`.
use omni_tun.Prelude.{String, Char, code, Bool, true, false, ◌&&◌, ◌||◌, nat_eq, if◌then◌else◌}

abbrev pub same : Char → Char → Bool
same c d = nat_eq (code c) (code d)

abbrev pub starts_with : String → String → Bool
starts_with String.[] t = true
starts_with (String.◌∷◌ d q) String.[] = false
starts_with (String.◌∷◌ d q) (String.◌∷◌ c t) = same c d && starts_with q t

-- `t.includes(q)`
unfoldable pub includes : String → String → Bool
includes q String.[] = starts_with q String.[]
includes q (String.◌∷◌ c t) = starts_with q (String.◌∷◌ c t) || includes q t

abbrev pub is_empty : String → Bool
is_empty String.[] = true
is_empty (String.◌∷◌ c s) = false

-- The loop, over what is left of the text, with what is left of the query (`lowerQuery` from `qi` on).
unfoldable pub scan : String → String → Bool
scan q String.[] = false
scan String.[] (String.◌∷◌ c t) = scan String.[] t
scan (String.◌∷◌ d q) (String.◌∷◌ c t) =
    let found = scan q t in
    let later = scan (String.◌∷◌ d q) t in if same c d then is_empty q || found else later

-- `to_lower` is `toLowerCase`.
unfoldable pub fuzzy_match : (String → String) → String → String → Bool
fuzzy_match to_lower query text =
    is_empty query
    || includes (to_lower query) (to_lower text)
    || scan (to_lower query) (to_lower text)
