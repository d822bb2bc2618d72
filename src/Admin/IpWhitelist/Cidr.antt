-- ===== src/Admin/IpWhitelist/Cidr.antt =====
-- `cidrRegex` and `validateCIDR`.
use omni_tun.Prelude.{
  ℕ, ◌+◌, ◌-◌, ◌*◌, String, Char, code, Bool, true, false, ◌&&◌, List, [], ◌∷◌, all, leb, split_on,
  nat_eq, length, if◌then◌else◌,
}
use omni_tun.Forms.{is_digit, every_char, text_length}

abbrev pub period : Char
period = "."

abbrev pub slash : Char
slash = "/"

-- `\d{1,n}` of a whole text
abbrev pub digits_up_to : ℕ → String → Bool
digits_up_to n s = every_char is_digit s && leb 1 (text_length s) && leb (text_length s) n

-- `(\d{1,3}\.){3}\d{1,3}` of a whole text: four groups between the dots.
abbrev pub is_quad : String → Bool
is_quad s =
    let groups = split_on period s in nat_eq (length groups) 4 && all (digits_up_to 3) groups

-- `(\/\d{1,2})?`, of what stands behind the first slash.
abbrev pub prefix_fits : List String → Bool
prefix_fits [] = true
prefix_fits (bits ∷ []) = digits_up_to 2 bits
prefix_fits (bits ∷ more ∷ rest) = false

abbrev pub range_fits : List String → Bool
range_fits [] = false
range_fits (quad ∷ rest) = is_quad quad && prefix_fits rest

-- `cidrRegex.test(s)`
unfoldable pub matches_cidr : String → Bool
matches_cidr s = range_fits (split_on slash s)

-- `parseInt(s, 10)` of digits.
abbrev pub value_from : ℕ → String → ℕ
value_from acc String.[] = acc
value_from acc (String.◌∷◌ c s) = value_from (acc * 10 + (code c - b'0')) s

abbrev pub value_of : String → ℕ
value_of s = value_from 0 s

-- `parts[0]`; there always is one.
abbrev pub first_part : List String → String
first_part [] = ""
first_part (p ∷ ps) = p

-- `n >= 0 && n <= 255`
abbrev pub is_byte : String → Bool
is_byte p = leb (value_of p) 255

-- `validateCIDR`
unfoldable pub validate_cidr : String → Bool
validate_cidr value =
    if matches_cidr value
    then all is_byte (split_on period (first_part (split_on slash value)))
    else false
