-- ===== src/Admin/IpWhitelist/Ranges.antt =====
-- Which texts `validateCIDR` accepts.
use omni_tun.Prelude.{
  ◌≤◌, String, Char, true, false, ◌&&◌, ◌≡◌, refl, sym, ap, ◌∙◌, ◌↔◌, ◌⊎◌, List, [], ◌∷◌, all, All,
  nat_eq, length, split_on, join_with, IsFree, split_on_of_IsFree, join_with-split_on,
  split_on-join_with, IsFree-join_with, subst, inl, inr, arith, Bool-cases,
}
use omni_tun.Forms.{is_digit, every_char}
use omni_tun.Admin.IpWhitelist.Cidr.{
  period, slash, digits_up_to, is_quad, range_fits, matches_cidr, is_byte, value_of, first_part,
  validate_cidr,
}

-- One to three digits of a value up to 255.
abbrev pub IsOctet : String → Type 0
IsOctet p = (digits_up_to 3 p ≡ true) × (value_of p ≤ 255)

-- Four of them, with dots between.
abbrev pub IsQuad : String → Type 0
IsQuad q =
    (a : String) × (b : String) × (c : String) × (d : String) × All IsOctet (a ∷ b ∷ c ∷ d ∷ [])
    × (q ≡ join_with period (a ∷ b ∷ c ∷ d ∷ []))

-- An address, or one followed by a slash and one or two digits.
abbrev pub IsRange : String → Type 0
IsRange s =
    IsQuad s
    ⊎ ((q : String) × (bits : String) × IsQuad q
        × (digits_up_to 2 bits ≡ true)
        × (s ≡ join_with slash (q ∷ bits ∷ [])))

IsFree-digits :
    (x : Char) (s : String) → is_digit x ≡ false → every_char is_digit s ≡ true → IsFree x s
IsFree-digits x String.[] e h = tt
IsFree-digits x (String.◌∷◌ c s) e h =
    (ground (arith, e, h), IsFree-digits x s e (ground (arith, h)))

IsFree-IsOctet :
    (x : Char) (ps : List String) → is_digit x ≡ false → All IsOctet ps → All (IsFree x) ps
IsFree-IsOctet x [] e h = tt
IsFree-IsOctet x (p ∷ ps) e ((h, v), hs) =
    (IsFree-digits x p e (ground (arith, h)), IsFree-IsOctet x ps e hs)

groups-IsQuad :
    (q : String) (groups : List String)
    → join_with period groups ≡ q
    → (nat_eq (length groups) 4 && all (digits_up_to 3) groups) ≡ true
    → all is_byte groups ≡ true
    → IsQuad q
groups-IsQuad q [] j h v = cc
groups-IsQuad q (a ∷ []) j h v = cc
groups-IsQuad q (a ∷ b ∷ []) j h v = cc
groups-IsQuad q (a ∷ b ∷ c ∷ []) j h v = cc
groups-IsQuad q (a ∷ b ∷ c ∷ d ∷ []) j h v = (
  a,
  b,
  c,
  d,
  (
    (ground (arith, h), ground (arith, v)),
    (
      (ground (arith, h), ground (arith, v)),
      ((ground (arith, h), ground (arith, v)), ((ground (arith, h), ground (arith, v)), tt)),
    ),
  ),
  sym j,
)
groups-IsQuad q (a ∷ b ∷ c ∷ d ∷ e ∷ groups) j h v = absurd (ground (arith, h))

is_quad-IsQuad : (q : String) → is_quad q ≡ true → all is_byte (split_on period q) ≡ true → IsQuad q
is_quad-IsQuad q h v = groups-IsQuad q (split_on period q) (join_with-split_on period q) h v

parts-IsRange :
    (s : String) (parts : List String)
    → join_with slash parts ≡ s
    → range_fits parts ≡ true
    → all is_byte (split_on period (first_part parts)) ≡ true
    → IsRange s
parts-IsRange s [] j h v = cc
parts-IsRange s (q ∷ []) j h v = inl (subst IsQuad j (is_quad-IsQuad q (ground (arith, h)) v))
parts-IsRange s (q ∷ bits ∷ []) j h v =
    inr (q, bits, is_quad-IsQuad q (ground (arith, h)) v, ground (arith, h), sym j)
parts-IsRange s (q ∷ bits ∷ more ∷ rest) j h v = absurd (ground (arith, h))

validate_cidr-IsRange : (s : String) → validate_cidr s ≡ true → IsRange s
unfolding validate_cidr matches_cidr
validate_cidr-IsRange s e = elim (Bool-cases (range_fits (split_on slash s))) [
  | inl fit ↦
      parts-IsRange s (split_on slash s) (join_with-split_on slash s) fit (ground (arith, e, fit))
  | inr unfit ↦ absurd (ground (arith, e, unfit))
]

IsQuad-is_quad :
    (q : String)
    → IsQuad q
    → (is_quad q ≡ true) × (all is_byte (split_on period q) ≡ true) × IsFree slash q
IsQuad-is_quad q (a, b, c, d, octets, e) =
    let groups = a ∷ b ∷ c ∷ d ∷ [] in
    let (oa, (ob, (oc, (od, _)))) = octets in
    let parted : split_on period q ≡ a ∷ b ∷ c ∷ d ∷ [] =
      ap (split_on period) e
      ∙ split_on-join_with period a (b ∷ c ∷ d ∷ []) (IsFree-IsOctet period groups refl octets) in
    (
      rw parted (ground (arith, oa.0, ob.0, oc.0, od.0)),
      rw parted (ground (arith, oa.1, ob.1, oc.1, od.1)),
      rw e (IsFree-join_with slash period groups refl (IsFree-IsOctet slash groups refl octets)),
    )

-- `validateCIDR` accepts exactly four decimal numbers of one to three digits up to 255 with dots between
-- them, alone or followed by a slash and one or two digits, which it does not bound; so it accepts no
-- IPv6 address.
pub validate_cidr_iff : (s : String) → (validate_cidr s ≡ true) ↔ IsRange s
unfolding validate_cidr matches_cidr
validate_cidr_iff s = (validate_cidr-IsRange s, accepts)
  where
    accepts : IsRange s → validate_cidr s ≡ true
    accepts (inl address) =
        let (quad, bytes, free) = IsQuad-is_quad s address in
        rw (split_on_of_IsFree slash s free) (ground (arith, quad, bytes))
    accepts (inr (q, bits, address, digits, e)) =
        let (quad, bytes, free) = IsQuad-is_quad q address in
        let free_bits = IsFree-digits slash bits refl (ground (arith, digits)) in
        rw (e, split_on-join_with slash q (bits ∷ []) (free, (free_bits, tt)))
          (ground (arith, quad, digits, bytes))
