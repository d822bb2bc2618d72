-- ===== src/Js/Defs.antt =====
-- Values and the operations of the language on them.
use omni_tun.Prelude.{
  ℤ, pos, zero, String, Bool, true, false, not, Option, none, some, ◌==◌, if◌then◌else◌,
}

mutual
  pub data Value : Type 0 where
    undefined : Value
    null : Value
    bool : Bool → Value
    num : ℤ → Value
    str : String → Value
    obj : Entries → Value
    arr : Elements → Value

  pub data Entries : Type 0 where
    no_entries : Entries
    entry : String → Value → Entries → Entries

  pub data Elements : Type 0 where
    no_elements : Elements
    element : Value → Elements → Elements

-- An own property, `undefined` where it is missing.
unfoldable pub own : String → Entries → Value
own k no_entries = undefined
own k (entry j v fs) = if j == k then v else own k fs

-- `v.k`: reading a property of `null` or `undefined` throws (`none`). The names that the code reads
-- are properties of no number, text, boolean or array.
unfoldable pub prop : Value → String → Option Value
unfolding own
prop undefined k = none
prop null k = none
prop (obj fs) k = some (own k fs)
prop _ k = some undefined

-- `k in v`, for an object of the program's own.
unfoldable pub has : String → Entries → Bool
has k no_entries = false
has k (entry j v fs) = let rest = has k fs in if j == k then true else rest

-- `v ? … : …`, `if (v)`, `!v`.
unfoldable pub truthy : Value → Bool
truthy undefined = false
truthy null = false
truthy (bool b) = b
truthy (num (pos zero)) = false
truthy (str s) = not (s == "")
truthy _ = true

-- `v ?? d`
unfoldable pub coalesce : Value → Value → Value
coalesce undefined d = d
coalesce null d = d
coalesce v d = v

-- `v || d`
unfoldable pub or_else : Value → Value → Value
unfolding truthy
or_else v d = if truthy v then v else d

-- `typeof v === 'string'`, and `typeof v === 'number'`, with what was found.
abbrev pub as_string : Value → Option String
as_string (str s) = some s
as_string _ = none

abbrev pub as_number : Value → Option ℤ
as_number (num n) = some n
as_number _ = none

-- What `localStorage.getItem` returns: a text or `null`.
abbrev pub nullable : Option String → Value
nullable none = null
nullable (some s) = str s
