-- ===== src/Text.antt =====
-- What the code uses of Go's package `strings`, over native texts: prefixes, trimming, and the
-- parts of a path between its slashes.
pub mod Parts
pub mod Inside
pub mod Sort
pub mod Contains
pub mod Decimal
use addp.Common.{
  ℕ, String, Bool, true, false, not, ◌&&◌, ◌||◌, Option, none, some, List, [], ◌∷◌, ◌==◌, str_eq,
  leb, if◌then◌else◌,
}
use Prim.Native.Char.{Char, code}
use Prim.Native.String
use Prim.Native.String.{◌++◌}

abbrev pub is_slash : Char → Bool
is_slash c = code c == b'/'

-- unicode.IsSpace
abbrev pub is_space : Char → Bool
is_space c =
    let n = code c in
    (leb 9 n && leb n 13)
    || n == 32
    || n == 133
    || n == 160
    || n == 5760
    || (leb 8192 n && leb n 8202)
    || n == 8232
    || n == 8233
    || n == 8239
    || n == 8287
    || n == 12288

-- what follows a prefix, `none` where the text does not begin with it
unfoldable pub after_prefix : String → String → Option String
after_prefix String.[] s = some s
after_prefix (String.◌∷◌ c p) String.[] = none
after_prefix (String.◌∷◌ c p) (String.◌∷◌ d s) =
    let rest = after_prefix p s in if code c == code d then rest else none

-- strings.HasPrefix and strings.TrimPrefix
unfoldable pub has_prefix : String → String → Bool
unfolding after_prefix
has_prefix p s = elim (after_prefix p s) [ none ↦ false | some r ↦ true ]

unfoldable pub trim_prefix : String → String → String
unfolding after_prefix
trim_prefix p s = elim (after_prefix p s) [ none ↦ s | some r ↦ r ]

abbrev pub is_empty : String → Bool
is_empty String.[] = true
is_empty (String.◌∷◌ c s) = false

-- strings.HasSuffix(s, "/")
unfoldable pub ends_in_slash : String → Bool
ends_in_slash String.[] = false
ends_in_slash (String.◌∷◌ c s) =
    let rest = ends_in_slash s in if is_empty s then is_slash c else rest

-- strings.TrimSuffix(s, "/")
unfoldable pub trim_last_slash : String → String
trim_last_slash String.[] = String.[]
trim_last_slash (String.◌∷◌ c s) =
    let rest = trim_last_slash s in
    if is_empty s && is_slash c then String.[] else String.◌∷◌ c rest

-- strings.TrimLeftFunc, strings.TrimRightFunc
unfoldable pub trim_left : (Char → Bool) → String → String
trim_left p String.[] = String.[]
trim_left p (String.◌∷◌ c s) = let rest = trim_left p s in if p c then rest else String.◌∷◌ c s

unfoldable pub trim_right : (Char → Bool) → String → String
trim_right p String.[] = String.[]
trim_right p (String.◌∷◌ c s) =
    let rest = trim_right p s in if is_empty rest && p c then String.[] else String.◌∷◌ c rest

-- strings.TrimSpace, strings.Trim(s, "/") and strings.Trim(s, " ")
unfoldable pub trim_space : String → String
unfolding trim_left trim_right
trim_space s = trim_right is_space (trim_left is_space s)

unfoldable pub trim_slashes : String → String
unfolding trim_left trim_right
trim_slashes s = trim_right is_slash (trim_left is_slash s)

unfoldable pub trim_blanks : String → String
unfolding trim_left trim_right
trim_blanks s = trim_right (λ c. code c == 32) (trim_left (λ c. code c == 32) s)

-- a character in front of the first part
abbrev pub before_first : Char → List String → List String
before_first c [] = String.◌∷◌ c String.[] ∷ []
before_first c (p ∷ ps) = String.◌∷◌ c p ∷ ps

-- strings.Split(s, "/")
unfoldable pub split : String → List String
split String.[] = String.[] ∷ []
split (String.◌∷◌ c s) =
    let rest = split s in if is_slash c then String.[] ∷ rest else before_first c rest

-- strings.Join(parts, "/")
unfoldable pub join : List String → String
join [] = ""
join (p ∷ []) = p
join (p ∷ q ∷ ps) = p ++ String.◌∷◌ "/" (join (q ∷ ps))

-- strings.SplitN(s, "/", 2): the part before the first slash, and what follows it if there is one
unfoldable pub cut_slash : String → String × Option String
cut_slash String.[] = (String.[], none)
cut_slash (String.◌∷◌ c s) =
    let rest = cut_slash s in
    if is_slash c then (String.[], some s) else (String.◌∷◌ c rest.0, rest.1)
