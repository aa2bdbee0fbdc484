-- ===== src/Prelude/Text.antt =====
-- What the program uses of Go's package `strings`.
use Prim.Native.Char.{code}
use Prim.Native.String.{String}
use Prim.Native.Nat.{ℕ, ◌+◌, ◌-◌, ◌*◌}
use text.Mathlib.Text.{◌==◌ as str_eq}
use mathlib.Core.List.{List, [], ◌∷◌}
use mathlib.Core.Bool.{Bool, true, false, ◌&&◌, ◌||◌}
use mathlib.Core.Option.{Option, none, some}
use pinchtab.Prelude.Tests.{leb, ◌==◌, if◌then◌else◌}

-- the ranges of code points of `unicode.IsSpace`, which `strings.TrimSpace` cuts off
abbrev pub space_ranges : List (ℕ × ℕ)
space_ranges =
    (9, 13)
    ∷ (32, 32)
    ∷ (133, 133)
    ∷ (160, 160)
    ∷ (5760, 5760)
    ∷ (8192, 8202)
    ∷ (8232, 8233)
    ∷ (8239, 8239)
    ∷ (8287, 8287)
    ∷ (12288, 12288)
    ∷ []

unfoldable pub in_ranges : ℕ → List (ℕ × ℕ) → Bool
in_ranges c [] = false
in_ranges c ((low, high) ∷ ranges) = (leb low c && leb c high) || in_ranges c ranges

-- `strings.TrimSpace(s) == ""`
unfoldable pub is_blank : String → Bool
unfolding in_ranges
is_blank String.[] = true
is_blank (String.◌∷◌ c s) = in_ranges (code c) space_ranges && is_blank s

-- the text without its trailing spaces
unfoldable pub trim_right : String → String
unfolding in_ranges
trim_right String.[] = String.[]
trim_right (String.◌∷◌ c s) =
    let rest = trim_right s in
    if in_ranges (code c) space_ranges && is_blank rest then String.[] else String.◌∷◌ c rest

-- `strings.TrimSpace`
unfoldable pub trim_space : String → String
unfolding in_ranges trim_right
trim_space String.[] = String.[]
trim_space (String.◌∷◌ c s) =
    let rest = trim_space s in
    if in_ranges (code c) space_ranges then rest else trim_right (String.◌∷◌ c s)

-- Go's `+` on strings
abbrev pub append : String → String → String
append String.[] t = t
append (String.◌∷◌ c s) t = String.◌∷◌ c (append s t)

-- `s == ""`
abbrev pub is_empty : String → Bool
is_empty String.[] = true
is_empty (String.◌∷◌ c s) = false

-- `strings.CutPrefix`: the text after a prefix, if it has the prefix
abbrev pub cut_prefix : String → String → Option String
cut_prefix String.[] s = some s
cut_prefix (String.◌∷◌ c p) String.[] = none
cut_prefix (String.◌∷◌ c p) (String.◌∷◌ d s) =
    let rest = cut_prefix p s in if code d == code c then rest else none

-- `strings.TrimSuffix`, of a suffix that is not empty
abbrev pub trim_suffix : String → String → String
trim_suffix p String.[] = String.[]
trim_suffix p (String.◌∷◌ c s) =
    let rest = trim_suffix p s in if str_eq (String.◌∷◌ c s) p then String.[] else String.◌∷◌ c rest

-- `strings.HasSuffix`, of a suffix that is not empty
abbrev pub has_suffix : String → String → Bool
has_suffix p String.[] = false
has_suffix p (String.◌∷◌ c s) =
    let rest = has_suffix p s in if str_eq (String.◌∷◌ c s) p then true else rest

-- `strings.HasPrefix`
abbrev pub has_prefix : String → String → Bool
has_prefix p s = elim (cut_prefix p s) [ none ↦ false | some after ↦ true ]

-- `strings.TrimPrefix`
abbrev pub trim_prefix : String → String → String
trim_prefix p s = elim (cut_prefix p s) [ none ↦ s | some after ↦ after ]

-- the digits of a number, read from the left
unfoldable pub digits : ℕ → String → Option ℕ
digits n String.[] = some n
digits n (String.◌∷◌ c s) =
    let rest = digits (n * 10 + (code c - 48)) s in
    if leb 48 (code c) && leb (code c) 57 then rest else none

-- the magnitude of a number with at least one digit that fits an int64: up to `bound`
abbrev magnitude : ℕ → String → Option ℕ
unfolding digits
magnitude bound s = elim (digits 0 s) [
  | none ↦ none
  | some n ↦ if is_empty s then none else if leb n bound then some n else none
]

-- `strconv.Atoi`, of a number that is not negative; `-0` is one
unfoldable pub atoi : String → Option ℕ
unfolding magnitude
atoi String.[] = none
atoi (String.◌∷◌ c s) =
    if code c == 45
    then magnitude 0 s
    else if code c == 43
    then magnitude 9223372036854775807 s
    else magnitude 9223372036854775807 (String.◌∷◌ c s)
