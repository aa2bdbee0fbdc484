-- ===== src/Selector/Kinds.antt =====
-- internal/selector/selector.go: Kind, Selector, String, Parse and the constructors.
use Prim.Native.Char.{code}
use Prim.Native.String.{String}
use pinchtab.Prelude.{
  ℕ, Bool, true, false, ◌&&◌, ◌||◌, Option, none, some, List, [], ◌∷◌, leb, ◌==◌, if◌then◌else◌,
}
use pinchtab.Prelude.Text.{has_prefix, append, is_empty, cut_prefix, trim_space}

pub data Kind : Type 0 where
  none_kind : Kind
  ref : Kind
  css : Kind
  xpath : Kind
  text_kind : Kind
  semantic : Kind
  role : Kind
  label : Kind
  placeholder : Kind
  alt : Kind
  title : Kind
  testid : Kind
  first : Kind
  last : Kind
  nth : Kind

pub record Selector : Type 0 where
  pub kind : Kind
  pub value : String

abbrev pub selector : Kind → String → Selector
selector k v = record { kind = k; value = v }

abbrev pub empty_selector : Selector
empty_selector = selector none_kind ""

-- the prefix that String puts before the value
abbrev pub prefix : Kind → String
prefix none_kind = ""
prefix ref = ""
prefix css = "css:"
prefix xpath = "xpath:"
prefix text_kind = "text:"
prefix semantic = "find:"
prefix role = "role:"
prefix label = "label:"
prefix placeholder = "placeholder:"
prefix alt = "alt:"
prefix title = "title:"
prefix testid = "testid:"
prefix first = "first:"
prefix last = "last:"
prefix nth = "nth:"

-- String
unfoldable pub to_string : Selector → String
to_string s = append (prefix s.kind) s.value

abbrev is_digit : ℕ → Bool
is_digit c = leb 48 c && leb c 57

unfoldable pub all_digits : String → Bool
all_digits String.[] = true
all_digits (String.◌∷◌ c s) = is_digit (code c) && all_digits s

-- IsRef
unfoldable pub is_ref : String → Bool
unfolding all_digits
is_ref String.[] = false
is_ref (String.◌∷◌ c String.[]) = false
is_ref (String.◌∷◌ c s) = (code c == 101) && all_digits s

-- Parse, of a text without an explicit prefix
unfoldable pub detect : String → Selector
unfolding is_ref
detect s =
    if has_prefix "//" s || has_prefix "(//" s
    then selector xpath s
    else if is_ref s
    then selector ref s
    else selector css s

-- the explicit prefixes, in the order in which Parse tries them
abbrev pub prefixes : List (String × Kind)
prefixes =
    ("css:", css)
    ∷ ("xpath:", xpath)
    ∷ ("text:", text_kind)
    ∷ ("find:", semantic)
    ∷ ("semantic:", semantic)
    ∷ ("role:", role)
    ∷ ("label:", label)
    ∷ ("placeholder:", placeholder)
    ∷ ("alt:", alt)
    ∷ ("title:", title)
    ∷ ("testid:", testid)
    ∷ ("first:", first)
    ∷ ("last:", last)
    ∷ ("nth:", nth)
    ∷ ("ref:", ref)
    ∷ []

abbrev pub after_prefix : Kind → Option String → Selector → Selector
after_prefix k none rest = rest
after_prefix k (some after) rest = selector k after

unfoldable pub parse_prefixes : List (String × Kind) → String → Selector
unfolding detect
parse_prefixes [] s = detect s
parse_prefixes ((p, k) ∷ ps) s = after_prefix k (cut_prefix p s) (parse_prefixes ps s)

-- Parse, of a text without spaces around it
unfoldable pub parse_trimmed : String → Selector
unfolding parse_prefixes
parse_trimmed s = if is_empty s then empty_selector else parse_prefixes prefixes s

-- Parse
unfoldable pub parse : String → Selector
unfolding parse_trimmed
parse s = parse_trimmed (trim_space s)

abbrev from : Kind → String → Selector
from k v = if is_empty v then empty_selector else selector k v

-- FromRef, FromCSS, FromXPath, FromText and FromSemantic
unfoldable pub from_ref : String → Selector
from_ref v = from ref v

unfoldable pub from_css : String → Selector
from_css v = from css v

unfoldable pub from_xpath : String → Selector
from_xpath v = from xpath v

unfoldable pub from_text : String → Selector
from_text v = from text_kind v

unfoldable pub from_semantic : String → Selector
from_semantic v = from semantic v

-- How Validate refuses.
pub data SelectorError : Type 0 where
  empty : SelectorError
  unknown_kind : SelectorError

unfoldable pub validate : Selector → Option SelectorError
validate s =
    if is_empty s.value
    then some empty
    else elim s.kind [ none_kind ↦ some unknown_kind | _ ↦ none ]
