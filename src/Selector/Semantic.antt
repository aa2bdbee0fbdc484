-- ===== src/Selector/Semantic.antt =====
-- internal/selector/selector.go: SemanticQuery, the text that goes to the semantic matcher.
use Prim.Native.Char.{code}
use Prim.Native.String.{String}
use pinchtab.Prelude.{ℕ, Bool, true, false, ◌&&◌, not, Option, none, some, ◌==◌, if◌then◌else◌}
use pinchtab.Prelude.Text.{atoi, is_empty, is_blank, trim_space}
use pinchtab.Selector.Kinds.{
  Kind, Selector, semantic, role, label, placeholder, alt, title, testid, first, last, nth, parse,
  to_string,
}

-- `strings.Cut(value, ":")`
unfoldable pub cut_colon : String → Option (String × String)
cut_colon String.[] = none
cut_colon (String.◌∷◌ c s) =
    let rest = cut_colon s in
    if code c == 58
    then some (String.[], s)
    else elim rest [ none ↦ none | some parts ↦ some (String.◌∷◌ c parts.0, parts.1) ]

abbrev indexed : Option ℕ → String → Option (ℕ × String)
indexed none raw = none
indexed (some n) raw = some (n, raw)

abbrev split_parts : Option (String × String) → Option (ℕ × String)
unfolding atoi trim_space
split_parts none = none
split_parts (some (raw_index, raw_selector)) =
    if is_empty (trim_space raw_selector)
    then none
    else indexed (atoi (trim_space raw_index)) (trim_space raw_selector)

-- splitNthSelectorValue
unfoldable pub split_nth_selector_value : String → Option (ℕ × String)
unfolding split_parts cut_colon
split_nth_selector_value value = split_parts (cut_colon value)

-- the kinds that the semantic matcher can find by their text
abbrev pub is_locator : Kind → Bool
is_locator role = true
is_locator label = true
is_locator placeholder = true
is_locator alt = true
is_locator title = true
is_locator testid = true
is_locator k = false

-- rawSelectorCanUseSemantic
unfoldable pub raw_selector_can_use_semantic : String → Bool
unfolding parse is_blank
raw_selector_can_use_semantic raw = let s = parse raw in is_locator s.kind && not (is_blank s.value)

abbrev nth_can_use_semantic : Option (ℕ × String) → Bool
unfolding raw_selector_can_use_semantic
nth_can_use_semantic none = false
nth_can_use_semantic (some (n, raw)) = raw_selector_can_use_semantic raw

abbrev query_if : Bool → String → String × Bool
query_if ok s = if ok then (s, true) else ("", false)

abbrev query_of : Kind → Selector → String × Bool
unfolding raw_selector_can_use_semantic nth_can_use_semantic split_nth_selector_value to_string
    is_blank
query_of semantic s = (s.value, not (is_blank s.value))
query_of first s = query_if (raw_selector_can_use_semantic s.value) (to_string s)
query_of last s = query_if (raw_selector_can_use_semantic s.value) (to_string s)
query_of nth s = query_if (nth_can_use_semantic (split_nth_selector_value s.value)) (to_string s)
query_of k s = if is_locator k then (to_string s, not (is_blank s.value)) else ("", false)

-- SemanticQuery
unfoldable pub semantic_query : Selector → String × Bool
unfolding query_of
semantic_query s = if is_empty s.value then ("", false) else query_of s.kind s
