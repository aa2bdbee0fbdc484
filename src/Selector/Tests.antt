-- ===== src/Selector/Tests.antt =====
-- Selectors at small concrete inputs.
use pinchtab.Prelude.{◌≡◌, refl, true, some}
use pinchtab.Prelude.Text.{atoi, digits, trim_space, trim_right, in_ranges, is_blank}
use pinchtab.Selector.Kinds.{
  css, xpath, role, nth, selector, parse, parse_trimmed, parse_prefixes, detect, is_ref, all_digits,
  to_string,
}
use pinchtab.Selector.Semantic.{
  cut_colon, split_nth_selector_value, raw_selector_can_use_semantic, semantic_query,
}
use pinchtab.Selector.RoundTrip.{parse-to_string}

button : parse "  role:button Save " ≡ selector role "button Save"
unfolding parse parse_trimmed parse_prefixes trim_space trim_right in_ranges is_blank
button = refl

path : parse "//div" ≡ selector xpath "//div"
unfolding parse parse_trimmed parse_prefixes detect is_ref trim_space trim_right in_ranges is_blank
path = refl

-- A reference of another form than `e12` is written without a prefix, and read back as CSS.
other_reference : parse (to_string (parse "ref:login")) ≡ selector css "login"
unfolding parse parse_trimmed parse_prefixes detect is_ref all_digits to_string trim_space
    trim_right in_ranges is_blank
other_reference = refl

third_button : split_nth_selector_value " 2: role:button" ≡ some (2, "role:button")
unfolding split_nth_selector_value cut_colon digits atoi trim_space trim_right in_ranges is_blank
third_button = refl

third_button_query : semantic_query (selector nth "2:role:button") ≡ ("nth:2:role:button", true)
unfolding semantic_query raw_selector_can_use_semantic split_nth_selector_value cut_colon digits
    atoi parse parse_trimmed parse_prefixes to_string trim_space trim_right in_ranges is_blank
third_button_query = refl

parse-to_string_example :
    parse (to_string (selector role "button Save")) ≡ selector role "button Save"
unfolding trim_right in_ranges is_blank
parse-to_string_example = parse-to_string (selector role "button Save") refl
