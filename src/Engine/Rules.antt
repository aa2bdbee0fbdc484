-- ===== src/Engine/Rules.antt =====
-- internal/engine/rules.go: the rules that say whether the lite engine or Chrome serves a request.
use pinchtab.Prelude.{String, Bool, false, ◌&&◌, ◌||◌, not, List, [], ◌∷◌, str_eq, if◌then◌else◌}
use pinchtab.Prelude.Text.{has_suffix}

-- Capability, a string with nine known values
abbrev pub Capability : Type 0
Capability = String

pub data Decision : Type 0 where
  undecided : Decision
  use_lite : Decision
  use_chrome : Decision

-- RouteRule, an interface
pub record RouteRule : Type 0 where
  pub name : String
  pub decide : Capability → String → Decision

abbrev pub is_chrome_only : Capability → Bool
is_chrome_only op =
    str_eq op "screenshot" || str_eq op "pdf" || str_eq op "evaluate" || str_eq op "cookies"

-- CapabilityRule
unfoldable pub capability_rule : RouteRule
capability_rule = record {
  name = "capability";
  decide = λ op url. if is_chrome_only op then use_chrome else undecided;
}

abbrev pub static_extensions : List String
static_extensions = ".html" ∷ ".htm" ∷ ".xml" ∷ ".txt" ∷ ".md" ∷ []

-- the loop over the extensions; a URL that is nothing but an extension does not end with it
unfoldable pub is_static : String → List String → Bool
is_static url [] = false
is_static url (ext ∷ exts) = (has_suffix ext url && not (str_eq url ext)) || is_static url exts

abbrev pub is_reading : Capability → Bool
is_reading op = str_eq op "navigate" || str_eq op "snapshot" || str_eq op "text"

-- ContentHintRule
unfoldable pub content_hint_rule : RouteRule
unfolding is_static
content_hint_rule = record {
  name = "content-hint";
  decide =
      λ op url. if is_reading op && is_static url static_extensions then use_lite else undecided;
}

abbrev pub is_lite : Capability → Bool
is_lite op = is_reading op || str_eq op "click" || str_eq op "type"

-- DefaultLiteRule
unfoldable pub default_lite_rule : RouteRule
default_lite_rule = record {
  name = "default-lite";
  decide = λ op url. if is_lite op then use_lite else undecided;
}

-- DefaultChromeRule
unfoldable pub default_chrome_rule : RouteRule
default_chrome_rule = record { name = "default-chrome"; decide = λ op url. use_chrome }
