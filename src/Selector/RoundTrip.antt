-- ===== src/Selector/RoundTrip.antt =====
-- internal/selector/selector.go: Parse reads back what String writes.
use Prim.Native.Char.{Char}
use Prim.Native.String.{String}
use text.Mathlib.TextEquality.{Char-path}
use pinchtab.Prelude.{
  ◌≡◌, refl, sym, ap, ◌∙◌, subst, Bool, true, false, List, [], ◌∷◌, if◌then◌else◌, All,
  Option-cases, inl, inr, arith,
}
use pinchtab.Prelude.Text.{
  append, is_empty, cut_prefix, trim_space, trim_right, is_blank, in_ranges,
}
use pinchtab.Selector.Trimmed.{trim_space-trimmed, cut_prefix-trimmed}
use pinchtab.Selector.Kinds.{
  Kind, Selector, selector, none_kind, ref, css, xpath, text_kind, semantic, role, label,
  placeholder, alt, title, testid, first, last, nth, prefix, to_string, all_digits, is_ref, detect,
  prefixes, parse_prefixes, parse_trimmed, parse, empty_selector,
}

-- the kinds with a prefix
abbrev named : Kind → Bool
named none_kind = false
named ref = false
named k = true

-- The selectors that their text tells apart: nothing, a reference of the form of `e12`, and for any
-- other kind a value without trailing spaces.
abbrev pub IsCanonical : Selector → Type 0
IsCanonical s = elim s.kind [
  | none_kind ↦ s.value ≡ ""
  | ref ↦ is_ref s.value ≡ true
  | _ ↦ trim_right s.value ≡ s.value
]

-- what is read where a prefix has been written
prefixed-trim_right :
    (k : Kind) (v : String)
    → named k ≡ true
    → parse (append (prefix k) v) ≡ selector k (trim_right v)
unfolding parse parse_trimmed parse_prefixes trim_space trim_right in_ranges is_blank
prefixed-trim_right none_kind v h = absurd cc
prefixed-trim_right ref v h = absurd cc
prefixed-trim_right css v h = refl
prefixed-trim_right xpath v h = refl
prefixed-trim_right text_kind v h = refl
prefixed-trim_right semantic v h = refl
prefixed-trim_right role v h = refl
prefixed-trim_right label v h = refl
prefixed-trim_right placeholder v h = refl
prefixed-trim_right alt v h = refl
prefixed-trim_right title v h = refl
prefixed-trim_right testid v h = refl
prefixed-trim_right first v h = refl
prefixed-trim_right last v h = refl
prefixed-trim_right nth v h = refl

digits-trim_right : (s : String) → all_digits s ≡ true → trim_right s ≡ s
unfolding all_digits trim_right in_ranges is_blank
digits-trim_right String.[] h = refl
digits-trim_right (String.◌∷◌ c s) h =
    rw (digits-trim_right s (ground (arith, h))) (ground (arith, h))

-- a reference has no spaces around it, and no prefix
trim_space-ref :
    (d : Char) (s : String)
    → all_digits (String.◌∷◌ d s) ≡ true
    → trim_space (String.◌∷◌ "e" (String.◌∷◌ d s)) ≡ String.◌∷◌ "e" (String.◌∷◌ d s)
unfolding trim_space trim_right in_ranges is_blank
trim_space-ref d s h = ap (λ t. String.◌∷◌ "e" t) (digits-trim_right (String.◌∷◌ d s) h)

detected :
    (d : Char) (s : String)
    → is_ref (String.◌∷◌ "e" (String.◌∷◌ d s)) ≡ true
    → parse_trimmed (String.◌∷◌ "e" (String.◌∷◌ d s))
      ≡ selector ref (String.◌∷◌ "e" (String.◌∷◌ d s))
unfolding parse_trimmed parse_prefixes detect
detected d s h = rw h refl

parse-ref : (v : String) → is_ref v ≡ true → parse v ≡ selector ref v
unfolding is_ref parse
parse-ref String.[] h = absurd cc
parse-ref (String.◌∷◌ c String.[]) h = absurd cc
parse-ref (String.◌∷◌ c (String.◌∷◌ d s)) h =
    let e : c ≡ "e" = Char-path c "e" (ground (arith, h)) in
    let digits : all_digits (String.◌∷◌ d s) ≡ true = ground (arith, h) in
    subst
      (λ k. parse (String.◌∷◌ k (String.◌∷◌ d s)) ≡ selector ref (String.◌∷◌ k (String.◌∷◌ d s)))
      (sym e) (ap parse_trimmed (trim_space-ref d s digits) ∙ detected d s digits)

parse-empty : parse "" ≡ empty_selector
unfolding parse parse_trimmed trim_space
parse-empty = refl

parse-to_string_kind :
    (k : Kind) (v : String)
    → IsCanonical (selector k v)
    → parse (append (prefix k) v) ≡ selector k v
parse-to_string_kind none_kind v h = subst (λ t. parse t ≡ selector none_kind t) (sym h) parse-empty
parse-to_string_kind ref v h = parse-ref v h
parse-to_string_kind k v h = prefixed-trim_right k v refl ∙ ap (selector k) h

-- A selector that is canonical (nothing, or a reference of the form of `e12`, or of another kind and
-- with a value that has no trailing space) is read back from the text that String writes.
pub parse-to_string : (s : Selector) → IsCanonical s → parse (to_string s) ≡ s
unfolding to_string
parse-to_string s h = parse-to_string_kind s.kind s.value h

-- What Parse gives: a value without trailing spaces, and nothing only of a blank text.
record Parsed (s : Selector) : Type 0 where
  pub trimmed : trim_right s.value ≡ s.value
  pub nothing : s.kind ≡ none_kind → s.value ≡ ""

Parsed-IsCanonical :
    (k : Kind) (v : String)
    → Parsed (selector k v)
    → (k ≡ ref → is_ref v ≡ true)
    → IsCanonical (selector k v)
Parsed-IsCanonical none_kind v p h = p.nothing refl
Parsed-IsCanonical ref v p h = h refl
Parsed-IsCanonical k v p h = p.trimmed

abbrev is_kind : Kind → Bool
is_kind none_kind = false
is_kind k = true

kind-Parsed : (k : Kind) (v : String) → is_kind k ≡ true → trim_right v ≡ v → Parsed (selector k v)
kind-Parsed k v i t = record { trimmed = t; nothing = λ e. absurd (ground (arith, e, i)) }

if-Parsed : (b : Bool) (x y : Selector) → Parsed x → Parsed y → Parsed (if b then x else y)
if-Parsed true x y p q = p
if-Parsed false x y p q = q

parsed_empty : trim_right "" ≡ ""
unfolding trim_right
parsed_empty = refl

detect-Parsed : (s : String) → trim_right s ≡ s → Parsed (detect s)
unfolding detect
detect-Parsed s t =
    if-Parsed _ _ _ (kind-Parsed xpath s refl t)
      (if-Parsed (is_ref s) _ _ (kind-Parsed ref s refl t) (kind-Parsed css s refl t))

prefixes-Parsed :
    (ps : List (String × Kind)) (s : String)
    → All (λ p. is_kind p.1 ≡ true) ps
    → trim_right s ≡ s
    → Parsed (parse_prefixes ps s)
unfolding parse_prefixes
prefixes-Parsed [] s a t = detect-Parsed s t
prefixes-Parsed ((p, k) ∷ ps) s a t = elim (Option-cases (cut_prefix p s)) [
  | inl miss ↦ rw miss (prefixes-Parsed ps s a.1 t)
  | inr (after, hit) ↦ rw hit (kind-Parsed k after a.0 (cut_prefix-trimmed p s after t hit))
]

parse-Parsed : (s : String) → Parsed (parse s)
unfolding parse parse_trimmed
parse-Parsed s =
    let t = trim_space-trimmed s in
    let kinds : All (λ p. is_kind p.1 ≡ true) prefixes = (
      refl,
      (
        refl,
        (
          refl,
          (
            refl,
            (
              refl,
              (refl, (refl, (refl, (refl, (refl, (refl, (refl, (refl, (refl, (refl, tt)))))))))),
            ),
          ),
        ),
      ),
    ) in
    if-Parsed (is_empty (trim_space s)) _ _ (record { trimmed = parsed_empty; nothing = λ e. refl })
      (prefixes-Parsed prefixes (trim_space s) kinds t)

-- Whatever the text, short of an explicit `ref:` before something that is no reference: the text
-- that String writes of what Parse gives is read back as the same.
pub parse-to_string-parse :
    (s : String)
    → ((parse s).kind ≡ ref → is_ref (parse s).value ≡ true)
    → parse (to_string (parse s)) ≡ parse s
parse-to_string-parse s h =
    parse-to_string (parse s) (Parsed-IsCanonical (parse s).kind (parse s).value (parse-Parsed s) h)
