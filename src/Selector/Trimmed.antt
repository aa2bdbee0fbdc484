-- ===== src/Selector/Trimmed.antt =====
-- internal/selector/selector.go: texts without spaces behind them, and what follows a prefix in them.
use Prim.Native.Char.{Char, code}
use Prim.Native.String.{String}
use text.Mathlib.TextLemmas.{nil≢cons, tail-eq_of_cons-eq}
use pinchtab.Prelude.{
  ◌≡◌, refl, subst, Bool, true, false, ◌&&◌, some, if◌then◌else◌, Bool-cases, inl, inr, arith,
}
use pinchtab.Prelude.Text.{cut_prefix, trim_space, trim_right, is_blank, in_ranges, space_ranges}

-- What is trimmed once stays.
trim_right_again : (s : String) → trim_right (trim_right s) ≡ trim_right s
unfolding trim_right
trim_right_again String.[] = refl
trim_right_again (String.◌∷◌ c s) =
    elim (Bool-cases (in_ranges (code c) space_ranges && is_blank (trim_right s))) [
      | inl blank ↦ rw blank refl
      | inr kept ↦ rw (kept, trim_right_again s, kept) refl
    ]

if-trimmed :
    (b : Bool) (s t : String)
    → trim_right s ≡ s
    → trim_right t ≡ t
    → trim_right (if b then s else t) ≡ (if b then s else t)
if-trimmed true s t e f = e
if-trimmed false s t e f = f

pub trim_space-trimmed : (s : String) → trim_right (trim_space s) ≡ trim_space s
unfolding trim_space
trim_space-trimmed String.[] = trim_right_again String.[]
trim_space-trimmed (String.◌∷◌ c s) =
    if-trimmed (in_ranges (code c) space_ranges) (trim_space s) (trim_right (String.◌∷◌ c s))
      (trim_space-trimmed s) (trim_right_again (String.◌∷◌ c s))

tail-trimmed :
    (c : Char) (s : String) → trim_right (String.◌∷◌ c s) ≡ String.◌∷◌ c s → trim_right s ≡ s
unfolding trim_right
tail-trimmed c s e =
    elim (Bool-cases (in_ranges (code c) space_ranges && is_blank (trim_right s))) [
      | inl blank ↦ absurd (nil≢cons (rw blank at e))
      | inr kept ↦ tail-eq_of_cons-eq (rw kept at e)
    ]

pub cut_prefix-trimmed :
    (p s after : String) → trim_right s ≡ s → cut_prefix p s ≡ some after → trim_right after ≡ after
cut_prefix-trimmed String.[] s after t e =
    let same : s ≡ after = ground (arith, e) in subst (λ x. trim_right x ≡ x) same t
cut_prefix-trimmed (String.◌∷◌ c p) String.[] after t e = absurd (ground (arith, e))
cut_prefix-trimmed (String.◌∷◌ c p) (String.◌∷◌ d s) after t e =
    cut_prefix-trimmed p s after (tail-trimmed d s t) (ground (arith, e))
