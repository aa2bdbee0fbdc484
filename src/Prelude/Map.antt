-- ===== src/Prelude/Map.antt =====
-- Go's `map[string]V` as an association list: the first entry of a key counts, and the order of
-- the list stands for the order in which a `range` visits the entries.
use pinchtab.Prelude.Tests.{if◌then◌else◌, Bool-cases}
use native.Mathlib.Omega.{arith}
use mathlib.Core.HLevel.{hedberg}
use mathlib.Core.List.{List, [], ◌∷◌}
use text.Mathlib.TextPositions.{eq_refl}
use mathlib.Core.Option.{Option, none, some}
use text.Mathlib.Text.{◌==◌}
use mathlib.Core.Path.{◌≡◌, refl, subst}
use mathlib.Core.Logic.{◌⊎◌, inl, inr}
use text.Mathlib.TextEquality.{eq_iff}
use Prim.Native.String.{String}
use Prim.Native.Nat.{ℕ, ◌+◌, ◌≤◌}

-- Keys are compared by a decision, so they form a set.
compare_keys : (key name : String) → (key ≡ name) ⊎ ¬ (key ≡ name)
compare_keys key name = elim (Bool-cases (key == name)) [
  | inr apart ↦ inr (λ same. ground (arith, (eq_iff key name).1 same))
  | inl equal ↦ inl ((eq_iff key name).0 equal)
]

decide_keys : Discrete String
decide_keys key name = elim (compare_keys key name) [ inl equal ↦ yes equal | inr apart ↦ no apart ]

pub String-set : IsSet String
String-set = hedberg decide_keys

abbrev pub Map {ℓ} : Type ℓ → Type ℓ
Map V = List (String × V)

module _ {ℓ} {V : Type ℓ} where
  unfoldable pub lookup : String → Map V → Option V
  lookup key [] = none
  lookup key ((name, v) ∷ entries) = if name == key then some v else lookup key entries

  unfoldable pub insert : String → V → Map V → Map V
  insert key v [] = (key, v) ∷ []
  insert key v ((name, old) ∷ entries) =
      if name == key then (key, v) ∷ entries else (name, old) ∷ insert key v entries

  unfoldable pub delete : String → Map V → Map V
  delete key [] = []
  delete key ((name, old) ∷ entries) =
      let rest = delete key entries in if name == key then rest else (name, old) ∷ rest

  pub lookup-nil : (key : String) (v : V) → ¬ (lookup key [] ≡ some v)
  unfolding lookup
  lookup-nil key v e = cc

  pub lookup-insert :
      (key name : String) (v : V) (entries : Map V)
      → lookup name (insert key v entries) ≡ (if key == name then some v else lookup name entries)
  unfolding lookup insert
  lookup-insert key name v [] = refl
  lookup-insert key name v ((first, old) ∷ entries) = ground (
    arith,
    eq_iff key name,
    eq_iff first key,
    eq_iff first name,
    lookup-insert key name v entries,
  )

  pub lookup-delete :
      (key name : String) (entries : Map V)
      → lookup name (delete key entries) ≡ (if key == name then none else lookup name entries)
  unfolding lookup delete
  lookup-delete key name [] = ground arith
  lookup-delete key name ((first, old) ∷ entries) =
      ground (
        arith,
        eq_iff key name,
        eq_iff first key,
        eq_iff first name,
        lookup-delete key name entries,
      )

  -- No key has two entries.
  abbrev pub Distinct : Map V → Type ℓ
  Distinct [] = Unit {ℓ}
  Distinct ((key, v) ∷ entries) = (lookup key entries ≡ none) × Distinct entries

  delete-absent :
      (key : String) (entries : Map V) → lookup key entries ≡ none → delete key entries ≡ entries
  unfolding lookup delete
  delete-absent key [] h = refl
  delete-absent key ((name, old) ∷ entries) h = ground (arith, delete-absent key entries)

  pub insert-Distinct :
      (key : String) (v : V) (entries : Map V) → Distinct entries → Distinct (insert key v entries)
  unfolding lookup insert
  insert-Distinct key v [] d = ground arith
  insert-Distinct key v ((name, old) ∷ entries) d = ground (
    arith,
    eq_iff name key,
    eq_iff key name,
    insert-Distinct key v entries,
    lookup-insert key name v entries,
  )

  pub delete-Distinct :
      (key : String) (entries : Map V) → Distinct entries → Distinct (delete key entries)
  unfolding lookup delete
  delete-Distinct key [] d = tt
  delete-Distinct key ((name, old) ∷ entries) d = ground (
    arith,
    eq_iff key name,
    eq_iff name key,
    delete-Distinct key entries,
    lookup-delete key name entries,
  )

  -- The sum of a measure over the values.
  module _ (f : V → ℕ) where
    abbrev pub sum : Map V → ℕ
    sum [] = 0
    sum ((key, v) ∷ entries) = f v + sum entries

    -- the measure of the value at a key, and 0 if there is none
    abbrev pub at : Option V → ℕ
    at none = 0
    at (some v) = f v

    pub sum-insert :
        (key : String) (v : V) (entries : Map V)
        → sum (insert key v entries) + at (lookup key entries) ≡ sum entries + f v
    unfolding lookup insert
    sum-insert key v [] = omega arith
    sum-insert key v ((name, old) ∷ entries) = ground (arith, sum-insert key v entries)

    pub sum-delete :
        (key : String) (entries : Map V)
        → Distinct entries
        → sum (delete key entries) + at (lookup key entries) ≡ sum entries
    unfolding lookup delete
    sum-delete key [] d = omega arith
    sum-delete key ((name, old) ∷ entries) d =
        ground (arith, eq_iff name key, delete-absent key entries, sum-delete key entries)

    pub at-le-sum : (key : String) (entries : Map V) → at (lookup key entries) ≤ sum entries
    unfolding lookup
    at-le-sum key [] = omega arith
    at-le-sum key ((name, old) ∷ entries) = ground (arith, at-le-sum key entries)

module _ {ℓ κ} {V : Type ℓ} (P : String → V → Type κ) where
  -- `P` holds of each key with its value.
  abbrev pub Every : Map V → Type (ℓ ⊔ κ)
  Every entries = (key : String) (v : V) → lookup key entries ≡ some v → P key v

  pub insert-Every :
      (key : String) (v : V) (entries : Map V)
      → P key v
      → Every entries
      → Every (insert key v entries)
  insert-Every key v entries p every name old e = elim (Bool-cases (key == name)) [
    | inl hit ↦
        let same : v ≡ old = ground (arith, lookup-insert key name v entries) in
        subst (P name) same (subst (λ name. P name v) ((eq_iff key name).0 hit) p)
    | inr miss ↦ every name old (ground (arith, lookup-insert key name v entries))
  ]

  pub delete-Every : (key : String) (entries : Map V) → Every entries → Every (delete key entries)
  delete-Every key entries every name old e = elim (Bool-cases (key == name)) [
    | inl hit ↦ absurd (ground (arith, lookup-delete key name entries))
    | inr miss ↦ every name old (ground (arith, lookup-delete key name entries))
  ]

  -- `Every`, entry by entry.
  pub Every-head : (key : String) (v : V) (entries : Map V) → Every ((key, v) ∷ entries) → P key v
  unfolding lookup
  Every-head key v entries every = every key v (ground (arith, eq_refl key))

  pub Every-tail :
      (key : String) (v : V) (entries : Map V)
      → lookup key entries ≡ none
      → Every ((key, v) ∷ entries)
      → Every entries
  unfolding lookup
  Every-tail key v entries absent every name old e =
      every name old (ground (arith, eq_iff key name))

  pub Every-cons :
      (key : String) (v : V) (entries : Map V)
      → P key v
      → Every entries
      → Every ((key, v) ∷ entries)
  unfolding lookup
  Every-cons key v entries p every name old e = elim (Bool-cases (key == name)) [
    | inl hit ↦
        let same : v ≡ old = ground arith in
        subst (P name) same (subst (λ name. P name v) ((eq_iff key name).0 hit) p)
    | inr miss ↦ every name old (ground arith)
  ]
