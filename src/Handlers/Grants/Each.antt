-- ===== src/Handlers/Grants/Each.antt =====
-- internal/handlers/middleware_session_grants.go: the decision on the map of grants, by each grant of
-- the list.
use pinchtab.Prelude.{
  ◌≡◌, refl, String, Bool, true, false, ◌&&◌, ◌||◌, not, Bool-cases, inl, inr, none, some, List, [],
  ◌∷◌, length, ◌==◌, str_eq, eq_iff, if◌then◌else◌, arith,
}
use pinchtab.Prelude.Map
use pinchtab.Prelude.Map.{Map}
use pinchtab.Prelude.Text.{trim_space}
use pinchtab.Handlers.Grants.Routes.{session_revoke_path, session_admin_route, session_grant_allows}
use pinchtab.Handlers.Grants.{
  normalize, normalized_session_grants, any_grant, has_star, grants_allow, session_allows,
  session_request_allowed,
}

module _ (to_lower : String → String) where
  -- Of a list of grants: none says anything, one is a star, one has the route.
  abbrev pub all_blank : List String → Bool
  all_blank [] = true
  all_blank (g ∷ gs) = str_eq (normalize to_lower g) "" && all_blank gs

  abbrev pub any_star : List String → Bool
  any_star [] = false
  any_star (g ∷ gs) = str_eq (normalize to_lower g) "*" || any_star gs

module _ (to_lower : String → String) (method path : String) where
  abbrev pub any_allows : List String → Bool
  any_allows [] = false
  any_allows (g ∷ gs) = session_grant_allows (normalize to_lower g) method path || any_allows gs

  any_grant-insert :
      (g : String) (m : Map Bool)
      → any_grant method path (Map.insert g true m)
        ≡ session_grant_allows g method path || any_grant method path m
  unfolding any_grant Map.insert
  any_grant-insert g [] = ground arith
  any_grant-insert g ((name, b) ∷ m) = elim (Bool-cases (str_eq name g)) [
    | inl same ↦ rw (same, (eq_iff name g).0 same) (ground arith)
    | inr other ↦ rw (other, any_grant-insert g m) (ground arith)
  ]

  has_star-insert :
      (g : String) (m : Map Bool)
      → has_star (Map.lookup "*" (Map.insert g true m))
        ≡ str_eq g "*" || has_star (Map.lookup "*" m)
  has_star-insert g m =
      rw (Map.lookup-insert g "*" true m)
        (elim (Bool-cases (str_eq g "*")) [ inl star ↦ rw star refl | inr plain ↦ rw plain refl ])

  length-insert : (g : String) (m : Map Bool) → (length (Map.insert g true m) == 0) ≡ false
  unfolding Map.insert
  length-insert g [] = refl
  length-insert g ((name, b) ∷ m) = ground arith

  blank_allows : (g : String) → str_eq g "" ≡ true → session_grant_allows g method path ≡ false
  unfolding session_grant_allows
  blank_allows g e = rw ((eq_iff g "").0 e) refl

  length-normalized :
      (gs : List String) (out : Map Bool)
      → (length (normalized_session_grants to_lower gs out) == 0)
        ≡ all_blank to_lower gs && (length out == 0)
  unfolding normalized_session_grants
  length-normalized [] out = refl
  length-normalized (g ∷ gs) out = elim (Bool-cases (str_eq (normalize to_lower g) "")) [
    | inl blank ↦ rw (blank, length-normalized gs out) (ground arith)
    | inr named ↦
        rw (named, length-normalized gs _, length-insert (normalize to_lower g) out) (ground arith)
  ]

  has_star-normalized :
      (gs : List String) (out : Map Bool)
      → has_star (Map.lookup "*" (normalized_session_grants to_lower gs out))
        ≡ any_star to_lower gs || has_star (Map.lookup "*" out)
  unfolding normalized_session_grants
  has_star-normalized [] out = refl
  has_star-normalized (g ∷ gs) out = elim (Bool-cases (str_eq (normalize to_lower g) "")) [
    | inl blank ↦
        rw (blank, has_star-normalized gs out, (eq_iff (normalize to_lower g) "").0 blank) refl
    | inr named ↦
        rw (named, has_star-normalized gs _, has_star-insert (normalize to_lower g) out)
          (ground arith)
  ]

  any_grant-normalized :
      (gs : List String) (out : Map Bool)
      → any_grant method path (normalized_session_grants to_lower gs out)
        ≡ any_allows gs || any_grant method path out
  unfolding normalized_session_grants
  any_grant-normalized [] out = refl
  any_grant-normalized (g ∷ gs) out = elim (Bool-cases (str_eq (normalize to_lower g) "")) [
    | inl blank ↦
        rw (blank, any_grant-normalized gs out, blank_allows (normalize to_lower g) blank) refl
    | inr named ↦
        rw (named, any_grant-normalized gs _, any_grant-insert (normalize to_lower g) out)
          (ground arith)
  ]

  session_allows-Each :
      (gs : List String)
      → session_allows to_lower method path (some gs)
        ≡ all_blank to_lower gs || any_star to_lower gs || any_allows gs
  unfolding session_allows grants_allow Map.lookup any_grant
  session_allows-Each gs =
      rw (length-normalized gs [], has_star-normalized gs [], any_grant-normalized gs [])
        (ground arith)

decides : (r a b : Bool) → (if r then true else if a then false else b) ≡ r || (not a && b)
decides true a b = refl
decides false true b = refl
decides false false b = refl

nothing : (r a : Bool) → (if r then true else if a then false else false) ≡ r
nothing true a = refl
nothing false true = refl
nothing false false = refl

-- A session with grants may make a request exactly where it revokes a session by POST, or where the
-- route is none of the administrators' and either every grant is blank, or one of the grants, with its
-- spaces cut off and in lower case, is a star or has the route; so neither the order of the grants
-- nor how often each is given matters. Without a session only revoking is allowed.
pub session_request_allowed-each :
    (to_upper to_lower : String → String) (raw_method raw_path : String) (gs : List String)
    → let method = to_upper (trim_space raw_method) in
      let path = trim_space raw_path in
      let revokes = str_eq method "POST" && session_revoke_path path in
      let granted =
        all_blank to_lower gs || any_star to_lower gs || any_allows to_lower method path gs in
      (session_request_allowed to_upper to_lower raw_method raw_path (some gs)
        ≡ revokes || (not (session_admin_route method path) && granted))
      × (session_request_allowed to_upper to_lower raw_method raw_path none ≡ revokes)
unfolding session_request_allowed session_allows
session_request_allowed-each to_upper to_lower raw_method raw_path gs =
    let method = to_upper (trim_space raw_method) in
    let path = trim_space raw_path in
    let revokes = str_eq method "POST" && session_revoke_path path in
    (
      rw (session_allows-Each to_lower method path gs)
          (decides revokes (session_admin_route method path) _),
      nothing revokes (session_admin_route method path),
    )
