-- ===== src/Handlers/RateLimit/Window.antt =====
-- internal/handlers/middleware_ratelimit.go: the limit on requests beside a record of all requests
-- that were served, none of which is ever dropped.
use pinchtab.Prelude.{
  ℕ, ◌+◌, ◌≤◌, ◌≡◌, refl, ap, sym, ◌∙◌, String, true, false, Bool-cases, inl, inr, List, [], ◌∷◌,
  ◌++◌, length, length-append, leb, str_eq, eq_iff, eq_refl, if◌then◌else◌, arith,
}
use pinchtab.Prelude.Map
use pinchtab.Prelude.Map.{Map}
use pinchtab.Authn.Limiter.{recent, hits_of}
use pinchtab.Authn.Limiter.Pruning.{recent_again, recent-append}
use pinchtab.Handlers.RateLimit.{
  is_long_lived_stream_request, rate_limit_window, Call, requests, closes, ticks,
}

-- The times of all requests of each host that were served.
abbrev pub History : Type 0
History = String → List ℕ

abbrev pub window_hits : ℕ → List ℕ → List ℕ
window_hits now hits = recent rate_limit_window now hits

-- a request is served where fewer than 300 of its host were in the window before it
abbrev pub note : ℕ → Call → History → History
note now (requests method path host) h = λ k.
    if is_long_lived_stream_request method path
    then h k
    else if str_eq host k
    then (if leb 300 (length (window_hits now (h k))) then h k else h k ++ now ∷ [])
    else h k
note now (closes i) h = h
note now ticks h = h

abbrev pub history : List (ℕ × Call) → History → History
history [] h = h
history ((now, c) ∷ cs) h = history cs (note now c h)

-- The clock does not go back, from `t` on to `end`.
abbrev pub Ordered : ℕ → List (ℕ × Call) → ℕ → Type 0
Ordered t [] end = t ≤ end
Ordered t ((now, c) ∷ cs) end = (t ≤ now) × Ordered now cs end

-- From the time `t` on, the hits inside the window are those of the history, and at most 300.
pub record Agrees (t : ℕ) (buckets : Map (List ℕ)) (h : History) : Type 0 where
  pub distinct : Map.Distinct buckets
  pub hits :
      (key : String) (now : ℕ)
      → t ≤ now
      → window_hits now (hits_of (Map.lookup key buckets)) ≡ window_hits now (h key)
  pub bound : (key : String) (now : ℕ) → t ≤ now → length (window_hits now (h key)) ≤ 300

recent_shorter :
    (window t now : ℕ) (hits : List ℕ)
    → t ≤ now
    → length (recent window now hits) ≤ length (recent window t hits)
unfolding recent
recent_shorter window t now [] le = omega arith
recent_shorter window t now (ts ∷ hits) le = ground (arith, recent_shorter window t now hits le)

one_more :
    (now n : ℕ) (hits : List ℕ)
    → now ≤ n
    → length (window_hits n (hits ++ now ∷ [])) ≤ length (window_hits now hits) + 1
unfolding recent
one_more now n hits le =
    rw
      (
        recent-append rate_limit_window n hits (now ∷ []),
        length-append (window_hits n hits) (window_hits n (now ∷ [])),
      )
      (ground (arith, recent_shorter rate_limit_window now n hits le))

module _ (t now : ℕ) (buckets : Map (List ℕ)) (h : History) (le : t ≤ now)
    (a : Agrees t buckets h) where
  pub later-Agrees : Agrees now buckets h
  later-Agrees = record {
    distinct = a.distinct;
    hits = λ k n le'. a.hits k n (omega (arith, le, le'));
    bound = λ k n le'. a.bound k n (omega (arith, le, le'));
  }

  -- what the middleware stores for a host, and what the history says of it
  insert-Agrees :
      (host : String) (stored : List ℕ) (h' : History)
      → ((n : ℕ) → now ≤ n → window_hits n stored ≡ window_hits n (h' host))
      → ((n : ℕ) → now ≤ n → length (window_hits n (h' host)) ≤ 300)
      → ((k : String) → str_eq host k ≡ false → h' k ≡ h k)
      → Agrees now (Map.insert host stored buckets) h'
  insert-Agrees host stored h' at bound other = record {
    distinct = Map.insert-Distinct host stored buckets a.distinct;
    hits = λ k n le'.
        rw (Map.lookup-insert host k stored buckets) (elim (Bool-cases (str_eq host k)) [
          | inl hit ↦ rw hit (at n le' ∙ ap (λ j. window_hits n (h' j)) ((eq_iff host k).0 hit))
          | inr miss ↦ rw (miss, other k miss) (a.hits k n (omega (arith, le, le')))
        ]);
    bound = λ k n le'. elim (Bool-cases (str_eq host k)) [
      | inl hit ↦ rw (sym ((eq_iff host k).0 hit)) (bound n le')
      | inr miss ↦ rw (other k miss) (a.bound k n (omega (arith, le, le')))
    ];
  }

  -- one request that is served or refused
  module _ (host : String) where
    abbrev pub bucket : List ℕ
    bucket = hits_of (Map.lookup host buckets)

    abbrev pub noted : History
    noted = λ k.
        if str_eq host k
        then (if leb 300 (length (window_hits now (h k))) then h k else h k ++ now ∷ [])
        else h k

    same_decision : length (window_hits now bucket) ≡ length (window_hits now (h host))
    same_decision = ap length (a.hits host now le)

    noted_other : (k : String) → str_eq host k ≡ false → noted k ≡ h k
    noted_other k miss = rw miss refl

    pub full-Agrees :
        leb 300 (length (window_hits now bucket)) ≡ true
        → Agrees now (Map.insert host (window_hits now bucket) buckets) noted
    full-Agrees full =
        let full' : leb 300 (length (window_hits now (h host))) ≡ true =
          sym (ap (leb 300) same_decision) ∙ full in
        let stays : noted host ≡ h host = rw (eq_refl host, full') refl in
        insert-Agrees host (window_hits now bucket) noted
          (λ n le'. rw stays (
            recent_again rate_limit_window now n bucket le'
            ∙ a.hits host n (omega (arith, le, le'))))
          (λ n le'. rw stays (a.bound host n (omega (arith, le, le')))) noted_other

    pub room-Agrees :
        leb 300 (length (window_hits now bucket)) ≡ false
        → Agrees now (Map.insert host (window_hits now bucket ++ now ∷ []) buckets) noted
    room-Agrees room =
        let room' : leb 300 (length (window_hits now (h host))) ≡ false =
          sym (ap (leb 300) same_decision) ∙ room in
        let grows : noted host ≡ h host ++ now ∷ [] = rw (eq_refl host, room') refl in
        insert-Agrees host (window_hits now bucket ++ now ∷ []) noted
          (λ n le'.
            rw
              (
                grows,
                recent-append rate_limit_window n (window_hits now bucket) (now ∷ []),
                recent-append rate_limit_window n (h host) (now ∷ []),
              )
              (ap (λ xs. xs ++ window_hits n (now ∷ []))
                (recent_again rate_limit_window now n bucket le'
                  ∙ a.hits host n (omega (arith, le, le')))))
          (λ n le'. rw grows (ground (arith, one_more now n (h host) le', room'))) noted_other
