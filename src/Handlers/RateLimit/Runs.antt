-- ===== src/Handlers/RateLimit/Runs.antt =====
-- internal/handlers/middleware_ratelimit.go: what the limit on requests answers after any calls.
use pinchtab.Prelude.{
  ℕ, ◌≤◌, ◌≡◌, refl, ap, sym, ◌∙◌, String, false, Bool-cases, inl, inr, Option, none, some, List,
  [], ◌∷◌, length, get_elem?, leb, str_eq, eq_iff, if◌then◌else◌, arith,
}
use pinchtab.Prelude.Map
use pinchtab.Prelude.Map.{Map}
use pinchtab.Authn.Limiter.{recent, hits_of}
use pinchtab.Authn.Limiter.Pruning.{recent_again}
use pinchtab.Handlers.RateLimit.{
  is_long_lived_stream_request, acquire_stream_connection, release_stream_connection, admit_hit,
  open_stream, rate_limit_middleware, rate_limit_window, keep_hits, evict_buckets,
  evict_stale_rate_buckets, System, start, Call, requests, closes, ticks, close, step, run, served,
  rate_limited, Limits, connections,
}
use pinchtab.Handlers.RateLimit.Window.{
  History, window_hits, note, history, Ordered, Agrees, later-Agrees, full-Agrees, room-Agrees,
}

keep_hits-lookup :
    (host key : String) (hits : List ℕ) (entries : Map (List ℕ))
    → Map.lookup host entries ≡ none
    → hits_of (Map.lookup key (keep_hits host hits entries))
      ≡ (if str_eq host key then hits else hits_of (Map.lookup key entries))
unfolding Map.lookup
keep_hits-lookup host key [] entries absent = elim (Bool-cases (str_eq host key)) [
  | inl hit ↦
      let absent' = ap (λ k. Map.lookup k entries) (sym ((eq_iff host key).0 hit)) ∙ absent in
      rw (hit, absent') refl
  | inr miss ↦ rw miss refl
]
keep_hits-lookup host key (t ∷ hits) entries absent = elim (Bool-cases (str_eq host key)) [
  | inl hit ↦ rw hit refl
  | inr miss ↦ rw miss refl
]

keep_hits-absent :
    (host key : String) (hits : List ℕ) (entries : Map (List ℕ))
    → str_eq host key ≡ false
    → Map.lookup key entries ≡ none
    → Map.lookup key (keep_hits host hits entries) ≡ none
unfolding Map.lookup
keep_hits-absent host key [] entries miss absent = absent
keep_hits-absent host key (t ∷ hits) entries miss absent = rw miss absent

evict-absent :
    (now window : ℕ) (key : String) (entries : Map (List ℕ))
    → Map.lookup key entries ≡ none
    → Map.lookup key (evict_buckets now window entries) ≡ none
unfolding evict_buckets Map.lookup
evict-absent now window key [] absent = refl
evict-absent now window key ((host, hits) ∷ entries) absent = elim (Bool-cases (str_eq host key)) [
  | inl hit ↦ ground (arith, absent, hit)
  | inr miss ↦
      keep_hits-absent host key (recent window now hits) (evict_buckets now window entries) miss
        (evict-absent now window key entries (rw miss at absent))
]

keep_hits-Distinct :
    (host : String) (hits : List ℕ) (entries : Map (List ℕ))
    → Map.lookup host entries ≡ none
    → Map.Distinct entries
    → Map.Distinct (keep_hits host hits entries)
keep_hits-Distinct host [] entries absent d = d
keep_hits-Distinct host (t ∷ hits) entries absent d = (absent, d)

evict-Distinct :
    (now window : ℕ) (entries : Map (List ℕ))
    → Map.Distinct entries
    → Map.Distinct (evict_buckets now window entries)
unfolding evict_buckets
evict-Distinct now window [] d = tt
evict-Distinct now window ((host, hits) ∷ entries) (absent, d) =
    keep_hits-Distinct host (recent window now hits) (evict_buckets now window entries)
      (evict-absent now window host entries absent) (evict-Distinct now window entries d)

-- the janitor drops only what has left the window
evict-hits :
    (now n : ℕ) (key : String) (entries : Map (List ℕ))
    → now ≤ n
    → Map.Distinct entries
    → window_hits n (hits_of (Map.lookup key (evict_buckets now rate_limit_window entries)))
      ≡ window_hits n (hits_of (Map.lookup key entries))
unfolding evict_buckets Map.lookup
evict-hits now n key [] le d = refl
evict-hits now n key ((host, hits) ∷ entries) le (absent, d) =
    rw
      (keep_hits-lookup host key (window_hits now hits)
        (evict_buckets now rate_limit_window entries)
        (evict-absent now rate_limit_window host entries absent))
      (elim (Bool-cases (str_eq host key)) [
        | inl hit ↦ rw hit (recent_again rate_limit_window now n hits le)
        | inr miss ↦ rw miss (evict-hits now n key entries le d)
      ])

evict-Agrees :
    (t now : ℕ) (buckets : Map (List ℕ)) (h : History)
    → t ≤ now
    → Agrees t buckets h
    → Agrees now (evict_buckets now rate_limit_window buckets) h
evict-Agrees t now buckets h le a =
    let l = later-Agrees t now buckets h le a in
    record {
      distinct = evict-Distinct now rate_limit_window buckets a.distinct;
      hits = λ k n le'. evict-hits now n k buckets le' a.distinct ∙ l.hits k n le';
      bound = l.bound;
    }

open_stream_buckets :
    (host : String) (l : Limits) → (open_stream host l).0.rate_buckets ≡ l.rate_buckets
unfolding acquire_stream_connection
open_stream_buckets host l = elim (Bool-cases (leb 8 (connections host l))) [
  | inl full ↦ rw full refl
  | inr room ↦ rw room refl
]

close_buckets :
    (i : ℕ) (o : Option String) (s : System)
    → (close i o s).limits.rate_buckets ≡ s.limits.rate_buckets
unfolding close release_stream_connection
close_buckets i none s = refl
close_buckets i (some host) s = elim (Bool-cases (leb (connections host s.limits) 1)) [
  | inl one ↦ rw one refl
  | inr many ↦ rw many refl
]

step-Agrees :
    (t now : ℕ) (c : Call) (s : System) (h : History)
    → t ≤ now
    → Agrees t s.limits.rate_buckets h
    → Agrees now (step now c s).limits.rate_buckets (note now c h)
unfolding step rate_limit_middleware evict_stale_rate_buckets admit_hit
step-Agrees t now (requests method path host) s h le a =
    elim (Bool-cases (is_long_lived_stream_request method path)) [
      | inl stream ↦
          rw (note, stream, open_stream_buckets host s.limits)
            (later-Agrees t now s.limits.rate_buckets h le a)
      | inr plain ↦
          elim (Bool-cases (
            leb 300 (length (window_hits now (hits_of (Map.lookup host s.limits.rate_buckets)))))) [
              | inl full ↦
                  rw (note, plain, full) (full-Agrees t now s.limits.rate_buckets h le a host full)
              | inr room ↦
                  rw (note, plain, room) (room-Agrees t now s.limits.rate_buckets h le a host room)
            ]
    ]
step-Agrees t now (closes i) s h le a =
    rw (close_buckets i (get_elem? s.streams i) s) (later-Agrees t now s.limits.rate_buckets h le a)
step-Agrees t now ticks s h le a = evict-Agrees t now s.limits.rate_buckets h le a

run-Agrees :
    (t end : ℕ) (calls : List (ℕ × Call)) (s : System) (h : History)
    → Ordered t calls end
    → Agrees t s.limits.rate_buckets h
    → Agrees end (run calls s).limits.rate_buckets (history calls h)
unfolding run
run-Agrees t end [] s h le a = later-Agrees t end s.limits.rate_buckets h le a
run-Agrees t end ((now, c) ∷ cs) s h (le, order) a =
    run-Agrees now end cs (step now c s) (note now c h) order (step-Agrees t now c s h le a)

start-Agrees : Agrees 0 start.limits.rate_buckets (λ k. [])
unfolding Map.lookup recent
start-Agrees = record { distinct = tt; hits = λ k n le. refl; bound = λ k n le. omega arith }

admit_hit_verdict :
    (now : ℕ) (host : String) (filtered : List ℕ) (l : Limits)
    → (admit_hit now host filtered l).1
      ≡ (if leb 300 (length filtered) then rate_limited else served)
unfolding admit_hit
admit_hit_verdict now host filtered l = elim (Bool-cases (leb 300 (length filtered))) [
  | inl full ↦ rw full refl
  | inr room ↦ rw room refl
]

-- Over any interleaving of requests, of streams that end and of ticks of the janitor, at times that do
-- not go back: of the requests of a host that were served, other than streams, at most 300 lie in the
-- window of ten seconds; and the next such request is refused exactly where 300 do, as if the middleware
-- kept the times of all requests.
pub run-admit :
    (calls : List (ℕ × Call)) (now : ℕ) (method path host : String)
    → Ordered 0 calls now
    → is_long_lived_stream_request method path ≡ false
    → let hits = window_hits now (history calls (λ k. []) host) in
      (length hits ≤ 300)
      × ((rate_limit_middleware now method path host (run calls start).limits).1
          ≡ (if leb 300 (length hits) then rate_limited else served))
unfolding rate_limit_middleware
run-admit calls now method path host order plain =
    let a = run-Agrees 0 now calls start (λ k. []) order start-Agrees in
    let l = (run calls start).limits in
    (
      a.bound host now (omega arith),
      rw plain (
          admit_hit_verdict now host (window_hits now (hits_of (Map.lookup host l.rate_buckets))) l
          ∙ ap (λ hits. if leb 300 (length hits) then rate_limited else served)
              (a.hits host now (omega arith))),
    )
