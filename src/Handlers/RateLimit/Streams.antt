-- ===== src/Handlers/RateLimit/Streams.antt =====
-- internal/handlers/middleware_ratelimit.go: the open streams of each client.
use pinchtab.Prelude.{
  ℕ, ◌+◌, ◌-◌, ◌≤◌, ◌≡◌, refl, ap, ◌∙◌, String, true, Bool-cases, Option-cases, inl, inr, none,
  some, List, [], ◌∷◌, get_elem?, put, length, total, total-put, leb, str_eq, eq_iff, if◌then◌else◌,
  arith,
}
use pinchtab.Prelude.Map
use pinchtab.Handlers.RateLimit.{
  Limits, is_long_lived_stream_request, connections, acquire_stream_connection,
  release_stream_connection, admit_hit, open_stream, rate_limit_middleware,
  evict_stale_rate_buckets, System, start, streaming, stream_limit_reached, Call, requests, closes,
  ticks, opened_by, step, run,
}

-- 1 for a stream of the host
abbrev pub of_host : String → String → ℕ
of_host host name = if str_eq name host then 1 else 0

-- Each host's count is the number of its open streams, which is at most the limit.
pub record Counted (l : Limits) (streams : List String) : Type 0 where
  pub exact : (host : String) → connections host l ≡ total (of_host host) streams
  pub within : (host : String) → connections host l ≤ 8

-- the count of another host stays
connections-insert :
    (name host : String) (n : ℕ) (l : Limits)
    → connections host (record l { stream_connections = Map.insert name n l.stream_connections })
      ≡ (if str_eq name host then n else connections host l)
connections-insert name host n l =
    rw (Map.lookup-insert name host n l.stream_connections)
      (elim (Bool-cases (str_eq name host)) [ inl hit ↦ rw hit refl | inr miss ↦ rw miss refl ])

connections-delete :
    (name host : String) (l : Limits)
    → connections host (record l { stream_connections = Map.delete name l.stream_connections })
      ≡ (if str_eq name host then 0 else connections host l)
connections-delete name host l =
    rw (Map.lookup-delete name host l.stream_connections)
      (elim (Bool-cases (str_eq name host)) [ inl hit ↦ rw hit refl | inr miss ↦ rw miss refl ])

same_count :
    (name host : String) (l : Limits)
    → str_eq name host ≡ true
    → connections name l ≡ connections host l
same_count name host l hit = ap (λ h. connections h l) ((eq_iff name host).0 hit)

open_stream-Counted :
    (host : String) (l : Limits) (streams : List String)
    → Counted l streams
    → let o = open_stream host l in Counted o.0 (opened_by host o.1 streams)
unfolding acquire_stream_connection
open_stream-Counted host l streams c = elim (Bool-cases (leb 8 (connections host l))) [
  | inl full ↦ rw full (record { exact = c.exact; within = c.within })
  | inr room ↦ rw room (record {
    exact = λ k. ground (
      arith,
      connections-insert host k (connections host l + 1) l,
      same_count host k l,
      c.exact k,
    );
    within = λ k. ground (
      arith,
      connections-insert host k (connections host l + 1) l,
      same_count host k l,
      c.exact k,
      c.within k,
      room,
    );
  })
]

release-Counted :
    (i : ℕ) (host : String) (l : Limits) (streams : List String)
    → get_elem? streams i ≡ some host
    → Counted l streams
    → Counted (release_stream_connection host l) (put i none streams)
unfolding release_stream_connection
release-Counted i host l streams at c = elim (Bool-cases (leb (connections host l) 1)) [
  | inl one ↦ rw one (record {
    exact = λ k. ground (
      arith,
      connections-delete host k l,
      same_count host k l,
      c.exact k,
      total-put (of_host k) i host none streams at,
      one,
    );
    within = λ k.
        ground (arith, connections-delete host k l, same_count host k l, c.exact k, c.within k);
  })
  | inr many ↦ rw many (record {
    exact = λ k. ground (
      arith,
      connections-insert host k (connections host l - 1) l,
      same_count host k l,
      c.exact k,
      total-put (of_host k) i host none streams at,
      many,
    );
    within = λ k. ground (
      arith,
      connections-insert host k (connections host l - 1) l,
      same_count host k l,
      c.exact k,
      c.within k,
    );
  })
]

admit_hit-Counted :
    (now : ℕ) (host : String) (filtered : List ℕ) (l : Limits) (streams : List String)
    → Counted l streams
    → let o = admit_hit now host filtered l in Counted o.0 (opened_by host o.1 streams)
unfolding admit_hit
admit_hit-Counted now host filtered l streams c = elim (Bool-cases (leb 300 (length filtered))) [
  | inl full ↦ rw full (record { exact = c.exact; within = c.within })
  | inr room ↦ rw room (record { exact = c.exact; within = c.within })
]

step-Counted :
    (now : ℕ) (c : Call) (s : System)
    → Counted s.limits s.streams
    → let s' = step now c s in Counted s'.limits s'.streams
unfolding step rate_limit_middleware evict_stale_rate_buckets
step-Counted now (requests method path host) s c =
    elim (Bool-cases (is_long_lived_stream_request method path)) [
      | inl stream ↦ rw stream (open_stream-Counted host s.limits s.streams c)
      | inr plain ↦ rw plain (admit_hit-Counted now host _ s.limits s.streams c)
    ]
step-Counted now (closes i) s c = elim (Option-cases (get_elem? s.streams i)) [
  | inl absent ↦ rw absent c
  | inr (host, at) ↦ rw at (release-Counted i host s.limits s.streams at c)
]
step-Counted now ticks s c = record { exact = c.exact; within = c.within }

run-Counted :
    (cs : List (ℕ × Call)) (s : System)
    → Counted s.limits s.streams
    → let s' = run cs s in Counted s'.limits s'.streams
unfolding run
run-Counted [] s c = c
run-Counted ((now, call) ∷ cs) s c = run-Counted cs (step now call s) (step-Counted now call s c)

start-Counted : Counted start.limits start.streams
unfolding Map.lookup
start-Counted = record { exact = λ host. refl; within = λ host. omega arith }

open_stream_verdict :
    (host : String) (l : Limits)
    → (open_stream host l).1
      ≡ (if leb 8 (connections host l) then stream_limit_reached else streaming)
unfolding acquire_stream_connection
open_stream_verdict host l = elim (Bool-cases (leb 8 (connections host l))) [
  | inl full ↦ rw full refl
  | inr room ↦ rw room refl
]

-- Over any interleaving of requests, of streams that end and of ticks of the janitor, each host's count
-- is the number of its streams that are open, which is at most eight; and a request for a stream is
-- refused exactly where its host has eight open.
pub run-streams :
    (cs : List (ℕ × Call)) (now : ℕ) (method path host : String)
    → is_long_lived_stream_request method path ≡ true
    → let s = run cs start in
      let open_streams = total (of_host host) s.streams in
      (connections host s.limits ≡ open_streams)
      × (open_streams ≤ 8)
      × ((rate_limit_middleware now method path host s.limits).1
          ≡ (if leb 8 open_streams then stream_limit_reached else streaming))
unfolding rate_limit_middleware
run-streams cs now method path host stream =
    let c = run-Counted cs start start-Counted in
    let s = run cs start in
    let exact = c.exact host in
    let within = c.within host in
    (
      exact,
      ground (arith, exact, within),
      rw stream (
          open_stream_verdict host s.limits
          ∙ ap (λ n. if leb 8 n then stream_limit_reached else streaming) exact),
    )
