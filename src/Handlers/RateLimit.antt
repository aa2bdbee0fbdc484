-- ===== src/Handlers/RateLimit.antt =====
-- internal/handlers/middleware_ratelimit.go: a limit on requests in a sliding window and one on open
-- streams, per client. The readings of the clock, nanoseconds, are arguments; so is ClientIP, whose
-- result is the host.
pub mod Streams
pub mod Window
pub mod Runs
mod Tests
use pinchtab.Prelude.{
  ℕ, ◌+◌, ◌-◌, ◌*◌, ◌%◌, ◌^◌, String, Bool, true, false, ◌&&◌, ◌||◌, not, Option, none, some, List,
  [], ◌∷◌, ◌++◌, length, get_elem?, put, ltb, leb, str_eq, if◌then◌else◌,
}
use pinchtab.Prelude.Map
use pinchtab.Prelude.Map.{Map}
use pinchtab.Prelude.Text.{has_prefix, trim_space, cut_prefix, has_suffix}
use pinchtab.Authn.Limiter.{recent, hits_of}

abbrev pub max_concurrent_stream_requests_per_host : ℕ
max_concurrent_stream_requests_per_host = 8

abbrev pub rate_limit_window : ℕ
rate_limit_window = 10 * 1000000000

abbrev pub rate_limit_max_req : ℕ
rate_limit_max_req = 300

-- the package's variables
pub record Limits : Type 0 where
  pub stream_connections : Map ℕ
  pub rate_buckets : Map (List ℕ)
  pub metric_rate_limited : ℕ

abbrev pub no_limits : Limits
no_limits = record { stream_connections = []; rate_buckets = []; metric_rate_limited = 0 }

-- isLongLivedStreamRequest, of a request that is not nil
unfoldable pub is_long_lived_stream_request : String → String → Bool
unfolding trim_space
is_long_lived_stream_request method raw =
    let path = trim_space raw in
    str_eq method "GET"
    && (str_eq path "/api/events"
        || (has_prefix "/api/agents/" path && has_suffix "/events" path)
        || (has_prefix "/instances/" path && has_suffix "/logs/stream" path))

-- a missing key of a map of ints reads 0
abbrev pub int_of : Option ℕ → ℕ
int_of none = 0
int_of (some n) = n

abbrev pub connections : String → Limits → ℕ
connections host l = int_of (Map.lookup host l.stream_connections)

-- acquireStreamConnection
unfoldable pub acquire_stream_connection : String → Limits → Limits × Bool
acquire_stream_connection host l =
    if leb max_concurrent_stream_requests_per_host (connections host l) then (l, false) else (
      record l {
        stream_connections = Map.insert host (connections host l + 1) l.stream_connections;
      },
      true,
    )

-- releaseStreamConnection
unfoldable pub release_stream_connection : String → Limits → Limits
release_stream_connection host l =
    if leb (connections host l) 1
    then record l { stream_connections = Map.delete host l.stream_connections }
    else record l {
      stream_connections = Map.insert host (connections host l - 1) l.stream_connections;
    }

-- the uint64 that counts the requests refused
abbrev pub count_limited : Limits → Limits
count_limited l = record l { metric_rate_limited = (l.metric_rate_limited + 1) % 2 ^ 64 }

pub data Verdict : Type 0 where
  streaming : Verdict
  served : Verdict
  stream_limit_reached : Verdict
  rate_limited : Verdict

-- a request that is no stream, for the hits of its host inside the window
unfoldable pub admit_hit : ℕ → String → List ℕ → Limits → Limits × Verdict
admit_hit now host filtered l =
    if leb rate_limit_max_req (length filtered)
    then (
      count_limited (record l { rate_buckets = Map.insert host filtered l.rate_buckets }),
      rate_limited,
    )
    else (record l { rate_buckets = Map.insert host (filtered ++ now ∷ []) l.rate_buckets }, served)

abbrev pub open_stream : String → Limits → Limits × Verdict
open_stream host l =
    let (l', opened) = acquire_stream_connection host l in
    if opened then (l', streaming) else (count_limited l', stream_limit_reached)

-- RateLimitMiddleware, up to the call of the handler
unfoldable pub rate_limit_middleware : ℕ → String → String → String → Limits → Limits × Verdict
unfolding recent is_long_lived_stream_request admit_hit acquire_stream_connection
rate_limit_middleware now method path host l =
    if is_long_lived_stream_request method path
    then open_stream host l
    else admit_hit now host
        (recent rate_limit_window now (hits_of (Map.lookup host l.rate_buckets))) l

-- what the janitor keeps of one host's hits
abbrev pub keep_hits : String → List ℕ → Map (List ℕ) → Map (List ℕ)
keep_hits host [] entries = entries
keep_hits host (t ∷ hits) entries = (host, t ∷ hits) ∷ entries

-- the loop of evictStaleRateBuckets
unfoldable pub evict_buckets : ℕ → ℕ → Map (List ℕ) → Map (List ℕ)
unfolding recent
evict_buckets now window [] = []
evict_buckets now window ((host, hits) ∷ entries) =
    keep_hits host (recent window now hits) (evict_buckets now window entries)

-- evictStaleRateBuckets
unfoldable pub evict_stale_rate_buckets : ℕ → ℕ → Limits → Limits
unfolding evict_buckets
evict_stale_rate_buckets now window l = record l {
  rate_buckets = evict_buckets now window l.rate_buckets;
}

-- The middleware with the hosts of the streams that it has opened and not released.
pub record System : Type 0 where
  pub limits : Limits
  pub streams : List String

abbrev pub start : System
start = record { limits = no_limits; streams = [] }

pub data Call : Type 0 where
  -- method, path and host
  requests : String → String → String → Call
  -- the handler of one of the open streams returns
  closes : ℕ → Call
  -- the janitor's ticker
  ticks : Call

abbrev pub opened_by : String → Verdict → List String → List String
opened_by host streaming streams = host ∷ streams
opened_by host verdict streams = streams

-- the deferred releaseStreamConnection
unfoldable pub close : ℕ → Option String → System → System
unfolding release_stream_connection
close i none s = s
close i (some host) s = record {
  limits = release_stream_connection host s.limits;
  streams = put i none s.streams;
}

abbrev pub request : String → Limits × Verdict → List String → System
request host (l, verdict) streams = record { limits = l; streams = opened_by host verdict streams }

unfoldable pub step : ℕ → Call → System → System
unfolding rate_limit_middleware evict_stale_rate_buckets close
step now (requests method path host) s =
    request host (rate_limit_middleware now method path host s.limits) s.streams
step now (closes i) s = close i (get_elem? s.streams i) s
step now ticks s = record s { limits = evict_stale_rate_buckets now rate_limit_window s.limits }

unfoldable pub run : List (ℕ × Call) → System → System
unfolding step
run [] s = s
run ((now, c) ∷ cs) s = run cs (step now c s)
