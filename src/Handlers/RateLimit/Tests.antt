-- ===== src/Handlers/RateLimit/Tests.antt =====
-- The middleware at small concrete inputs.
use pinchtab.Prelude.{
  ℕ, ◌≤◌, ◌≡◌, refl, true, false, [], ◌∷◌, List, length, leb, total, if◌then◌else◌, arith,
}
use pinchtab.Prelude.Map
use pinchtab.Prelude.Text.{trim_space, trim_right, in_ranges, is_blank}
use pinchtab.Handlers.RateLimit.{
  is_long_lived_stream_request, connections, rate_limit_middleware, start, Call, requests, closes,
  ticks, run, streaming, stream_limit_reached, rate_limited, served, acquire_stream_connection,
  release_stream_connection, close, step, evict_stale_rate_buckets, evict_buckets, admit_hit,
}
use pinchtab.Authn.Limiter.{recent}
use pinchtab.Handlers.RateLimit.Streams.{of_host, run-streams}
use pinchtab.Handlers.RateLimit.Window.{window_hits, history}
use pinchtab.Handlers.RateLimit.Runs.{run-admit}

abbrev opens : ℕ × Call
opens = (1, requests "GET" "/api/events" "h")

abbrev some_calls : List (ℕ × Call)
some_calls =
    opens ∷ opens ∷ (2, closes 0) ∷ (3, requests "GET" "/tabs" "h") ∷ (20000000000, ticks) ∷ []

stream_path : is_long_lived_stream_request "GET" " /instances/a/logs/stream" ≡ true
unfolding is_long_lived_stream_request trim_space trim_right in_ranges is_blank
stream_path = refl

ordinary_path : is_long_lived_stream_request "GET" "/tabs" ≡ false
unfolding is_long_lived_stream_request trim_space trim_right in_ranges is_blank
ordinary_path = refl

events_path : is_long_lived_stream_request "GET" "/api/events" ≡ true
unfolding is_long_lived_stream_request trim_space trim_right in_ranges is_blank
events_path = refl

one_open : connections "h" (run some_calls start).limits ≡ 1
unfolding run step rate_limit_middleware is_long_lived_stream_request trim_space trim_right
    in_ranges is_blank acquire_stream_connection release_stream_connection close
    evict_stale_rate_buckets evict_buckets admit_hit recent Map.lookup Map.insert Map.delete
one_open = refl

run-streams_example :
    let s = run some_calls start in
    let open_streams = total (of_host "h") s.streams in
    (connections "h" s.limits ≡ open_streams)
    × (open_streams ≤ 8)
    × ((rate_limit_middleware 21000000000 "GET" "/api/events" "h" s.limits).1
        ≡ (if leb 8 open_streams then stream_limit_reached else streaming))
run-streams_example = run-streams some_calls 21000000000 "GET" "/api/events" "h" events_path

run-admit_example :
    let hits = window_hits 21000000000 (history some_calls (λ k. []) "h") in
    (length hits ≤ 300)
    × ((rate_limit_middleware 21000000000 "GET" "/tabs" "h" (run some_calls start).limits).1
        ≡ (if leb 300 (length hits) then rate_limited else served))
run-admit_example =
    run-admit some_calls 21000000000 "GET" "/tabs" "h"
      (omega arith, (omega arith, (omega arith, (omega arith, (omega arith, omega arith)))))
      ordinary_path
