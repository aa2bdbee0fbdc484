-- ===== src/Browser/Sessions/Tests.antt =====
-- The manager at small concrete inputs.
use pinchtab.Prelude.{◌≡◌, refl, true, false, some, List, [], ◌∷◌, eq_iff, arith}
use pinchtab.Prelude.Map.{Map}
use pinchtab.Prelude.Text.{trim_space, trim_right, in_ranges, is_blank}
use pinchtab.Browser.Sessions.{
  Host, Config, Manager, PersistedSession, validate, elevate, is_elevated, new_manager,
}
use pinchtab.Browser.Sessions.Validity.{Used, validate-Used, elevate-Used}
use pinchtab.Browser.Sessions.Elevated.{creates, validates, elevates, run, run-is_elevated}

-- a host whose hashes are all alike
abbrev plain_host : Host
plain_host = record { hash_token = λ _. 1 ∷ []; encode = λ _. "01"; decode = λ _. some (1 ∷ []) }

abbrev one_manager : Manager
one_manager = record {
  sessions =
      ("s1", record { created_at = 1; last_seen = 1; elevated_until = 0; token_hash = 1 ∷ [] })
      ∷ [];
  idle_timeout = 50;
  max_lifetime = 100;
  elevation_window = 10;
  persist = false;
  persist_path = "";
  persist_elevation = false;
  files = [];
}

validate-Used_example :
    Used plain_host 20 "s1" "secret"
      (λ x. record x { last_seen = 20 })
      one_manager
      (validate plain_host 20 " s1" "secret" one_manager)
unfolding trim_space trim_right in_ranges is_blank
validate-Used_example = validate-Used plain_host 20 " s1" "secret" one_manager

elevated-Used :
    Used plain_host 20 "s1" "secret"
      (λ x. record x { last_seen = 20; elevated_until = 30 })
      one_manager
      (elevate plain_host 20 "s1" "secret" one_manager)
unfolding trim_space trim_right in_ranges is_blank
elevated-Used = elevate-Used plain_host 20 "s1" "secret" one_manager

abbrev forgetful : Config
forgetful = record {
  idle_timeout = 50;
  max_lifetime = 100;
  elevation_window = 10;
  persist = true;
  persist_path = "/b.json";
  persist_elevation = false;
}

-- a file in which a session is elevated
abbrev old_files : Map (List PersistedSession)
old_files =
    (
      "/b.json",
      record { id = "s1"; created_at = 1; last_seen = 1; elevated_until = 99; token_hash = "01" }
          ∷ [],
    )
    ∷ []

run-is_elevated_example :
    (is_elevated plain_host 20 "s1" "secret" (
      run plain_host
        (validates 10 "s1" "secret" ∷ creates 15 "s2" "secret" ∷ elevates 16 "s2" "secret" ∷ [])
        (new_manager plain_host 5 old_files forgetful))).1
    ≡ false
unfolding trim_space trim_right in_ranges is_blank
run-is_elevated_example =
    run-is_elevated plain_host 5 20 old_files forgetful
      (validates 10 "s1" "secret" ∷ creates 15 "s2" "secret" ∷ elevates 16 "s2" "secret" ∷ []) "s1"
      "secret" refl ((λ e. ground (arith, (eq_iff "s2" "s1").1 e)), tt)
