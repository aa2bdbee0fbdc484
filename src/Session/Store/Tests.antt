-- ===== src/Session/Store/Tests.antt =====
-- The store of sessions at small concrete inputs.
use pinchtab.Prelude.{
  ℕ, zero, suc, ◌≡◌, ◌+◌, ◌≢◌, refl, String, true, false, none, some, List, [], ◌∷◌, length,
}
use pinchtab.Prelude.Map
use pinchtab.Prelude.Text.{trim_space, trim_right, in_ranges, is_blank}
use pinchtab.Session.Store.{
  Host, Config, Session, Store, active, apply_config, authenticate, revoke, save, new_store,
  update_config, find, is_expired, admit, touch, touch_found,
}
use pinchtab.Session.Store.Finds.{IsStore, Authenticated, authenticate-Authenticated}
use pinchtab.Session.Store.Revoked.{touches, run, call, revoke-authenticate}
use pinchtab.Session.Store.Pruning.{left_of, update_config-prunes}
use pinchtab.Session.Store.Persist.{IsKept, read_back, save-new_store}

abbrev zeros : ℕ → List ℕ
zeros zero = []
zeros (suc n) = 0 ∷ zeros n

-- a host that knows one hash only
abbrev one_hash : Host
one_hash = record { sum256 = λ _. zeros 32; encode = λ _. "00"; decode = λ _. some (zeros 32) }

abbrev week_config : Config
week_config = record {
  enabled = true;
  mode = "required";
  idle_timeout = 100;
  max_lifetime = 1000;
  persist_path = "/s.json";
}

abbrev ada : Session
ada = record {
  id = "ses_ada";
  agent_id = "ada";
  label = "";
  token_hash = zeros 32;
  created_at = 1;
  last_seen_at = 1;
  expires_at = 1001;
  idle_timeout = 100;
  status = active;
  grants = [];
}

abbrev one_session : Store
one_session = record { sessions = ("ses_ada", ada) ∷ []; cfg = week_config; file = none }

authenticate-Authenticated_example :
    Authenticated one_hash 50 true "ses_1" one_session
      (authenticate one_hash 50 true "ses_1" one_session)
unfolding Map.lookup
authenticate-Authenticated_example =
    authenticate-Authenticated one_hash 50 true "ses_1" one_session (refl, tt)

old_ones_pruned :
    IsStore (update_config one_hash 500 week_config one_session).0
    × ((k : String)
        → Map.lookup k (update_config one_hash 500 week_config one_session).0.sessions
          ≡ left_of
              (apply_config week_config one_session).cfg
              500
              (Map.lookup k one_session.sessions))
    × (length (update_config one_hash 500 week_config one_session).0.sessions
          + length (update_config one_hash 500 week_config one_session).1
        ≡ 1)
unfolding Map.lookup
old_ones_pruned = update_config-prunes one_hash 500 week_config one_session (refl, tt)

save-new_store_example :
    Map.lookup "ses_ada"
      (new_store one_hash 60 (save one_hash one_session).file week_config).sessions
    ≡ read_back week_config 60 (Map.lookup "ses_ada" one_session.sessions) none
unfolding Map.lookup apply_config
save-new_store_example =
    save-new_store one_hash 60 week_config one_session "ses_ada" (refl, tt)
      (Map.Every-cons (IsKept one_hash) "ses_ada" ada [] (refl, refl, refl)
        (λ j x e. absurd (Map.lookup-nil j x e)))
      refl refl

-- a store with a second session, behind which the same hash stands
abbrev bob : Session
bob = record ada { id = "ses_bob"; agent_id = "bob" }

abbrev two_sessions : Store
two_sessions = record {
  sessions = ("ses_ada", ada) ∷ ("ses_bob", bob) ∷ [];
  cfg = record week_config { persist_path = "" };
  file = none;
}

revoke-authenticate_example :
    (k : String) × (k ≢ "ses_ada")
    × (Map.lookup k
          (authenticate one_hash 50 false "ses_1" (
            run one_hash
              (touches 40 "ses_ada" ∷ [])
              (revoke one_hash "ses_ada" two_sessions).0)).0.sessions
        ≡ some bob)
unfolding Map.lookup Map.insert trim_space trim_right in_ranges is_blank revoke authenticate find
    is_expired admit touch touch_found run call save
revoke-authenticate_example =
    revoke-authenticate one_hash "ses_ada" (touches 40 "ses_ada" ∷ []) 50 false "ses_1" bob
      two_sessions (refl, (refl, tt)) (tt, tt) refl
