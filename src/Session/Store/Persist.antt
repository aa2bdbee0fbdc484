-- ===== src/Session/Store/Persist.antt =====
-- What a store that starts anew reads back from the file.
use pinchtab.Prelude.{
  ℕ, ◌≡◌, refl, sym, ap, subst, ◌∙◌, String, Bool, true, false, not, ◌&&◌, Option, none, some, [],
  ◌∷◌, length, str_eq, eq_iff, if◌then◌else◌, arith,
}
use pinchtab.Prelude.Map
use pinchtab.Prelude.Map.{Map}
use pinchtab.Prelude.Text.{trim_space}
use pinchtab.Session.Store.{
  Host, Config, Session, Store, is_active, is_expired, persisted, snapshot, save, restore,
  restore_one, load, new_store, apply_config,
}
use pinchtab.Session.Store.Finds.{IsStore}

-- The session stands under its id, and its hash can be read back.
abbrev pub IsKept : Host → String → Session → Type 0
IsKept host id x =
    (x.id ≡ id)
    × (length x.token_hash ≡ 32)
    × (host.decode (trim_space (host.encode x.token_hash)) ≡ some x.token_hash)

abbrev usable : Config → ℕ → Session → Bool
usable c now x = is_active x.status && not (is_expired c now x)

-- A session that is usable comes back with the idle timeout of the settings; else what was there
-- stays.
abbrev pub read_back : Config → ℕ → Option Session → Option Session → Option Session
read_back c now none old = old
read_back c now (some x) old =
    if usable c now x then some (record x { idle_timeout = c.idle_timeout }) else old

restore_one-kept :
    (host : Host) (c : Config) (now : ℕ) (id k : String) (x : Session) (m : Map Session)
    → IsKept host id x
    → Map.lookup k (restore_one c now (persisted host x) (some x.token_hash) m)
      ≡ (if str_eq id k then read_back c now (some x) (Map.lookup k m) else Map.lookup k m)
unfolding is_expired
restore_one-kept host c now id k x m (same_id, long, _) =
    ground (arith, same_id, Map.lookup-insert x.id k (record x { idle_timeout = c.idle_timeout }) m)

-- The first record, then the others, where no other has its id.
restored_first :
    (c : Config) (now : ℕ) (b : Bool) (x : Session) (rest new old : Option Session)
    → (b ≡ true → rest ≡ none)
    → new ≡ (if b then read_back c now (some x) old else old)
    → read_back c now rest new ≡ read_back c now (if b then some x else rest) old
restored_first c now true x rest new old gone e = ap (λ r. read_back c now r new) (gone refl) ∙ e
restored_first c now false x rest new old gone e = ap (read_back c now rest) e

restore-snapshot :
    (host : Host) (c : Config) (now : ℕ) (k : String) (m acc : Map Session)
    → Map.Distinct m
    → Map.Every (IsKept host) m
    → Map.lookup k (restore host c now (snapshot host m) acc)
      ≡ read_back c now (Map.lookup k m) (Map.lookup k acc)
unfolding restore snapshot Map.lookup
restore-snapshot host c now k [] acc d kept = refl
restore-snapshot host c now k ((id, x) ∷ m) acc (absent, d) kept =
    let (same_id, long, readable) = Map.Every-head (IsKept host) id x m kept in
    let acc' = restore_one c now (persisted host x) (some x.token_hash) acc in
    let rest =
      restore-snapshot host c now k m acc' d (Map.Every-tail (IsKept host) id x m absent kept) in
    let one = restore_one-kept host c now id k x acc (same_id, long, readable) in
    let gone =
      λ (hit : str_eq id k ≡ true). ap (λ j. Map.lookup j m) (sym ((eq_iff id k).0 hit)) ∙ absent in
    let whole =
      restored_first c now (str_eq id k) x (Map.lookup k m) (Map.lookup k acc') (Map.lookup k acc)
        gone one in
    ap
      (λ o.
        Map.lookup k
          (restore host c now (snapshot host m) (restore_one c now (persisted host x) o acc)))
      readable
    ∙ rest
    ∙ whole

-- A store that starts over the file that another with the same settings has saved holds exactly the
-- sessions of the other that are active and have not expired, with the idle timeout of the settings
-- and otherwise as they were; the settings name a file, ids are those of the sessions, and hashes
-- have their 32 bytes and can be read back from their hexadecimal text.
pub save-new_store :
    (host : Host) (now : ℕ) (c : Config) (s : Store) (k : String)
    → IsStore s
    → Map.Every (IsKept host) s.sessions
    → s.cfg ≡ (apply_config c s).cfg
    → str_eq c.persist_path "" ≡ false
    → Map.lookup k (new_store host now (save host s).file c).sessions
      ≡ read_back s.cfg now (Map.lookup k s.sessions) none
unfolding save new_store load apply_config Map.lookup
save-new_store host now c s k d kept same named =
    let file = subst (λ g. str_eq g.persist_path "" ≡ false) (sym same) named in
    rw (file, save)
      (rw (named, load)
        (subst
          (λ g.
            Map.lookup k (restore host g now (snapshot host s.sessions) [])
            ≡ read_back s.cfg now (Map.lookup k s.sessions) none)
          same (restore-snapshot host s.cfg now k s.sessions [] d kept)))
