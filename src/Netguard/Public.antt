-- ===== src/Netguard/Public.antt =====
-- internal/netguard/netguard.go: what the addresses behind a host have in common.
use Prim.Native.String.{String}
use pinchtab.Prelude.{
  ◌≡◌, refl, sym, ◌∙◌, subst, inl, inr, true, false, Option, none, some, List, [], ◌∷◌, ◌++◌,
  if◌then◌else◌, All, All-map, Bool-cases, Option-cases, arith,
}
use pinchtab.Prelude.Text.{is_empty}
use pinchtab.Netguard.Addresses.{
  Ip, Addr, GuardError, resolve_host, addr_from_slice, validate_public_ip,
}
use pinchtab.Netguard.Ranges.{is_internal_range, by_range, IsAddress, validate_public_ip-by_range}
use pinchtab.Netguard.Resolve.{
  Net, normalize_host, unmapped, Resolution, refused, resolved, addr_eq, seen, addr_or_zero,
  collect, resolve_parsed, resolve_with, resolve_and_validate_public_ips,
}

-- No address stands twice.
abbrev pub Once : List Addr → Type 0
Once [] = Unit
Once (a ∷ addrs) = (seen a addrs ≡ false) × Once addrs

addr_eq_refl : (a : Addr) → addr_eq a a ≡ true
addr_eq_refl a = ground arith

addr_eq_sym : (a b : Addr) → addr_eq a b ≡ addr_eq b a
addr_eq_sym a b = ground arith

seen-append :
    (a b : Addr) (out : List Addr)
    → seen a (out ++ b ∷ []) ≡ (if addr_eq a b then true else seen a out)
seen-append a b [] = refl
seen-append a b (c ∷ out) = ground (arith, seen-append a b out)

append-Once : (a : Addr) (out : List Addr) → seen a out ≡ false → Once out → Once (out ++ a ∷ [])
append-Once a [] s o = (refl, tt)
append-Once a (b ∷ out) s o = (
  ground (arith, s, o.0, seen-append b a out, addr_eq_sym a b),
  append-Once a out (ground (arith, s)) o.1,
)

append-All :
    (P : Addr → Type 0) (a : Addr) (out : List Addr) → P a → All P out → All P (out ++ a ∷ [])
append-All P a [] p all = (p, tt)
append-All P a (b ∷ out) p all = (all.0, append-All P a out p all.1)

-- What is collected from the resolver's answers, given what has been before them.
record Collected (accept : Ip → Option GuardError) (P : Addr → Type 0) (ips : List Ip)
    (out : List Addr) (o : Resolution) : Type 0 where
  pub accepted :
      (addrs : List Addr)
      → o ≡ resolved addrs
      → All (λ ip. (accept ip ≡ none) × (seen (unmapped ip) addrs ≡ true)) ips
  pub kept :
      (addrs : List Addr)
      → o ≡ resolved addrs
      → (a : Addr) → seen a out ≡ true
      → seen a addrs ≡ true
  pub only : (addrs : List Addr) → o ≡ resolved addrs → All P addrs
  pub once : (addrs : List Addr) → o ≡ resolved addrs → Once addrs
  pub some_addr : ¬ (o ≡ resolved [])

module _ (accept : Ip → Option GuardError) (P : Addr → Type 0) where
  refused-Collected :
      {ips : List Ip} {out : List Addr} (err : GuardError)
      → Collected accept P ips out (refused err)
  refused-Collected err = record {
    accepted = λ addrs e. absurd (ground (arith, e));
    kept = λ addrs e a s. absurd (ground (arith, e));
    only = λ addrs e. absurd (ground (arith, e));
    once = λ addrs e. absurd (ground (arith, e));
    some_addr = λ e. ground (arith, e);
  }

  collect-Collected :
      (ips : List Ip) (out : List Addr)
      → All (λ ip. accept ip ≡ none → P (unmapped ip)) ips
      → All P out
      → Once out
      → Collected accept P ips out (collect accept out ips)
  unfolding collect
  collect-Collected [] [] h p o = refused-Collected resolve_host
  collect-Collected [] (b ∷ out) h p o = record {
    accepted = λ addrs e. tt;
    kept = λ addrs e a s.
        let same : b ∷ out ≡ addrs = ground (arith, e) in subst (λ l. seen a l ≡ true) same s;
    only = λ addrs e. let same : b ∷ out ≡ addrs = ground (arith, e) in subst (All P) same p;
    once = λ addrs e. let same : b ∷ out ≡ addrs = ground (arith, e) in subst Once same o;
    some_addr = λ e. ground (arith, e);
  }
  collect-Collected (ip ∷ ips) out h p o = elim (Option-cases (accept ip)) [
    | inr (err, no') ↦ rw (collect, no') (refused-Collected err)
    | inl ok ↦ elim (Bool-cases (seen (unmapped ip) out)) [
      | inl old ↦
          let rest = collect-Collected ips out h.1 p o in
          rw (collect, ok, old)
            (record {
              accepted =
                  λ addrs e. ((ok, rest.kept addrs e (unmapped ip) old), rest.accepted addrs e);
              kept = rest.kept;
              only = rest.only;
              once = rest.once;
              some_addr = rest.some_addr;
            })
      | inr new ↦
          let u = unmapped ip in
          let rest =
            collect-Collected ips (out ++ u ∷ []) h.1 (append-All P u out (h.0 ok) p)
              (append-Once u out new o) in
          let here : seen u (out ++ u ∷ []) ≡ true =
            ground (arith, seen-append u u out, addr_eq_refl u) in
          rw (collect, ok, new)
            (record {
              accepted = λ addrs e. ((ok, rest.kept addrs e u here), rest.accepted addrs e);
              kept = λ addrs e a s. rest.kept addrs e a (ground (arith, s, seen-append a u out));
              only = rest.only;
              once = rest.once;
              some_addr = rest.some_addr;
            })
    ]
  ]

-- The addresses that stand behind a host: itself, if it is an address, and else what the resolver says.
abbrev pub answers_of : Option Ip → Option (List Ip) → List Ip
answers_of (some ip) ips = ip ∷ []
answers_of none none = []
answers_of none (some ips) = ips

abbrev pub answers : Net → String → List Ip
answers net host =
    let name = normalize_host net host in answers_of (net.parse_ip name) (net.resolve_host_ips name)

-- What ResolveAndValidatePublicIPs gives of the addresses that stand behind a host.
pub record Screened (net : Net) (host : String) (o : Resolution) : Type 0 where
  pub external :
      (addrs : List Addr) → o ≡ resolved addrs → All (λ a. is_internal_range a ≡ false) addrs
  pub once : (addrs : List Addr) → o ≡ resolved addrs → Once addrs
  pub some_addr : ¬ (o ≡ resolved [])
  pub all_public :
      (addrs : List Addr)
      → o ≡ resolved addrs
      → All
          (λ ip. (validate_public_ip ip ≡ none) × (seen (unmapped ip) addrs ≡ true))
          (answers net host)

-- an address that is accepted is external
accepted-external :
    (ip : Ip)
    → IsAddress ip
    → validate_public_ip ip ≡ none
    → is_internal_range (unmapped ip) ≡ false
unfolding unmapped
accepted-external ip h e = go (addr_from_slice ip) (sym (validate_public_ip-by_range ip h) ∙ e)
  where
    go : (a : Option Addr) → by_range a ≡ none → is_internal_range (addr_or_zero a) ≡ false
    go none e = absurd (ground (arith, e))
    go (some a) e = ground (arith, e)

refused-Screened : (net : Net) (host : String) (err : GuardError) → Screened net host (refused err)
refused-Screened net host err = record {
  external = λ addrs e. absurd (ground (arith, e));
  once = λ addrs e. absurd (ground (arith, e));
  some_addr = λ e. ground (arith, e);
  all_public = λ addrs e. absurd (ground (arith, e));
}

-- what is collected from the addresses behind the host
answers-Screened :
    (net : Net) (host : String) (ips : List Ip)
    → answers net host ≡ ips
    → All IsAddress ips
    → Screened net host (collect validate_public_ip [] ips)
answers-Screened net host ips e h =
    let external : All
        (λ ip. validate_public_ip ip ≡ none → is_internal_range (unmapped ip) ≡ false) ips =
      All-map ips (λ ip a. accepted-external ip a) h in
    let c =
      collect-Collected validate_public_ip (λ a. is_internal_range a ≡ false) ips [] external tt
        tt in
    record {
      external = c.only;
      once = c.once;
      some_addr = c.some_addr;
      all_public = λ addrs r. rw e (c.accepted addrs r);
    }

parsed-Screened :
    (net : Net) (host : String) (o : Option Ip) (ips : Option (List Ip))
    → net.parse_ip (normalize_host net host) ≡ o
    → net.resolve_host_ips (normalize_host net host) ≡ ips
    → All IsAddress (answers net host)
    → Screened net host (resolve_parsed net validate_public_ip (normalize_host net host) o)
unfolding resolve_parsed
parsed-Screened net host (some ip) ips e f h =
    let same : answers net host ≡ ip ∷ [] = rw e refl in
    answers-Screened net host (ip ∷ []) same (subst (All IsAddress) same h)
parsed-Screened net host none none e f h = rw f (refused-Screened net host resolve_host)
parsed-Screened net host none (some ips) e f h =
    let same : answers net host ≡ ips = rw (e, f) refl in
    rw f (answers-Screened net host ips same (subst (All IsAddress) same h))

-- Where the parser of addresses and the resolver give addresses of their 32 or 128 bits: what
-- ResolveAndValidatePublicIPs returns is a list of at least one address, none of them twice and none in
-- an internal range; and then every address behind the host is public and is in the list, so that
-- one that is not public makes it refuse the host.
pub resolve_and_validate_public_ips-Screened :
    (net : Net) (host : String)
    → All IsAddress (answers net host)
    → Screened net host (resolve_and_validate_public_ips net host)
unfolding resolve_and_validate_public_ips resolve_with
resolve_and_validate_public_ips-Screened net host h =
    elim (Bool-cases (is_empty (normalize_host net host))) [
      | inl empty ↦ rw empty (refused-Screened net host resolve_host)
      | inr named ↦
          let name = normalize_host net host in
          rw named
            (parsed-Screened net host (net.parse_ip name) (net.resolve_host_ips name) refl refl h)
    ]
