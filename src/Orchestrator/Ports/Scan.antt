-- ===== src/Orchestrator/Ports/Scan.antt =====
-- internal/orchestrator/ports.go: the loop of AllocatePort goes once around the range.
use pinchtab.Prelude.{
  ℕ, zero, suc, ◌+◌, ◌-◌, ◌≤◌, ◌<◌, ◌≡◌, ◌⊎◌, inl, inr, subst, refl, Bool, true, false, Option,
  none, some, ◌∷◌, leb, if◌then◌else◌, Bool-cases, arith,
}
use pinchtab.Orchestrator.Ports.{PortAllocator, member, candidate, advance, scan, allocate_port}

-- The next candidate is in the range, or one behind it.
pub record Valid (pa : PortAllocator) : Type 0 where
  pub range : pa.start ≤ pa.end
  pub low : pa.start ≤ pa.next_candidate
  pub high : pa.next_candidate ≤ suc pa.end

-- how many attempts after the candidate a port's turn comes
abbrev turn : ℕ → PortAllocator → ℕ
turn port pa =
    if leb (candidate pa) port
    then port - candidate pa
    else port + suc pa.end - (candidate pa + pa.start)

advance-Valid : (pa : PortAllocator) → Valid pa → Valid (advance pa)
advance-Valid pa v = record {
  range = v.range;
  low = ground (arith, v.low, v.range, v.high);
  high = ground (arith, v.low, v.range, v.high);
}

-- whether a port can be given out
abbrev pub is_free : (ℕ → Bool) → PortAllocator → ℕ → Bool
is_free available pa port = if member port pa.allocated then false else available port

-- How a scan of some attempts ends.
record Scanned (available : ℕ → Bool) (n : ℕ) (pa : PortAllocator) (o : PortAllocator × Option ℕ)
    : Type 0 where
  pub valid : Valid o.0
  pub same_range : (o.0.start ≡ pa.start) × (o.0.end ≡ pa.end)
  pub given :
      (port : ℕ)
      → o.1 ≡ some port
      → (pa.start ≤ port)
        × ((port ≤ pa.end)
            × ((is_free available pa port ≡ true) × (o.0.allocated ≡ port ∷ pa.allocated)))
  pub none_free :
      o.1 ≡ none
      → (o.0.allocated ≡ pa.allocated)
        × ((port : ℕ)
            → pa.start ≤ port
            → port ≤ pa.end
            → turn port pa < n
            → is_free available pa port ≡ false)

candidate_in_range :
    (pa : PortAllocator) → Valid pa → (pa.start ≤ candidate pa) × (candidate pa ≤ pa.end)
candidate_in_range pa v =
    (ground (arith, v.low, v.range, v.high), ground (arith, v.low, v.range, v.high))

-- the turn of any port but the candidate comes nearer
turn-advance :
    (port n : ℕ) (pa : PortAllocator)
    → Valid pa
    → pa.start ≤ port
    → port ≤ pa.end
    → turn port pa < suc n
    → (candidate pa ≡ port) ⊎ (turn port (advance pa) < n)
turn-advance port n pa v low high t = ground (arith, v.low, v.range, v.high, low, high, t)

module _ (available : ℕ → Bool) where
  -- an attempt whose candidate cannot be given out
  miss-Scanned :
      (n : ℕ) (pa : PortAllocator) (o : PortAllocator × Option ℕ)
      → Valid pa
      → is_free available pa (candidate pa) ≡ false
      → Scanned available n (advance pa) o
      → Scanned available (suc n) pa o
  miss-Scanned n pa o v blocked r = record {
    valid = r.valid;
    same_range = r.same_range;
    given = r.given;
    none_free = λ e. (
      (r.none_free e).0,
      λ port low high t. elim (turn-advance port n pa v low high t) [
        | inl here ↦ subst (λ p. is_free available pa p ≡ false) here blocked
        | inr later ↦ (r.none_free e).1 port low high later
      ],
    );
  }

  hit-Scanned :
      (n : ℕ) (pa : PortAllocator)
      → Valid pa
      → is_free available pa (candidate pa) ≡ true
      → Scanned available n pa
          (record (advance pa) { allocated = candidate pa ∷ pa.allocated }, some (candidate pa))
  hit-Scanned n pa v free =
      let after = advance-Valid pa v in
      let within = candidate_in_range pa v in
      record {
        valid = record { range = after.range; low = after.low; high = after.high };
        same_range = (refl, refl);
        given = λ port e.
            let same : candidate pa ≡ port = ground (arith, e) in
            subst
              (λ p.
                (pa.start ≤ p)
                × ((p ≤ pa.end)
                    × ((is_free available pa p ≡ true)
                        × (candidate pa ∷ pa.allocated ≡ p ∷ pa.allocated))))
              same (within.0, (within.1, (free, refl)));
        none_free = λ e. absurd (ground (arith, e));
      }

  scan-Scanned :
      (n : ℕ) (pa : PortAllocator) → Valid pa → Scanned available n pa (scan available n pa)
  unfolding scan
  scan-Scanned zero pa v = record {
    valid = v;
    same_range = (refl, refl);
    given = λ port e. absurd (ground (arith, e));
    none_free = λ e. (refl, λ port low high t. absurd (omega (arith, t)));
  }
  scan-Scanned (suc n) pa v =
      let rest = scan-Scanned n (advance pa) (advance-Valid pa v) in
      elim (Bool-cases (member (candidate pa) pa.allocated)) [
        | inl taken ↦
            rw taken (miss-Scanned n pa (scan available n (advance pa)) v (rw taken refl) rest)
        | inr loose ↦ elim (Bool-cases (available (candidate pa))) [
          | inl free ↦ rw (loose, free) (hit-Scanned (suc n) pa v (rw (loose, free) refl))
          | inr busy ↦
              rw (loose, busy)
                (miss-Scanned n pa (scan available n (advance pa)) v (rw (loose, busy) refl) rest)
        ]
      ]

-- What AllocatePort answers.
pub record Allocated (available : ℕ → Bool) (pa : PortAllocator) (o : PortAllocator × Option ℕ)
    : Type 0 where
  pub valid : Valid o.0
  pub same_range : (o.0.start ≡ pa.start) × (o.0.end ≡ pa.end)
  pub given :
      (port : ℕ)
      → o.1 ≡ some port
      → (pa.start ≤ port)
        × ((port ≤ pa.end)
            × ((is_free available pa port ≡ true) × (o.0.allocated ≡ port ∷ pa.allocated)))
  pub none_free :
      o.1 ≡ none
      → (o.0.allocated ≡ pa.allocated)
        × ((port : ℕ) → pa.start ≤ port → port ≤ pa.end → is_free available pa port ≡ false)

-- every port's turn comes in one round
turn_in_round :
    (port : ℕ) (pa : PortAllocator)
    → Valid pa
    → pa.start ≤ port
    → port ≤ pa.end
    → turn port pa < suc pa.end - pa.start
turn_in_round port pa v low high = ground (arith, v.low, v.range, v.high, low, high)

pub allocate_port-Allocated :
    (available : ℕ → Bool) (pa : PortAllocator)
    → Valid pa
    → Allocated available pa (allocate_port available pa)
unfolding allocate_port
allocate_port-Allocated available pa v =
    let s = scan-Scanned available (suc pa.end - pa.start) pa v in
    record {
      valid = s.valid;
      same_range = s.same_range;
      given = s.given;
      none_free = λ e. (
        (s.none_free e).0,
        λ port low high. (s.none_free e).1 port low high (turn_in_round port pa v low high),
      );
    }
