-- ===== src/Orchestrator/Ports/Runs.antt =====
-- internal/orchestrator/ports.go: the allocator after any calls.
use pinchtab.Prelude.{
  ℕ, ◌≤◌, ◌≡◌, refl, Bool, true, false, ◌||◌, List, [], ◌∷◌, ltb, ◌==◌, if◌then◌else◌, Bool-cases,
  Option-cases, inl, inr, arith,
}
use pinchtab.Prelude.Int.{ℤ, pos, pos_part, ltb_ℤ}
use pinchtab.Orchestrator.Ports.{
  PortAllocator, allocator, new_port_allocator, member, without, allocate_port, reserve_port,
  release_port,
}
use pinchtab.Orchestrator.Ports.Scan.{Valid, Allocated, allocate_port-Allocated}

pub data Call : Type 0 where
  allocates : (ℕ → Bool) → Call
  reserves : ℕ → Call
  releases : ℕ → Call

unfoldable pub call : Call → PortAllocator → PortAllocator
call (allocates available) pa = (allocate_port available pa).0
call (reserves port) pa = (reserve_port port pa).0
call (releases port) pa = release_port port pa

unfoldable pub run : List Call → PortAllocator → PortAllocator
unfolding call
run [] pa = pa
run (c ∷ cs) pa = run cs (call c pa)

-- No port stands twice.
abbrev pub Once : List ℕ → Type 0
Once [] = Unit
Once (port ∷ ports) = (member port ports ≡ false) × Once ports

-- The ports that are allocated are in the range, each of them once.
pub record Sound (pa : PortAllocator) : Type 0 where
  pub valid : Valid pa
  pub once : Once pa.allocated
  pub within : (port : ℕ) → member port pa.allocated ≡ true → (pa.start ≤ port) × (port ≤ pa.end)

member-without :
    (p q : ℕ) (ports : List ℕ)
    → member p (without q ports) ≡ (if q == p then false else member p ports)
member-without p q [] = ground arith
member-without p q (r ∷ ports) = ground (arith, member-without p q ports)

without-Once : (q : ℕ) (ports : List ℕ) → Once ports → Once (without q ports)
without-Once q [] o = tt
without-Once q (p ∷ ports) o =
    ground (arith, o.0, o.1, without-Once q ports, member-without p q ports)

empty-Sound : (start end : ℕ) → start ≤ end → Sound (allocator start end)
empty-Sound start end le = record {
  valid = record { range = le; low = omega arith; high = omega (arith, le) };
  once = tt;
  within = λ port m. absurd (ground (arith, m));
}

new-Sound : (start end : ℤ) → Sound (new_port_allocator start end)
unfolding new_port_allocator
new-Sound start end =
    elim (Bool-cases (ltb_ℤ start (pos 1) || ltb_ℤ end (pos 1) || ltb_ℤ end start)) [
      | inl invalid ↦ rw invalid (empty-Sound 9868 9968 (omega arith))
      | inr fine ↦ rw fine (empty-Sound (pos_part start) (pos_part end) (ground (arith, fine)))
    ]

-- one more port, in the range and not allocated before
add-Sound :
    (port : ℕ) (pa pa' : PortAllocator)
    → Sound pa
    → Valid pa'
    → (pa'.start ≡ pa.start) × (pa'.end ≡ pa.end)
    → pa'.allocated ≡ port ∷ pa.allocated
    → (pa.start ≤ port) × (port ≤ pa.end)
    → member port pa.allocated ≡ false
    → Sound pa'
add-Sound port pa pa' s v same e within fresh = record {
  valid = v;
  once = rw e (fresh, s.once);
  within = λ p m. ground (arith, rw e at m, s.within p, within, same);
}

reserve_port-Sound : (port : ℕ) (pa : PortAllocator) → Sound pa → Sound (reserve_port port pa).0
unfolding reserve_port
reserve_port-Sound port pa s = elim (Bool-cases (ltb port pa.start || ltb pa.end port)) [
  | inl outside ↦ rw outside s
  | inr inside ↦ elim (Bool-cases (member port pa.allocated)) [
    | inl taken ↦ rw (inside, taken) s
    | inr fresh ↦
        rw (inside, fresh)
          (add-Sound port pa (record pa { allocated = port ∷ pa.allocated }) s
            (record { range = s.valid.range; low = s.valid.low; high = s.valid.high }) (refl, refl)
            refl (ground (arith, inside)) fresh)
  ]
]

call-Sound : (c : Call) (pa : PortAllocator) → Sound pa → Sound (call c pa)
unfolding call release_port
call-Sound (allocates available) pa s =
    let a = allocate_port-Allocated available pa s.valid in
    elim (Option-cases (allocate_port available pa).1) [
      | inl failed ↦
          let same = (a.none_free failed).0 in
          record {
            valid = a.valid;
            once = rw same s.once;
            within = λ p m. ground (arith, rw same at m, s.within p, a.same_range);
          }
      | inr (port, given) ↦
          let g = a.given port given in
          add-Sound port pa (allocate_port available pa).0 s a.valid a.same_range g.1.1.1
            (g.0, g.1.0) (ground (arith, g.1.1.0))
    ]
call-Sound (reserves port) pa s = reserve_port-Sound port pa s
call-Sound (releases port) pa s = record {
  valid = record {
    range = s.valid.range;
    low = ground (arith, s.valid.low);
    high = ground (arith, s.valid.high);
  };
  once = without-Once port pa.allocated s.once;
  within = λ p m. s.within p (ground (arith, m, member-without p port pa.allocated));
}

run-Sound : (cs : List Call) (pa : PortAllocator) → Sound pa → Sound (run cs pa)
unfolding run
run-Sound [] pa s = s
run-Sound (c ∷ cs) pa s = run-Sound cs (call c pa) (call-Sound c pa s)

-- After any calls from NewPortAllocator on, the allocated ports are in the range and each is
-- allocated once; and AllocatePort then gives a port of the range that is not allocated and that the
-- system has free, and only allocates it, or fails where the range has no such port, after one round.
pub run-allocate_port :
    (start end : ℤ) (cs : List Call) (available : ℕ → Bool)
    → let pa = run cs (new_port_allocator start end) in
      Sound pa × Allocated available pa (allocate_port available pa)
run-allocate_port start end cs available =
    let s = run-Sound cs (new_port_allocator start end) (new-Sound start end) in
    (s, allocate_port-Allocated available (run cs (new_port_allocator start end)) s.valid)
