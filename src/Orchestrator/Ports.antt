-- ===== src/Orchestrator/Ports.antt =====
-- internal/orchestrator/ports.go: the ports that instances are given. Whether the system has a port
-- free is an argument of AllocatePort, which asks for each port at most once.
pub mod Scan
pub mod Runs
mod Tests
use Prim.Native.Char.{code}
use Prim.Native.String.{String}
use pinchtab.Prelude.{
  ℕ, zero, suc, ◌+◌, ◌-◌, ◌*◌, Bool, true, false, ◌&&◌, ◌||◌, not, Option, none, some, List, [],
  ◌∷◌, ltb, leb, ◌==◌, if◌then◌else◌,
}
use pinchtab.Prelude.Int.{ℤ, pos, pos_part, ltb_ℤ}
use pinchtab.Prelude.Text.{trim_space, atoi}

pub record PortAllocator : Type 0 where
  pub start : ℕ
  pub end : ℕ
  -- the keys of the map
  pub allocated : List ℕ
  pub next_candidate : ℕ

abbrev pub allocator : ℕ → ℕ → PortAllocator
allocator start end = record { start = start; end = end; allocated = []; next_candidate = start }

-- NewPortAllocator
unfoldable pub new_port_allocator : ℤ → ℤ → PortAllocator
new_port_allocator start end =
    if ltb_ℤ start (pos 1) || ltb_ℤ end (pos 1) || ltb_ℤ end start
    then allocator 9868 9968
    else allocator (pos_part start) (pos_part end)

abbrev pub member : ℕ → List ℕ → Bool
member port [] = false
member port (p ∷ ports) = if port == p then true else member port ports

abbrev pub without : ℕ → List ℕ → List ℕ
without port [] = []
without port (p ∷ ports) = let rest = without port ports in if port == p then rest else p ∷ rest

-- the candidate of one attempt
abbrev pub candidate : PortAllocator → ℕ
candidate pa = if ltb pa.end pa.next_candidate then pa.start else pa.next_candidate

abbrev pub advance : PortAllocator → PortAllocator
advance pa = record pa { next_candidate = suc (candidate pa) }

-- the loop of AllocatePort, by the attempts that are left
unfoldable pub scan : (ℕ → Bool) → ℕ → PortAllocator → PortAllocator × Option ℕ
scan available zero pa = (pa, none)
scan available (suc n) pa =
    let rest = scan available n (advance pa) in
    if member (candidate pa) pa.allocated
    then rest
    else if available (candidate pa)
    then (record (advance pa) { allocated = candidate pa ∷ pa.allocated }, some (candidate pa))
    else rest

-- AllocatePort
unfoldable pub allocate_port : (ℕ → Bool) → PortAllocator → PortAllocator × Option ℕ
unfolding scan
allocate_port available pa = scan available (suc pa.end - pa.start) pa

-- ReservePort, and whether it succeeds; a port out of the range is none of the allocator's
unfoldable pub reserve_port : ℕ → PortAllocator → PortAllocator × Bool
reserve_port port pa =
    if ltb port pa.start || ltb pa.end port
    then (pa, true)
    else if member port pa.allocated
    then (pa, false)
    else (record pa { allocated = port ∷ pa.allocated }, true)

-- ReleasePort
unfoldable pub release_port : ℕ → PortAllocator → PortAllocator
release_port port pa = record pa {
  allocated = without port pa.allocated;
  next_candidate = if leb pa.start port && leb port pa.end then port else pa.next_candidate;
}

-- IsAllocated
unfoldable pub is_allocated : ℕ → PortAllocator → Bool
is_allocated port pa = member port pa.allocated

-- AllocatedPorts
unfoldable pub allocated_ports : PortAllocator → List ℕ
allocated_ports pa = pa.allocated

-- a number of more than one digit that starts with a zero
abbrev leading_zero : String → Bool
leading_zero String.[] = false
leading_zero (String.◌∷◌ c String.[]) = false
leading_zero (String.◌∷◌ c s) = code c == 48

abbrev in_port_range : Option ℕ → Option ℕ
in_port_range none = none
in_port_range (some n) = if leb 1 n && leb n 65535 then some n else none

-- parsePortNumber; the numbers that it refuses are not told apart
unfoldable pub parse_port_number : String → Option ℕ
unfolding trim_space atoi
parse_port_number port =
    let value = trim_space port in if leading_zero value then none else in_port_range (atoi value)
