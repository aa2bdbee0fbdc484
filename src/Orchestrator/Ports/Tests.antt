-- ===== src/Orchestrator/Ports/Tests.antt =====
-- The ports at small concrete inputs.
use pinchtab.Prelude.{◌≡◌, refl, not, none, some, [], ◌∷◌, List, true, ◌==◌}
use pinchtab.Prelude.Int.{pos}
use pinchtab.Prelude.Text.{trim_space, trim_right, in_ranges, is_blank, digits, atoi}
use pinchtab.Orchestrator.Ports.{
  new_port_allocator, scan, allocate_port, reserve_port, parse_port_number,
}
use pinchtab.Orchestrator.Ports.Scan.{Allocated}
use pinchtab.Orchestrator.Ports.Runs.{
  Call, allocates, reserves, call, run, Sound, run-allocate_port,
}

-- 5 is reserved, 6 is not free for the system, 7 is given out
abbrev some_calls : List Call
some_calls = reserves 5 ∷ allocates (λ p. not (p == 6)) ∷ []

last_port :
    (allocate_port (λ p. true) (run some_calls (new_port_allocator (pos 5) (pos 7)))).1 ≡ some 6
unfolding run call allocate_port reserve_port scan new_port_allocator
last_port = refl

leading_zero : parse_port_number " 080" ≡ none
unfolding parse_port_number trim_space trim_right in_ranges is_blank digits atoi
leading_zero = refl

port_number : parse_port_number " 9868 " ≡ some 9868
unfolding parse_port_number trim_space trim_right in_ranges is_blank digits atoi
port_number = refl

run-allocate_port_example :
    let pa = run some_calls (new_port_allocator (pos 5) (pos 7)) in
    Sound pa × Allocated (λ p. true) pa (allocate_port (λ p. true) pa)
run-allocate_port_example = run-allocate_port (pos 5) (pos 7) some_calls (λ p. true)
