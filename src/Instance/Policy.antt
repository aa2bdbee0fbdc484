-- ===== src/Instance/Policy.antt =====
-- internal/instance/allocation: which of the candidates takes the next request. The draw of a random
-- number below a bound is an argument, and the counter of a round robin, a uint64, part of the policy.
pub mod Fair
use pinchtab.Prelude.{
  ℕ, suc, ◌+◌, ◌%◌, String, Option, none, some, List, [], ◌∷◌, length, get_elem?, str_eq,
  if◌then◌else◌,
}
use pinchtab.Instance.Repository.{Instance}

pub data Policy : Type 0 where
  fcfs : Policy
  round_robin : ℕ → Policy
  random : Policy

-- Name
abbrev pub name : Policy → String
name fcfs = "fcfs"
name (round_robin counter) = "round_robin"
name random = "random"

-- New, by a policy's name
unfoldable pub new_policy : String → Option Policy
new_policy name =
    if str_eq name "fcfs"
    then some fcfs
    else if str_eq name ""
    then some fcfs
    else if str_eq name "round_robin"
    then some (round_robin 0)
    else if str_eq name "random"
    then some random
    else none

-- the index of a round robin: `counter.Add(1) - 1`, and the counter after it
unfoldable pub next_index : ℕ → ℕ × ℕ
next_index counter =
    let added = (counter + 1) % 18446744073709551616 in
    (added, (added + 18446744073709551615) % 18446744073709551616)

-- Select; none stands for ErrNoCandidates
unfoldable pub select : (ℕ → ℕ) → Policy → List Instance → Policy × Option Instance
unfolding next_index
select draw p [] = (p, none)
select draw fcfs (inst ∷ insts) = (fcfs, some inst)
select draw (round_robin counter) insts =
    let (counter', i) = next_index counter in
    (round_robin counter', get_elem? insts (i % length insts))
select draw random insts = (random, get_elem? insts (draw (length insts)))
