-- ===== src/Scheduler/Queue/Less.antt =====
-- The order of one agent's tasks.
use pinchtab.Prelude.{arith}
use pinchtab.Heap.Order.{IsWeakOrder}
use pinchtab.Scheduler.Queue.{less}

-- `Less` is a strict weak order, as container/heap requires.
pub less-IsWeakOrder : IsWeakOrder less
unfolding less
less-IsWeakOrder = record { asym = λ x y p. ground arith; trans = λ x y z p q. ground arith }
