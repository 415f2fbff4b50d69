-- ===== src/Tests/Barrier.antt =====
-- A run of the program with the barrier, for one child.
use osvcp.Barrier
use osvcp.Barrier.Children.{State, start}
use osvcp.Barrier.Passage

-- The barrier, from the call to the last post.
abbrev arriving : Barrier.State
arriving = record (Barrier.barrier_init 1) { mutex = 0; arriving = 1 }

abbrev counted : Barrier.State
counted = record arriving { arriving = 0; arrived = 1; counted = 1 }

abbrev last : Barrier.State
last = record counted { counted = 0; last = 1 }

abbrev posting : Barrier.State
posting = record last { last = 0; mutex = 1; posting = 1; posts = 1 }

abbrev posted : Barrier.State
posted = record posting { posts = 0; barrier = 1 }

abbrev waiting : Barrier.State
waiting = record posted { posting = 0; waiting = 1 }

abbrev passed : Barrier.State
passed = record waiting { waiting = 0; barrier = 0; passed = 1 }

abbrev printed : State
printed = record (start 1) { to_create = 0; calling = 1 }

-- The child is in the barrier.
abbrev in_barrier : Barrier.State → State
in_barrier b = record (start 1) { to_create = 0; b = b }

abbrev done : State
done = record (in_barrier passed) { finished = 1 }
