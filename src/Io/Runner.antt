-- ===== src/Io/Runner.antt =====
-- `IoTaskRunner` of rust_io/io_task_runner.rs, without a monitor, and `run` of rust_io/epoll_pump.rs,
-- which its IO thread is in: a shared access at a time. A callback is a number, an Instant counts
-- nanoseconds. What a task does is other events: it may post, and its own end is not one.
pub mod Order
pub mod Signals
pub mod Awake
pub mod Due
pub mod Tests
use rust_base.Base.{
  ℕ, ◌+◌, ◌-◌, ◌*◌, ◌==◌, ◌≡◌, ◌⊎◌, Bool, true, false, Option, none, some, List, [], ◌∷◌, ◌++◌,
  if◌then◌else◌, leb, compare, Ord, Ordering, arith, at_most,
}
use rust_base.Base.Heap
use rust_base.Pool.Schedule.{extract}
use rust_base.Io.Pump.{
  EpollMessagePump, Flags, Callback, new, schedule_work, set_quit, dispatch, timeout_ms,
}

pub record DelayedTask : Type 0 where
  pub deadline : ℕ
  pub callback : ℕ

-- A task with an earlier deadline is greater.
abbrev pub cmp : DelayedTask → DelayedTask → Ordering
cmp a b = compare b.deadline a.deadline

pub cmp_total : (a b : DelayedTask) → (at_most (cmp a b) ≡ true) ⊎ (at_most (cmp b a) ≡ true)
cmp_total a b = ground arith

pub cmp_trans :
    (a b c : DelayedTask)
    → at_most (cmp a b) ≡ true
    → at_most (cmp b c) ≡ true
    → at_most (cmp a c) ≡ true
cmp_trans a b c h k = ground arith

instance abbrev pub delayed_ord : Ord DelayedTask
delayed_ord = record { cmp = cmp; total = cmp_total; trans = cmp_trans }

-- A call of a post that has read `shutdown` and goes on.
pub data Post : Type 0 where
  immediate : ℕ → Post
  delayed : ℕ → ℕ → Post  -- the callback and the delay

-- Where the IO thread stands. `testing` has the deadline that `do_work` gave, `waiting` the instant at
-- which epoll_wait gives up, and `dispatching` the events and callbacks that are left.
pub data Thread : Type 0 where
  draining draining_delayed sizing : Thread
  testing waiting : Option ℕ → Thread
  dispatching : List (ℕ × Flags) → List Callback → Thread
  exited : Thread

-- Where the thread in `shutdown` stands.
pub data Shutdown : Type 0 where
  not_called stored quit_set joining joined : Shutdown

-- The last fields are logs: the tasks pushed and run, and the delayed ones run, with the instant at
-- which they were found due.
pub record IoTaskRunner : Type 0 where
  pub pump : EpollMessagePump
  pub tasks : List ℕ
  pub delayed_tasks : List DelayedTask
  pub shutdown : Bool
  pub thread : Thread
  pub stopping : Shutdown
  pub clock : ℕ
  pub posts : List Post
  pub unsignalled : ℕ  -- posts that have pushed, before `schedule_work`
  pub pushed : List ℕ
  pub executed : List ℕ
  pub executed_delayed : List (DelayedTask × ℕ)
  pub called : List Callback

unfoldable pub new_runner : ℕ → IoTaskRunner
unfolding new
new_runner wake_fd = record {
  pump = new wake_fd;
  tasks = [];
  delayed_tasks = [];
  shutdown = false;
  thread = draining;
  stopping = not_called;
  clock = 0;
  posts = [];
  unsignalled = 0;
  pushed = [];
  executed = [];
  executed_delayed = [];
  called = [];
}

-- `post_task` and `post_delayed_task` up to the test of `shutdown`, and whether they go on.
unfoldable pub post : Post → IoTaskRunner → Bool × IoTaskRunner
post p r = if r.shutdown then (false, r) else (true, record r { posts = p ∷ r.posts })

unfoldable pub push : Post → IoTaskRunner → IoTaskRunner
unfolding Heap.push
push (immediate c) r = record r {
  tasks = r.tasks ++ c ∷ [];
  pushed = r.pushed ++ c ∷ [];
  unsignalled = r.unsignalled + 1;
}
push (delayed c delay) r = record r {
  delayed_tasks = Heap.push (record { deadline = r.clock + delay; callback = c }) r.delayed_tasks;
  unsignalled = r.unsignalled + 1;
}

unfoldable pub pushes : IoTaskRunner → Option (Post × List Post) → IoTaskRunner
unfolding push
pushes r none = r
pushes r (some (p, rest)) = push p (record r { posts = rest })

unfoldable pub signal : IoTaskRunner → IoTaskRunner
unfolding schedule_work
signal r =
    if r.unsignalled == 0
    then r
    else record r { pump = schedule_work r.pump; unsignalled = r.unsignalled - 1 }

abbrev pub is_exited : Thread → Bool
is_exited exited = true
is_exited _ = false

-- `shutdown`; the join ends when the thread has.
unfoldable pub shutdown_step : Shutdown → IoTaskRunner → IoTaskRunner
unfolding set_quit schedule_work
shutdown_step not_called r = record r { shutdown = true; stopping = stored }
shutdown_step stored r = record r { pump = set_quit r.pump; stopping = quit_set }
shutdown_step quit_set r = record r { pump = schedule_work r.pump; stopping = joining }
shutdown_step joining r = if is_exited r.thread then record r { stopping = joined } else r
shutdown_step joined r = r

-- One turn of the loops of `do_work`.
unfoldable pub drain : List ℕ → IoTaskRunner → IoTaskRunner
drain [] r = record r { thread = draining_delayed }
drain (c ∷ tasks) r = record r { tasks = tasks; executed = r.executed ++ c ∷ [] }

unfoldable pub pop_due : IoTaskRunner → Option (DelayedTask × List DelayedTask) → IoTaskRunner
pop_due r none = record r { thread = sizing }
pop_due r (some (d, rest)) = record r {
  delayed_tasks = rest;
  executed_delayed = (d, r.clock) ∷ r.executed_delayed;
}

unfoldable pub drain_delayed : IoTaskRunner → Option DelayedTask → IoTaskRunner
unfolding pop_due Heap.pop
drain_delayed r none = record r { thread = sizing }
drain_delayed r (some d) =
    if leb d.deadline r.clock
    then pop_due r (Heap.pop r.delayed_tasks)
    else record r { thread = sizing }

abbrev pub deadline_of : Option DelayedTask → Option ℕ
deadline_of none = none
deadline_of (some d) = some d.deadline

-- The instant at which a wait of some milliseconds ends.
abbrev pub until : ℕ → Option ℕ → Option ℕ
until now none = none
until now (some ms) = some (now + ms * 1000000)

-- What epoll_wait gives.
pub data Wait : Type 0 where
  ready : List (ℕ × Flags) → Wait  -- none when the time is up
  interrupted failed : Wait

unfoldable pub waited : Wait → IoTaskRunner → IoTaskRunner
waited (ready events) r = record r { thread = dispatching events [] }
waited interrupted r = record r { thread = draining }
waited failed r = record r { thread = exited }

abbrev pub dispatched :
    List (ℕ × Flags) → IoTaskRunner → List Callback × EpollMessagePump → IoTaskRunner
dispatched events r (calls, p) = record r { pump = p; thread = dispatching events calls }

unfoldable pub dispatch_step :
    (ℕ → Bool) → List (ℕ × Flags) → List Callback → IoTaskRunner → IoTaskRunner
unfolding dispatch
dispatch_step alive events (c ∷ calls) r = record r {
  thread = dispatching events calls;
  called = c ∷ r.called;
}
dispatch_step alive [] [] r = record r { thread = draining }
dispatch_step alive ((fd, f) ∷ events) [] r = dispatched events r (dispatch fd f alive r.pump)

-- A step of the IO thread, with the answers that it gets if it asks for them.
unfoldable pub thread_step : Wait → (ℕ → Bool) → Thread → IoTaskRunner → IoTaskRunner
unfolding drain drain_delayed timeout_ms waited dispatch_step Heap.peek
thread_step w alive draining r = drain r.tasks r
thread_step w alive draining_delayed r = drain_delayed r (Heap.peek r.delayed_tasks)
thread_step w alive sizing r = record r {
  thread = testing (deadline_of (Heap.peek r.delayed_tasks));
}
thread_step w alive (testing d) r = record r {
  thread = if r.pump.quit then exited else waiting (until r.clock (timeout_ms r.clock d));
}
thread_step w alive (waiting u) r = waited w r
thread_step w alive (dispatching events calls) r = dispatch_step alive events calls r
thread_step w alive exited r = r

pub data Event : Type 0 where
  advance : ℕ → Event  -- time passes
  posts : Post → Event
  pushing : ℕ → Event
  signals stops : Event
  io : Wait → (ℕ → Bool) → Event

unfoldable pub step : Event → IoTaskRunner → IoTaskRunner
unfolding post pushes signal shutdown_step thread_step extract
step (advance d) r = record r { clock = r.clock + d }
step (posts p) r = (post p r).1
step (pushing n) r = pushes r (extract n r.posts)
step signals r = signal r
step stops r = shutdown_step r.stopping r
step (io w alive) r = thread_step w alive r.thread r

unfoldable pub run : List Event → IoTaskRunner → IoTaskRunner
unfolding step
run [] r = r
run (e ∷ es) r = run es (step e r)
