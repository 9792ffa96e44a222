-- ===== src/Io/Pump.antt =====
-- `EpollMessagePump` of rust_io/epoll_pump.rs. A watcher is named by a number, and the answers of the
-- system (epoll_ctl, epoll_wait) and of `Weak::upgrade` are arguments.
pub mod Events
pub mod Stale
pub mod Wait
pub mod Tests
use rust_base.Base.{
  ℕ, ◌+◌, ◌-◌, ◌/◌, ◌==◌, Bool, true, false, ◌&&◌, ◌||◌, Option, none, some, List, [], ◌∷◌, ◌++◌,
  if◌then◌else◌, leb, min, update,
}

pub data WatchMode : Type 0 where
  read write read_write : WatchMode

pub record WatchEntry : Type 0 where
  pub watcher : ℕ
  pub persistent : Bool
  pub mode : WatchMode
  pub generation : ℕ

-- `wakes` is the counter behind `wake_fd`.
pub record EpollMessagePump : Type 0 where
  pub wake_fd : ℕ
  pub wakes : ℕ
  pub watches : ℕ → Option WatchEntry
  pub generation_counter : ℕ
  pub quit : Bool

-- What epoll_ctl with EPOLL_CTL_ADD answers.
pub data Added : Type 0 where
  ok exists failed : Added

-- The flags of an event.
pub record Flags : Type 0 where
  pub epollin : Bool
  pub epollout : Bool
  pub epollerr : Bool
  pub epollhup : Bool

-- A call of a method of `FdWatcher`, with the watcher and the descriptor.
pub data Callback : Type 0 where
  can_read can_write : ℕ → ℕ → Callback

unfoldable pub new : ℕ → EpollMessagePump
new wake_fd = record {
  wake_fd = wake_fd;
  wakes = 0;
  watches = λ fd. none;
  generation_counter = 0;
  quit = false;
}

unfoldable pub schedule_work : EpollMessagePump → EpollMessagePump
schedule_work p = record p { wakes = p.wakes + 1 }

unfoldable pub set_quit : EpollMessagePump → EpollMessagePump
set_quit p = record p { quit = true }

-- Whether epoll has the descriptor, by the answers to EPOLL_CTL_ADD and to EPOLL_CTL_MOD after it.
abbrev pub is_registered : Added → Bool → Bool
is_registered ok modified = true
is_registered exists modified = modified
is_registered failed modified = false

unfoldable pub register_fd :
    ℕ → Bool → WatchMode → ℕ → Added → Bool → EpollMessagePump → Option ℕ × EpollMessagePump
register_fd fd persistent mode watcher added modified p =
    let entry : WatchEntry = record {
      watcher = watcher;
      persistent = persistent;
      mode = mode;
      generation = p.generation_counter;
    } in
    if is_registered added modified
    then (
      some p.generation_counter,
      record p {
        generation_counter = p.generation_counter + 1;
        watches = update p.watches fd (some entry);
      },
    )
    else (none, record p { generation_counter = p.generation_counter + 1 })

abbrev pub remove : ℕ → EpollMessagePump → EpollMessagePump
remove fd p = record p { watches = update p.watches fd none }

abbrev pub has_generation : ℕ → Option WatchEntry → Bool
has_generation g none = false
has_generation g (some e) = e.generation == g

unfoldable pub unregister_fd : ℕ → ℕ → EpollMessagePump → Bool × EpollMessagePump
unregister_fd fd generation p =
    if has_generation generation (p.watches fd) then (true, remove fd p) else (false, p)

abbrev pub reads : WatchMode → Bool
reads read = true
reads write = false
reads read_write = true

abbrev pub writes : WatchMode → Bool
writes read = false
writes write = true
writes read_write = true

abbrev pub errored : Flags → Bool
errored f = f.epollerr || f.epollhup

-- The callbacks of one event, if the watcher is alive.
unfoldable pub callbacks : ℕ → Flags → Bool → WatchEntry → List Callback
callbacks fd f alive e =
    if alive
    then (if (f.epollin || errored f) && reads e.mode then can_read e.watcher fd ∷ [] else [])
      ++ (if (f.epollout || errored f) && writes e.mode then can_write e.watcher fd ∷ [] else [])
    else []

unfoldable pub watched :
    ℕ → Flags → (ℕ → Bool) → Option WatchEntry → EpollMessagePump → List Callback × EpollMessagePump
unfolding callbacks
watched fd f alive none p = ([], p)
watched fd f alive (some e) p =
    (callbacks fd f (alive e.watcher) e, if e.persistent then p else remove fd p)

-- One turn of the loop over the events, up to the callbacks.
unfoldable pub dispatch :
    ℕ → Flags → (ℕ → Bool) → EpollMessagePump → List Callback × EpollMessagePump
unfolding watched
dispatch fd f alive p =
    if fd == p.wake_fd then ([], record p { wakes = 0 }) else watched fd f alive (p.watches fd) p

-- `timeout_ms` of `run`, where `none` is -1. An Instant counts nanoseconds.
abbrev pub i32_max : ℕ
i32_max = 2147483647

unfoldable pub timeout_ms : ℕ → Option ℕ → Option ℕ
timeout_ms now none = none
timeout_ms now (some deadline) =
    some (if leb deadline now then 0 else min ((deadline - now) / 1000000) i32_max)
