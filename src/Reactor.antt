-- ===== src/Reactor.antt =====
-- include/reactor.h: `class IOReactor`, the event loop.
--
-- `Cb` is the type of the callbacks and `App` the state that they share outside the reactor. The
-- queue of events is private and no method but `reactorRun` touches it, so the loop passes it along
-- beside the state `Reactor` that callbacks may change through the other methods.
pub mod Tracking
pub mod Dispatch
pub mod Loop
pub mod Single
pub mod Capacity
use async_event_loop.Base.{
  int_eq, ℕ, zero, suc, ℤ, pos, minus_one, failed, is_positive, ◌≡◌, Bool, true, false, Option,
  none, some, List, [], ◌∷◌, ltb, if◌then◌else◌, length,
}
use async_event_loop.Outcome.{Outcome, ok, fault, out_of_fuel, ◌>>=◌}
use async_event_loop.Kernel.{Kernel, Event, Waited, ready, wait_error}
use async_event_loop.Kernel.Flags.{epollin}
use async_event_loop.SocketUtilities.{
  get_epoll_instance, add_epoll_interest, modify_epoll_interest, remove_epoll_interest,
}
use async_event_loop.ThreadSafeMap.{ThreadSafeMap, empty_map, insert, remove, get, get?, get_size}
use async_event_loop.PriorityQueue.{PriorityQueue}

pub data EventPriority : Type 0 where
  listen_sock new_sock helper_sock : EventPriority

-- The value of the enumerator.
abbrev pub rank : EventPriority → ℕ
rank listen_sock = 0
rank new_sock = 1
rank helper_sock = 2

-- `std::pair<EventPriority, struct epoll_event>`
abbrev pub Entry : Type 0
Entry = EventPriority × Event

-- `PQComparator`: `a.first > b.first`
unfoldable pub pq_comparator : Entry → Entry → Bool
pq_comparator a b = ltb (rank b.0) (rank a.0)

abbrev pub EventQueue : Type 1
EventQueue = PriorityQueue Entry pq_comparator

-- The members of the reactor but for the queue, with the state of the system and of the application.
pub record Reactor (k : Kernel) (Cb App : Type 0) : Type 0 where
  pub kernel : k.State
  pub epollfd_ : ℤ
  pub max_events_ : ℕ
  pub event_callback_ : ThreadSafeMap ℤ Cb
  pub event_priority_ : ThreadSafeMap ℤ EventPriority
  pub app : App

module _ (k : Kernel) {Cb App : Type 0} where
  -- The constructor. The buffer `events_` that it allocates is scratch space of `reactorRun`.
  unfoldable pub new_reactor : ℕ → k.State → App → Reactor k Cb App
  new_reactor max_events s app =
      let (epollfd, s') = get_epoll_instance k s in
      record {
        kernel = s';
        epollfd_ = epollfd;
        max_events_ = max_events;
        event_callback_ = empty_map;
        event_priority_ = empty_map;
        app = app;
      }

  -- What `asyncAccept`, `addTrack` and `modifyTrack` do with the result of their call on epoll.
  unfoldable pub finish_track :
      ℤ → EventPriority → Cb → Reactor k Cb App → ℤ × k.State → ℤ × Reactor k Cb App
  finish_track sockfd priority cb r (status, s') =
      if failed status then (minus_one, record r { kernel = s' }) else (
        pos 0,
        record r {
          kernel = s';
          event_callback_ = insert sockfd cb r.event_callback_;
          event_priority_ = insert sockfd priority r.event_priority_;
        },
      )

  unfoldable pub async_accept : ℤ → Cb → Reactor k Cb App → ℤ × Reactor k Cb App
  async_accept sockfd cb r =
      finish_track sockfd listen_sock cb r (add_epoll_interest k r.epollfd_ sockfd epollin r.kernel)

  unfoldable pub add_track : ℤ → ℕ → EventPriority → Cb → Reactor k Cb App → ℤ × Reactor k Cb App
  add_track sockfd mask priority cb r =
      finish_track sockfd priority cb r (add_epoll_interest k r.epollfd_ sockfd mask r.kernel)

  unfoldable pub modify_track : ℤ → ℕ → EventPriority → Cb → Reactor k Cb App → ℤ × Reactor k Cb App
  modify_track sockfd mask priority cb r =
      finish_track sockfd priority cb r (modify_epoll_interest k r.epollfd_ sockfd mask r.kernel)

  unfoldable pub remove_track : ℤ → Reactor k Cb App → ℤ × Reactor k Cb App
  remove_track sockfd r =
      let (status, s') = remove_epoll_interest k r.epollfd_ sockfd r.kernel in
      if failed status then (minus_one, record r { kernel = s' }) else (
        pos 0,
        record r {
          kernel = s';
          event_callback_ = (remove sockfd r.event_callback_).1;
          event_priority_ = (remove sockfd r.event_priority_).1;
        },
      )

  -- The first part of the loop over the filled buffer: the priority of an event is that of its
  -- descriptor, and NEW_SOCK where none is recorded.
  unfoldable pub tag_event : Reactor k Cb App → Event → Entry
  tag_event r ev = ((get ev.fd new_sock r.event_priority_).1, ev)

-- `run` is what a call of a callback does.
module _ (k : Kernel) (pq : EventQueue) {Cb App : Type 0}
    (run : Cb → Event → Reactor k Cb App → Outcome (Reactor k Cb App)) where
  -- The callback of the descriptor is run; where the map has none the result is -1.
  unfoldable pub run_callback : Entry → Reactor k Cb App → Outcome (ℤ × Reactor k Cb App)
  run_callback new_event r = elim (get? new_event.1.fd r.event_callback_) [
    | some cb ↦ do r' ← run cb new_event.1 r; ok (pos 0, r')
    | none ↦ ok (minus_one, r)
  ]

  -- `while (!event_queue_.empty())`, with the number of rounds as fuel.
  unfoldable pub drain : ℕ → pq.Queue → Reactor k Cb App → Outcome (pq.Queue × Reactor k Cb App)
  drain zero q r = elim (pq.top q) [ none ↦ ok (q, r) | some e ↦ fault out_of_fuel ]
  drain (suc fuel) q r = elim (pq.top q) [
    | none ↦ ok (q, r)
    | some e ↦ run_callback e r >>= (λ done. drain fuel (pq.pop q) done.1)
  ]

  -- The loop over the events that `epoll_wait` has filled in.
  unfoldable pub enqueue : Reactor k Cb App → List Event → pq.Queue → pq.Queue
  enqueue r [] q = q
  enqueue r (ev ∷ evs) q = enqueue r evs (pq.push q (tag_event k r ev))

  -- `while (true)`, with the number of rounds as fuel. A round drains the queue, which the fuel of
  -- `drain` always allows, and then ends the loop or waits for events.
  unfoldable pub reactor_run :
      ℕ → pq.Queue → Reactor k Cb App → Outcome (ℤ × pq.Queue × Reactor k Cb App)
  reactor_run zero q r = fault out_of_fuel
  reactor_run (suc fuel) q r = drain (length (pq.items q)) q r >>= λ drained.
      let (q', r') = drained in
      if is_positive (get_size r'.event_callback_)
      then (let (waited, s') = k.epoll_wait r'.epollfd_ r'.max_events_ r'.kernel in
          let r'' : Reactor k Cb App = record r' { kernel = s' } in
          elim waited [
            | wait_error ↦ ok (minus_one, q', r'')
            | ready evs ↦ reactor_run fuel (enqueue r'' evs q') r''
          ])
      else ok (pos 0, q', r')
