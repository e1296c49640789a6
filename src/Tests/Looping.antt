-- ===== src/Tests/Looping.antt =====
-- The theorems on the event loop at concrete inputs: callbacks are numbers, which they log.
use async_event_loop.Base.{
  ℕ, ℤ, pos, minus_one, int_eq, ◌≡◌, refl, none, some, List, [], ◌∷◌, ◌++◌, arith,
}
use async_event_loop.UnorderedMap.{find}
use async_event_loop.Outcome.{Outcome, ok}
use async_event_loop.Kernel.{Event}
use async_event_loop.Kernel.Flags.{epollin, epoll_ctl_add, epoll_ctl_mod}
use async_event_loop.ThreadSafeMap.{get_size}
use async_event_loop.Reactor.{
  Reactor, listen_sock, new_sock, helper_sock, async_accept, add_track, modify_track, remove_track,
}
use async_event_loop.Reactor.Dispatch.{Drained, drain-Drained}
use async_event_loop.Reactor.Loop.{Round, reactor_run-Round}
use async_event_loop.Reactor.Tracking.{IsTracked, Tracks, track-IsTracked, remove_track_fails}
use async_event_loop.Tests.Simulation.{Sim, sim, start, update}
use async_event_loop.Tests.Simulation.Laws.{sim_epoll}
use async_event_loop.Tests.Queue.{list_queue}

abbrev Logger : Type 0
Logger = Reactor sim ℕ (List ℕ)

abbrev log : ℕ → Event → Logger → Outcome Logger
log cb ev r = ok (record r { app = r.app ++ (cb ∷ []) })

abbrev event : ℕ → Event
event n = record { events = 1; fd = pos n }

abbrev two_events : List Event
two_events = event 6 ∷ event 5 ∷ []

abbrev awaited : Sim
awaited = record start {
  waits = two_events ∷ [];
  watching = update (update (λ d. none) (pos 5) (some 1)) (pos 6) (some 1);
}

abbrev loaded : Logger
loaded = record {
  kernel = awaited;
  epollfd_ = pos 4;
  max_events_ = 10;
  event_callback_ = record { map_ = (pos 5, 50) ∷ (pos 6, 60) ∷ [] };
  event_priority_ = record { map_ = (pos 5, listen_sock) ∷ (pos 6, helper_sock) ∷ [] };
  app = [];
}

drain-Drained_example :
    Drained sim list_queue log
      ((new_sock, event 6) ∷ (listen_sock, event 5) ∷ [])
      ((new_sock, event 6) ∷ (listen_sock, event 5) ∷ [])
      2
drain-Drained_example =
    drain-Drained sim list_queue log ((new_sock, event 6) ∷ (listen_sock, event 5) ∷ [])

reactor_run-Round_example : Round sim list_queue log [] loaded two_events
unfolding get_size
reactor_run-Round_example = reactor_run-Round sim list_queue log [] loaded two_events refl refl refl

-- A reactor that watches the descriptor 5.
abbrev small : Logger
small = record loaded {
  kernel = record start { watching = update (λ d. none) (pos 5) (some 1) };
  event_callback_ = record { map_ = (pos 5, 50) ∷ [] };
  event_priority_ = record { map_ = (pos 5, listen_sock) ∷ [] };
}

small-IsTracked : IsTracked sim small
unfolding find
small-IsTracked = record {
  watched = λ d m w. (50, ground arith);
  ranked = λ d cb f. (listen_sock, ground arith);
}

track-IsTracked_example :
    (Tracks sim epoll_ctl_add
        (pos 7)
        epollin
        listen_sock
        70
        small
        (async_accept sim (pos 7) 70 small)
      × IsTracked sim (async_accept sim (pos 7) 70 small).1)
    × (Tracks sim epoll_ctl_add
          (pos 7)
          1
          new_sock
          70
          small
          (add_track sim (pos 7) 1 new_sock 70 small)
        × IsTracked sim (add_track sim (pos 7) 1 new_sock 70 small).1)
    × (Tracks sim epoll_ctl_mod
          (pos 7)
          1
          new_sock
          70
          small
          (modify_track sim (pos 7) 1 new_sock 70 small)
        × IsTracked sim (modify_track sim (pos 7) 1 new_sock 70 small).1)
track-IsTracked_example = track-IsTracked sim sim_epoll (pos 7) 1 new_sock 70 small small-IsTracked

remove_track_fails_example :
    ((remove_track sim (pos 5) small).0 ≡ minus_one)
    × ((remove_track sim (pos 5) small).1.event_callback_ ≡ small.event_callback_)
    × ((remove_track sim (pos 5) small).1.event_priority_ ≡ small.event_priority_)
    × ((c : ℤ)
        → sim.interest (remove_track sim (pos 5) small).1.kernel (pos 4) c
          ≡ sim.interest small.kernel (pos 4) c)
remove_track_fails_example =
    remove_track_fails sim sim_epoll (pos 5) small (λ e. cc) (λ e. cc) (λ e. cc)
