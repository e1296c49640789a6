-- ===== src/Application/Runs.antt =====
-- src/server.cpp over the whole of include/: runs of the server, event by event.
use async_event_loop.Base.{
  int_eq, pos, failed, false, length, ◌≤◌, ℕ, ℤ, ◌≡◌, sym, ◌∙◌, some, none, Bytes, [],
}
use mathlib.Core.Path.{subst}
use async_event_loop.UnorderedMap.{find}
use async_event_loop.ThreadSafeMap.{get_size}
use async_event_loop.Reactor.Capacity.{get_size_bound}
use async_event_loop.Outcome.{ok, Safe}
use async_event_loop.Kernel.{Kernel, Event, EpollLaws, InterestLaws, SendLaws}
use async_event_loop.Http.{Headers}
use async_event_loop.Reactor.{async_accept}
use async_event_loop.Connection.{Parser, World, Callback, accepting}
use async_event_loop.Server.{run_closure}
use async_event_loop.Application.{clients, Handler, on_request}
use async_event_loop.Application.Serving.{IsServing}
use async_event_loop.Application.Serving.Steps.{fewer-Serves}
use async_event_loop.Application.Service.{event-Serves, listening-Serves}

module _ (k : Kernel) (ps : Parser) (order : Headers → Headers) where
  -- A run of the server: events on watched descriptors, whose closures run, and in between whatever
  -- the system does, as long as it puts nothing on the interest list.
  pub data Runs (fuel : ℕ) : World k ps Handler → World k ps Handler → Type 0 where
    stop : {w : World k ps Handler} → Runs fuel w w
    wait :
        {w w'' : World k ps Handler} (s' : k.State)
        → ((d : ℤ) (mask : ℕ)
            → k.interest s' w.epollfd_ d ≡ some mask
            → k.interest w.kernel w.epollfd_ d ≡ some mask)
        → Runs fuel (record w { kernel = s' }) w''
        → Runs fuel w w''
    event :
        {w w' w'' : World k ps Handler} (ev : Event) (mask : ℕ) (cb : Callback Handler)
        → k.interest w.kernel w.epollfd_ ev.fd ≡ some mask
        → find ev.fd w.event_callback_.map_ ≡ some cb
        → run_closure k ps (clients k ps order fuel) cb ev w ≡ ok w'
        → Runs fuel w' w''
        → Runs fuel w w''

module _ (k : Kernel) (epoll : EpollLaws k) (laws : InterestLaws k) (sending : SendLaws k)
    (ps : Parser) (order : Headers → Headers)
    (content : (st : ps.State) (bs : Bytes) → (ps.execute st bs).0.1 ≡ 0) where
  -- An event on a watched descriptor, while none waits.
  watched-Safe :
      (least fuel : ℕ) (ev : Event) (mask : ℕ) (w : World k ps Handler)
      → IsServing k ps order laws least w
      → k.interest w.kernel w.epollfd_ ev.fd ≡ some mask
      → (cb : Callback Handler) × (find ev.fd w.event_callback_.map_ ≡ some cb)
        × Safe
            (IsServing k ps order laws least)
            (run_closure k ps (clients k ps order fuel) cb ev w)
  watched-Safe least fuel ev mask w s i =
      event-Serves k epoll laws sending ps order least (λ d. ⊥) content fuel ev w s
        (s.watched ev.fd mask i) (λ x. x)

  Runs-Serves :
      (least fuel : ℕ) {w w' : World k ps Handler}
      → Runs k ps order fuel w w'
      → IsServing k ps order laws least w
      → IsServing k ps order laws least w'
  Runs-Serves least fuel stop s = s
  Runs-Serves least fuel (wait {w} s' fewer rest) s =
      Runs-Serves least fuel rest (fewer-Serves k ps order laws w s' fewer s)
  Runs-Serves least fuel (event {w} {w'} ev mask cb i found done rest) s =
      let (cb', found', safe) = watched-Safe least fuel ev mask w s i in
      let e : some cb' ≡ some cb = sym found' ∙ found in
      let same : cb' ≡ cb = cc in
      let safe_cb : Safe (IsServing k ps order laws least)
          (run_closure k ps (clients k ps order fuel) cb ev w) =
        rw (← same) safe in
      Runs-Serves least fuel rest
        (subst (λ m. Safe (IsServing k ps order laws least) m) done safe_cb)

  -- In every run from the moment at which `listen` has registered its socket with a new reactor that
  -- watches nothing before, and while the parser reports no error: an event on a watched descriptor
  -- finds its closure, and running it uses no connection that is gone, deletes none twice and reads
  -- through no NULL, as long as the loop over `recv` stays within its bound.
  pub run-Safe :
      (fuel : ℕ) (d : ℤ) (err : Handler) (first w : World k ps Handler) (ev : Event) (mask : ℕ)
      → ((c : ℤ) → k.interest first.kernel first.epollfd_ c ≡ none)
      → first.event_callback_.map_ ≡ []
      → Runs k ps order fuel (async_accept k d (accepting on_request err) first).1 w
      → k.interest w.kernel w.epollfd_ ev.fd ≡ some mask
      → (cb : Callback Handler) × (find ev.fd w.event_callback_.map_ ≡ some cb)
        × Safe (IsServing k ps order laws 0) (run_closure k ps (clients k ps order fuel) cb ev w)
  run-Safe fuel d err first w ev mask idle none_yet run i =
      watched-Safe 0 fuel ev mask w
        (Runs-Serves 0 fuel run
          (listening-Serves k epoll laws ps order d err first idle none_yet).0)
        i

  -- In every run from the moment at which `listen` has registered its socket, without a failure, with
  -- a new reactor that watches nothing before, and while the parser reports no error: the map of the
  -- closures has at least one entry and no more than the system has descriptors, and `getSize`, which
  -- converts the number of entries to an `int`, returns that number, so that it does not overflow.
  pub run_size :
      (fuel : ℕ) (d : ℤ) (err : Handler) (first w : World k ps Handler)
      → ((c : ℤ) → k.interest first.kernel first.epollfd_ c ≡ none)
      → first.event_callback_.map_ ≡ []
      → failed (async_accept k d (accepting on_request err) first).0 ≡ false
      → Runs k ps order fuel (async_accept k d (accepting on_request err) first).1 w
      → (get_size w.event_callback_ ≡ pos (length w.event_callback_.map_))
        × (1 ≤ length w.event_callback_.map_)
        × (length w.event_callback_.map_ ≤ laws.limit)
  run_size fuel d err first w idle none_yet good run =
      let (_, listening) = listening-Serves k epoll laws ps order d err first idle none_yet in
      let s = Runs-Serves 1 fuel run (listening good) in
      let (size, fits) =
        get_size_bound laws.limit w.event_callback_ laws.limit_small s.unique s.descriptors in
      (size, s.enough, fits)
