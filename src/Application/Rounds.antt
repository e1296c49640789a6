-- ===== src/Application/Rounds.antt =====
-- src/server.cpp over `reactorRun` of include/reactor.h: the events that one `epoll_wait` reports, in the
-- order of the queue, and the loop over them.
use mathlib.Core.List.{
  Mem, Nodup, Nodup-cons, mem-cons_self, mem-cons_of_mem, Perm, map-map, mem-map,
}
use mathlib.Core.List.Perm
use mathlib.Core.Path.{subst}
use mathlib.Core.Logic.{∥∥₁_elim}
use async_event_loop.Base.{
  int_eq, ap, ℕ, zero, suc, ℤ, ◌≡◌, ◌∙◌, inl, inr, true, List, [], ◌∷◌, Bytes, map, is_some,
  is_some-value, is_positive, refl, arith, minus_one, ltb, length, false,
}
use async_event_loop.Outcome.{Outcome, Safe, Safe-bind}
use async_event_loop.ThreadSafeMap.{get?, get_size}
use async_event_loop.Kernel.{
  Kernel, Event, ready, wait_error, EpollLaws, InterestLaws, SendLaws, WaitLaws,
}
use async_event_loop.Http.{Headers}
use async_event_loop.Reactor.{Entry, EventQueue, tag_event, run_callback, enqueue, reactor_run}
use async_event_loop.Reactor.Capacity.{get_size_bound}
use async_event_loop.Reactor.Dispatch.{dispatch_all}
use async_event_loop.Reactor.Loop.{woken, reactor_run-Round, reactor_run_returns}
use async_event_loop.Connection.{Parser, World, Callback}
use async_event_loop.Server.{run_closure}
use async_event_loop.Application.{clients, Handler}
use async_event_loop.Application.Serving.{IsServing, Serves}
use async_event_loop.Application.Serving.Steps.{kernel-Serves, due-Serves}
use async_event_loop.Application.Service.{event-Serves}

-- The descriptor of an entry of the queue.
abbrev pub descriptor : Entry → ℤ
descriptor e = e.1.fd

-- The descriptors of the events that are still to be handled.
abbrev pub Due : List Entry → ℤ → Type 0
Due es d = Mem d (map descriptor es)

module _ (k : Kernel) (epoll : EpollLaws k) (laws : InterestLaws k) (sending : SendLaws k)
    (ps : Parser) (order : Headers → Headers) (pq : EventQueue)
    (content : (st : ps.State) (bs : Bytes) → (ps.execute st bs).0.1 ≡ 0) (fuel : ℕ) where
  abbrev W : Type 0
  W = World k ps Handler

  abbrev run : Callback Handler → Event → W → Outcome W
  run = run_closure k ps (clients k ps order fuel)

  callback-Safe :
      (e : Entry) (es : List Entry) (w : W)
      → ¬ Due es (descriptor e)
      → Serves k ps order laws 1 (Due (e ∷ es)) w
      → Safe (λ done. Serves k ps order laws 1 (Due es) done.1) (run_callback k pq run e w)
  unfolding run_callback get?
  callback-Safe e es w fresh s =
      let (cb, found, safe) =
        event-Serves k epoll laws sending ps order 1 (Due es) content fuel e.1 w
          (due-Serves k ps order laws (Due es) w (λ d m. mem-cons_of_mem (descriptor e) m) s)
          (s.queued (descriptor e) mem-cons_self) fresh in
      rw (found, run_callback)
        (Safe-bind (Serves k ps order laws 1 (Due es))
          (λ done. Serves k ps order laws 1 (Due es) done.1) (run cb e.1 w) _ safe (λ w' s'. s'))

  -- Events on descriptors that lead somewhere, each descriptor once, are handled one after the other
  -- without a use of a connection that is gone.
  dispatch_all-Safe :
      (es : List Entry) (w : W)
      → Nodup (map descriptor es)
      → Serves k ps order laws 1 (Due es) w
      → Safe (IsServing k ps order laws 1) (dispatch_all k pq run es w)
  unfolding dispatch_all
  dispatch_all-Safe [] w once s = due-Serves k ps order laws (λ d. ⊥) w (λ d x. absurd x) s
  dispatch_all-Safe (e ∷ es) w once s =
      let (fresh, rest) = Nodup-cons.0 once in
      Safe-bind (λ done. Serves k ps order laws 1 (Due es) done.1) (IsServing k ps order laws 1)
        (run_callback k pq run e w) _ (callback-Safe e es w fresh s)
        (λ done s'. dispatch_all-Safe es done.1 rest s')

  module _ (waiting : WaitLaws k) where
    abbrev woke : W → W
    woke w = woken k pq run w

    woke-IsServing : (w : W) → IsServing k ps order laws 1 w → IsServing k ps order laws 1 (woke w)
    woke-IsServing w =
        kernel-Serves k ps order laws w _
          (λ d. waiting.wait_keeps w.epollfd_ w.max_events_ w.epollfd_ d w.kernel)

    -- The descriptors of what `epoll_wait` reports.
    descriptors :
        (w : W) (evs : List Event)
        → map descriptor (map (tag_event k w) evs) ≡ map (λ ev. ev.fd) evs
    unfolding tag_event
    descriptors w evs = map-map descriptor (tag_event k w) evs

    reported-watched :
        (w : W) (evs : List Event) (d : ℤ)
        → (k.epoll_wait w.epollfd_ w.max_events_ w.kernel).0 ≡ ready evs
        → Mem d (map (λ ev. ev.fd) evs)
        → is_some (k.interest w.kernel w.epollfd_ d) ≡ true
    reported-watched w evs d told m = ∥∥₁_elim (mem-map.0 m) (hlevel) (λ (ev, i, e).
        rw (← e) (waiting.wait_watched w.epollfd_ w.max_events_ w.kernel evs told ev i))

    -- The events of the queue are on the descriptors that are reported.
    pub reported-perm :
        (w : W) (evs : List Event) (es : List Entry)
        → Perm es (map (tag_event k (woke w)) evs)
        → Perm (map descriptor es) (map (λ ev. ev.fd) evs)
    reported-perm w evs es p =
        subst (λ ds. Perm (map descriptor es) ds) (descriptors (woke w) evs) (Perm.map descriptor p)

    pub reported-Serves :
        (w : W) (evs : List Event) (es : List Entry)
        → (k.epoll_wait w.epollfd_ w.max_events_ w.kernel).0 ≡ ready evs
        → Perm es (map (tag_event k (woke w)) evs)
        → IsServing k ps order laws 1 w
        → Nodup (map descriptor es) × Serves k ps order laws 1 (Due es) (woke w)
    reported-Serves w evs es told p s = (
      Perm.nodup (Perm.symm same) (waiting.wait_once w.epollfd_ w.max_events_ w.kernel evs told),
      record {
        watched = awake.watched;
        queued = λ d m.
            let (mask, i) =
              is_some-value (reported-watched w evs d told ((Perm.mem_iff same).0 m)) in
            awake.watched d mask
              (waiting.wait_keeps w.epollfd_ w.max_events_ w.epollfd_ d w.kernel ∙ i);
        unique = s.unique;
        descriptors = s.descriptors;
        enough = s.enough;
      },
    )
      where
        awake : IsServing k ps order laws 1 (woke w)
        awake = woke-IsServing w s

        same : Perm (map descriptor es) (map (λ ev. ev.fd) evs)
        same = reported-perm w evs es p

    -- How the loop ends: with a failure of `epoll_wait`, and the server in order.
    abbrev pub LoopEnded : ℤ × pq.Queue × W → Type 0
    LoopEnded (status, q, w) =
        (status ≡ minus_one)
        × IsServing k ps order laws 1 w
        × ((s : k.State) × (k.epoll_wait w.epollfd_ w.max_events_ s ≡ (wait_error, w.kernel)))

    -- While there is a closure the loop does not stop by itself.
    still_positive :
        (w : W)
        → IsServing k ps order laws 1 w
        → is_positive (get_size w.event_callback_) ≡ false
        → ⊥
    still_positive w s dead =
        let (size, _) =
          get_size_bound laws.limit w.event_callback_ laws.limit_small s.unique s.descriptors in
        let none_left : ltb 0 (length w.event_callback_.map_) ≡ false =
          subst (λ n. is_positive n ≡ false) size dead in
        absurd (ground (arith, s.enough))

    -- Rounds of the loop, of which one fewer are safe.
    after_events :
        (rounds : ℕ) (q : pq.Queue) (w : W) (evs : List Event)
        → ((q' : pq.Queue) (w' : W)
            → pq.items q' ≡ []
            → IsServing k ps order laws 1 w'
            → Safe LoopEnded (reactor_run k pq run rounds q' w'))
        → pq.items q ≡ []
        → is_positive (get_size w.event_callback_) ≡ true
        → (k.epoll_wait w.epollfd_ w.max_events_ w.kernel).0 ≡ ready evs
        → reactor_run k pq run (suc rounds) q w
          ≡ reactor_run k pq run rounds (enqueue k pq run (woke w) evs q) (woke w)
        → IsServing k ps order laws 1 w
        → Safe LoopEnded (reactor_run k pq run (suc rounds) q w)
    unfolding reactor_run
    after_events zero q w evs again e alive told next s = rw next tt
    after_events (suc rounds) q w evs again e alive told next s =
        let round = reactor_run-Round k pq run q w evs e alive told in
        let (once, s') = reported-Serves w evs round.order told round.all_once s in
        rw (round.continues rounds) (
          Safe-bind (IsServing k ps order laws 1) LoopEnded
            (dispatch_all k pq run round.order (woke w)) _
            (dispatch_all-Safe round.order (woke w) once s')
            (λ w' s''. again round.last w' round.is_empty s''))

    pub reactor_run-Safe :
        (rounds : ℕ) (q : pq.Queue) (w : W)
        → pq.items q ≡ []
        → IsServing k ps order laws 1 w
        → Safe LoopEnded (reactor_run k pq run rounds q w)
    unfolding reactor_run
    reactor_run-Safe zero q w e s = tt
    reactor_run-Safe (suc rounds) q w e s = elim (reactor_run_returns k pq run rounds q w e) [
      | inl (dead, stops) ↦ absurd (still_positive w s dead)
      | inr (inl (alive, bad, fails)) ↦
          rw fails (refl, woke-IsServing w s, (w.kernel, ap (λ r. (r, (woke w).kernel)) bad))
      | inr (inr (alive, (evs, told, next))) ↦
          after_events rounds q w evs (reactor_run-Safe rounds) e alive told next s
    ]
