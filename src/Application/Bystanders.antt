-- ===== src/Application/Bystanders.antt =====
-- src/server.cpp over `reactorRun` of include/reactor.h: the clients of which nothing is reported.
use mathlib.Core.List.{Mem, Nodup, Nodup-cons, mem-cons_self, mem-cons_of_mem, Perm}
use mathlib.Core.List.Perm
use async_event_loop.Base.{
  int_eq, ℕ, ℤ, ◌≡◌, ◌≢◌, ◌∙◌, sym, some, List, [], ◌∷◌, Bytes, map, length,
}
use async_event_loop.Outcome.{Outcome, Safe, Safe-bind, Safe-Returns, Returns, Returns-map}
use async_event_loop.Heap.{object}
use async_event_loop.Kernel.{
  Kernel, Event, ready, EpollLaws, InterestLaws, SendLaws, StreamLaws, WaitLaws,
}
use async_event_loop.Http.{Headers}
use async_event_loop.Reactor.{Entry, EventQueue, run_callback, tag_event, enqueue, drain}
use async_event_loop.Reactor.Dispatch.{dispatch_all, Drained, drain-Drained}
use async_event_loop.Reactor.Loop.{woken, enqueue-perm_empty}
use async_event_loop.ThreadSafeMap.{get?}
use async_event_loop.Connection.{Parser, Conn, World, Callback, accepting, handling}
use async_event_loop.Connection.Isolation.{Others}
use async_event_loop.Server.{run_closure}
use async_event_loop.Server.Accepting.{run_closure-Welcomes}
use async_event_loop.Application.{clients, Handler}
use async_event_loop.Application.Serving.{IsServing, Serves, Leads}
use async_event_loop.Application.Serving.Steps.{due-Serves}
use async_event_loop.Application.Service.{closure-Safe}
use async_event_loop.Application.Isolation.{run_closure-Others}
use async_event_loop.Application.Rounds.{descriptor, Due, reported-perm, reported-Serves}

module _ (k : Kernel) (epoll : EpollLaws k) (laws : InterestLaws k) (sending : SendLaws k)
    (streams : StreamLaws k) (ps : Parser) (order : Headers → Headers) (pq : EventQueue)
    (content : (st : ps.State) (bs : Bytes) → (ps.execute st bs).0.1 ≡ 0) (fuel : ℕ) where
  abbrev W : Type 0
  W = World k ps Handler

  abbrev run : Callback Handler → Event → W → Outcome W
  run = run_closure k ps (clients k ps order fuel)

  module _ (q : ℕ) (c : Conn k ps Handler) where
    -- The connection is as it was.
    abbrev Stays : W → Type 0
    Stays w = object q w.app ≡ some c

    -- A closure of another descriptor.
    closure-Stays :
        (cb : Callback Handler) (ev : Event) (w : W)
        → Leads k ps order ev.fd cb w
        → c.socket ≢ ev.fd
        → Stays w
        → Returns Stays (run cb ev w)
    closure-Stays (accepting cb err) ev w l apart live =
        let (w', e, v) =
          run_closure-Welcomes k sending streams ps (clients k ps order fuel) cb err ev w in
        rw e (v.connections q live)
    closure-Stays (handling p success error) ev w (b, o, (on, cb, fits)) apart live =
        Returns-map (Others k ps p b.socket w) Stays (run (handling p success error) ev w)
          (λ w' others.
            others.connections q (λ same.
              let twice : some b ≡ some c = sym o ∙ rw same live in
              let eq : b ≡ c = cc in apart (rw (← eq) on))
            ∙ live)
          (run_closure-Others k sending streams ps order fuel p ev success error b w o)

    -- In order, and the connection is as it was.
    abbrev Fine : (ℤ → Type 0) → W → Type 0
    Fine due w = Serves k ps order laws 1 due w × Stays w

    callback-Fine :
        (e : Entry) (es : List Entry) (w : W)
        → ¬ Due es (descriptor e)
        → c.socket ≢ descriptor e
        → Fine (Due (e ∷ es)) w
        → Safe (λ done. Fine (Due es) done.1) (run_callback k pq run e w)
    unfolding run_callback get?
    callback-Fine e es w fresh apart (s, live) =
        let (cb, found, l) = s.queued (descriptor e) mem-cons_self in
        let s' =
          due-Serves k ps order laws (Due es) w (λ d m. mem-cons_of_mem (descriptor e) m) s in
        rw (found, run_callback)
          (Safe-bind (Fine (Due es)) (λ done. Fine (Due es) done.1) (run cb e.1 w) _
            (Safe-Returns (Serves k ps order laws 1 (Due es)) Stays (run cb e.1 w)
              (closure-Safe k epoll laws sending ps order 1 (Due es) content fuel cb e.1 w l fresh
                s')
              (closure-Stays cb e.1 w l apart live))
            (λ w' f. f))

    dispatch_all-Fine :
        (es : List Entry) (w : W)
        → Nodup (map descriptor es)
        → ¬ Due es c.socket
        → Fine (Due es) w
        → Safe (Fine (λ d. ⊥)) (dispatch_all k pq run es w)
    unfolding dispatch_all
    dispatch_all-Fine [] w once apart (s, live) =
        (due-Serves k ps order laws (λ d. ⊥) w (λ d x. absurd x) s, live)
    dispatch_all-Fine (e ∷ es) w once apart f =
        let (fresh, rest) = Nodup-cons.0 once in
        Safe-bind (λ done. Fine (Due es) done.1) (Fine (λ d. ⊥)) (run_callback k pq run e w) _
          (callback-Fine e es w fresh (λ same. apart (rw same mem-cons_self)) f)
          (λ done f'.
            dispatch_all-Fine es done.1 rest (λ m. apart (mem-cons_of_mem (descriptor e) m)) f')

  module _ (waiting : WaitLaws k) where
    -- A client of which `epoll_wait` reports nothing is left alone. With the server in order and an empty
    -- queue, the events that are reported are put into the queue and their callbacks run until it is
    -- empty. Then every connection on a socket that is not among theirs is exactly as it was before,
    -- whatever the clients of the others have sent and however the calls of the system end; no
    -- connection is used that is gone, and the server is in order again. This holds for any bound on the
    -- rounds of the loop over `recv`; the parser must report no error.
    pub drain-Fine :
        (i : ℕ) (c : Conn k ps Handler) (q : pq.Queue) (w : W) (evs : List Event)
        → pq.items q ≡ []
        → IsServing k ps order laws 1 w
        → object i w.app ≡ some c
        → (k.epoll_wait w.epollfd_ w.max_events_ w.kernel).0 ≡ ready evs
        → ¬ Mem c.socket (map (λ ev. ev.fd) evs)
        → let filled = enqueue k pq run (woken k pq run w) evs q in
          Safe
            (λ done. IsServing k ps order laws 1 done.1 × (object i done.1.app ≡ some c))
            (drain k pq run (length (pq.items filled)) filled (woken k pq run w))
    drain-Fine i c q w evs empty s live told apart =
        let (once, s') =
          reported-Serves k epoll laws sending ps order pq content fuel waiting w evs drained.order
            told reported s in
        rw (drained.same (woken k pq run w)) (
          Safe-bind (Fine i c (λ d. ⊥)) (λ done. Fine i c (λ d. ⊥) done.1)
            (dispatch_all k pq run drained.order (woken k pq run w)) _
            (dispatch_all-Fine i c drained.order (woken k pq run w) once
              (λ m. apart (
                (Perm.mem_iff (
                    reported-perm k epoll laws sending ps order pq content fuel waiting w evs
                      drained.order reported)).0
                  m))
              (s', live))
            (λ w' f. f))
      where
        filled : pq.Queue
        filled = enqueue k pq run (woken k pq run w) evs q

        drained : Drained k pq run (pq.items filled) filled (length (pq.items filled))
        drained = drain-Drained k pq run filled

        reported : Perm drained.order (map (tag_event k (woken k pq run w)) evs)
        reported =
            Perm.trans drained.all_once (enqueue-perm_empty k pq run (woken k pq run w) evs q empty)
