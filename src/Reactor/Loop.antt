-- ===== src/Reactor/Loop.antt =====
-- include/reactor.h, `reactorRun`: a round of the outer loop, and how the loop ends.
use mathlib.Core.List.{Perm, perm_middle}
use mathlib.Core.List.Perm
use mathlib.Core.Path.{subst}
use async_event_loop.Base.{
  ℕ, suc, ℤ, pos, minus_one, is_positive, ◌≡◌, refl, sym, ap, ◌∙◌, ◌⊎◌, inl, inr, Bool-cases, true,
  false, none, List, [], ◌∷◌, ◌++◌, length, append-nil, map, if◌then◌else◌,
}
use async_event_loop.Outcome.{Outcome, ok, fault, ◌>>=◌}
use async_event_loop.Kernel.{Kernel, Event, Waited, ready, wait_error}
use async_event_loop.ThreadSafeMap.{get_size}
use async_event_loop.Reactor.{Reactor, Entry, EventQueue, drain, tag_event, enqueue, reactor_run}
use async_event_loop.Reactor.Dispatch.{
  IsByPriority, dispatch_all, Drained, drain_idle, drain-Drained,
}

Waited-cases : (w : Waited) → (w ≡ wait_error) ⊎ ((evs : List Event) × (w ≡ ready evs))
Waited-cases wait_error = inl refl
Waited-cases (ready evs) = inr (evs, refl)

module _ (k : Kernel) (pq : EventQueue) {Cb App : Type 0}
    (run : Cb → Event → Reactor k Cb App → Outcome (Reactor k Cb App)) where
  -- Every event that is filled in goes into the queue once, with the priority of its descriptor.
  enqueue-perm :
      (r : Reactor k Cb App) (evs : List Event) (q : pq.Queue)
      → Perm (pq.items (enqueue k pq run r evs q)) (map (tag_event k r) evs ++ pq.items q)
  unfolding enqueue
  enqueue-perm r [] q = Perm.refl (pq.items q)
  enqueue-perm r (ev ∷ evs) q = Perm.trans (enqueue-perm r evs (pq.push q (tag_event k r ev))) (
      Perm.trans (Perm.append_left (map (tag_event k r) evs) (pq.items-push q (tag_event k r ev)))
        (perm_middle (map (tag_event k r) evs) (pq.items q)))

  -- In an empty queue there are then these events.
  pub enqueue-perm_empty :
      (r : Reactor k Cb App) (evs : List Event) (q : pq.Queue)
      → pq.items q ≡ []
      → Perm (pq.items (enqueue k pq run r evs q)) (map (tag_event k r) evs)
  enqueue-perm_empty r evs q e =
      subst (λ xs. Perm (pq.items (enqueue k pq run r evs q)) xs) (rw e (append-nil _))
        (enqueue-perm r evs q)

  top_of_empty : (q : pq.Queue) → pq.items q ≡ [] → pq.top q ≡ none
  top_of_empty q e = elim (pq.top-cases q) [
    | inl (_, t) ↦ t
    | inr (d, t, p, _) ↦
        absurd (cc (Perm.nil-eq (subst (λ xs. Perm xs (d ∷ pq.items (pq.pop q))) e p)))
  ]

  drain_empty :
      (q : pq.Queue) (r : Reactor k Cb App)
      → pq.items q ≡ []
      → drain k pq run (length (pq.items q)) q r ≡ ok (q, r)
  drain_empty q r e = drain_idle k pq run (length (pq.items q)) q (top_of_empty q e) r

  -- The reactor after `epoll_wait` has returned.
  abbrev pub woken : Reactor k Cb App → Reactor k Cb App
  woken r = record r { kernel = (k.epoll_wait r.epollfd_ r.max_events_ r.kernel).1 }

  -- A round that starts from `q` and `r` and is told of `evs`: the order in which it runs their
  -- callbacks, and the queue that it leaves to the rest of the loop.
  pub record Round (q : pq.Queue) (r : Reactor k Cb App) (evs : List Event) : Type 0 where
    pub order : List Entry
    pub last : pq.Queue
    pub is_empty : pq.items last ≡ []
    pub all_once : Perm order (map (tag_event k (woken r)) evs)
    pub sorted : IsByPriority order
    pub continues :
        (fuel : ℕ)
        → reactor_run k pq run (suc (suc fuel)) q r ≡ (
            dispatch_all k pq run order (woken r)
            >>= (λ r'. reactor_run k pq run (suc fuel) last r'))

  -- The rest of a round after the queue has been drained.
  abbrev Rest : Type 0
  Rest = pq.Queue × Reactor k Cb App → Outcome (ℤ × pq.Queue × Reactor k Cb App)

  then_rest :
      (m : Outcome (Reactor k Cb App)) (last : pq.Queue) (rest : Rest)
      (f : Reactor k Cb App → Outcome (ℤ × pq.Queue × Reactor k Cb App))
      → ((r : Reactor k Cb App) → f r ≡ rest (last, r))
      → ((m >>= (λ r'. ok (last, r'))) >>= rest) ≡ (m >>= f)
  then_rest (ok r) last rest f h = sym (h r)
  then_rest (fault x) last rest f h = refl

  abbrev after_drain : ℕ → Rest
  after_drain fuel (q', r') =
      if is_positive (get_size r'.event_callback_)
      then (elim (k.epoll_wait r'.epollfd_ r'.max_events_ r'.kernel).0 [
        | wait_error ↦ ok (minus_one, q', woken r')
        | ready evs ↦ reactor_run k pq run fuel (enqueue k pq run (woken r') evs q') (woken r')
      ])
      else ok (pos 0, q', r')

  reactor_run_empty :
      (fuel : ℕ) (q : pq.Queue) (r : Reactor k Cb App)
      → pq.items q ≡ []
      → reactor_run k pq run (suc fuel) q r ≡ after_drain fuel (q, r)
  unfolding reactor_run
  reactor_run_empty fuel q r e = rw (drain_empty q r e)

  reactor_run_drained :
      (fuel : ℕ) (q : pq.Queue) (r : Reactor k Cb App)
      → reactor_run k pq run (suc fuel) q r
        ≡ (drain k pq run (length (pq.items q)) q r >>= after_drain fuel)
  unfolding reactor_run
  reactor_run_drained fuel q r = refl

  -- With an empty queue, a callback in the map and events reported, a round of the loop runs the
  -- callback of each event exactly once, those of the listening sockets before those of new sockets
  -- before those of helper sockets, and the loop goes on with an empty queue.
  pub reactor_run-Round :
      (q : pq.Queue) (r : Reactor k Cb App) (evs : List Event)
      → pq.items q ≡ []
      → is_positive (get_size r.event_callback_) ≡ true
      → (k.epoll_wait r.epollfd_ r.max_events_ r.kernel).0 ≡ ready evs
      → Round q r evs
  reactor_run-Round q r evs e alive w = record {
    order = drained.order;
    last = drained.last;
    is_empty = drained.is_empty;
    all_once = Perm.trans drained.all_once (enqueue-perm_empty (woken r) evs q e);
    sorted = drained.sorted;
    continues = λ fuel.
        reactor_run_empty (suc fuel) q r e
        ∙ rw (alive, w)
            (reactor_run_drained fuel filled (woken r)
              ∙ ap (λ m. m >>= after_drain fuel) (drained.same (woken r))
              ∙ then_rest (dispatch_all k pq run drained.order (woken r)) drained.last
                  (after_drain fuel) (λ r'. reactor_run k pq run (suc fuel) drained.last r')
                  (λ r'. reactor_run_empty fuel drained.last r' drained.is_empty));
  }
    where
      filled : pq.Queue
      filled = enqueue k pq run (woken r) evs q

      drained : Drained k pq run (pq.items filled) filled (length (pq.items filled))
      drained = drain-Drained k pq run filled

  -- With an empty queue, the loop has three ways to go: it returns 0 at once if no callback is left;
  -- otherwise it returns -1 if `epoll_wait` fails, and goes on with the reported events in the queue
  -- if it does not.
  pub reactor_run_returns :
      (fuel : ℕ) (q : pq.Queue) (r : Reactor k Cb App)
      → pq.items q ≡ []
      → let waited = (k.epoll_wait r.epollfd_ r.max_events_ r.kernel).0 in
        ((is_positive (get_size r.event_callback_) ≡ false)
          × (reactor_run k pq run (suc fuel) q r ≡ ok (pos 0, q, r)))
        ⊎ ((is_positive (get_size r.event_callback_) ≡ true)
            × (waited ≡ wait_error)
            × (reactor_run k pq run (suc fuel) q r ≡ ok (minus_one, q, woken r)))
        ⊎ ((is_positive (get_size r.event_callback_) ≡ true)
            × ((evs : List Event) × (waited ≡ ready evs)
                × (reactor_run k pq run (suc fuel) q r
                    ≡ reactor_run k pq run fuel (enqueue k pq run (woken r) evs q) (woken r))))
  reactor_run_returns fuel q r e = elim (Bool-cases (is_positive (get_size r.event_callback_))) [
    | inl alive ↦ elim (Waited-cases (k.epoll_wait r.epollfd_ r.max_events_ r.kernel).0) [
      | inl bad ↦ inr (inl (alive, bad, reactor_run_empty fuel q r e ∙ rw (alive, bad)))
      | inr (evs, more) ↦
          inr (inr (alive, (evs, more, reactor_run_empty fuel q r e ∙ rw (alive, more))))
    ]
    | inr dead ↦ inl (dead, reactor_run_empty fuel q r e ∙ rw dead)
  ]
