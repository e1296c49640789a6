-- ===== src/Reactor/Dispatch.antt =====
-- include/reactor.h, the inner loop of `reactorRun`: which callbacks run, how often and in what order.
use mathlib.Core.List.{Perm, Pairwise}
use mathlib.Core.List.Perm
use mathlib.Core.List.{mem-cons_of_mem}
use mathlib.Core.List.Perm
use async_event_loop.Base.{
  ℕ, zero, suc, ℤ, ◌≤◌, ◌≡◌, refl, inl, inr, false, none, List, [], ◌∷◌, arith, length, length-perm,
}
use async_event_loop.Outcome.{Outcome, ok, fault, ◌>>=◌}
use async_event_loop.Kernel.{Kernel, Event}
use async_event_loop.Reactor.{Reactor, Entry, EventQueue, rank, pq_comparator, run_callback, drain}

-- Nothing earlier in the list has a greater value of its priority than anything later.
abbrev pub IsByPriority : List Entry → Type 0
IsByPriority = Pairwise (λ a b. rank a.0 ≤ rank b.0)

module _ (k : Kernel) (pq : EventQueue) {Cb App : Type 0}
    (run : Cb → Event → Reactor k Cb App → Outcome (Reactor k Cb App)) where
  -- The specification: the callbacks of a list of events, from left to right.
  unfoldable pub dispatch_all : List Entry → Reactor k Cb App → Outcome (Reactor k Cb App)
  dispatch_all [] r = ok r
  dispatch_all (e ∷ es) r = run_callback k pq run e r >>= (λ done. dispatch_all es done.1)

  -- What draining a queue that holds `held` does.
  pub record Drained (held : List Entry) (q : pq.Queue) (fuel : ℕ) : Type 0 where
    pub order : List Entry
    pub last : pq.Queue
    pub is_empty : pq.items last ≡ []
    pub all_once : Perm order held
    pub sorted : IsByPriority order
    pub same :
        (r : Reactor k Cb App)
        → drain k pq run fuel q r ≡ (dispatch_all order r >>= (λ r'. ok (last, r')))

  -- Two continuations that agree, after a callback.
  after_callback :
      (m : Outcome (ℤ × Reactor k Cb App)) (last : pq.Queue)
      (f : Reactor k Cb App → Outcome (pq.Queue × Reactor k Cb App))
      (g : Reactor k Cb App → Outcome (Reactor k Cb App))
      → ((r : Reactor k Cb App) → f r ≡ (g r >>= (λ r'. ok (last, r'))))
      → (m >>= (λ done. f done.1)) ≡ ((m >>= (λ done. g done.1)) >>= (λ r'. ok (last, r')))
  after_callback (ok done) last f g h = h done.1
  after_callback (fault x) last f g h = refl

  best_first : (e d : Entry) → pq_comparator e d ≡ false → rank e.0 ≤ rank d.0
  unfolding pq_comparator
  best_first e d h = ground arith

  pub drain_idle :
      (fuel : ℕ) (q : pq.Queue)
      → pq.top q ≡ none
      → (r : Reactor k Cb App) → drain k pq run fuel q r ≡ ok (q, r)
  unfolding drain
  drain_idle zero q t r = rw (t, drain)
  drain_idle (suc fuel) q t r = rw (t, drain)

  idle-Drained :
      (fuel : ℕ) (q : pq.Queue) → pq.items q ≡ [] → pq.top q ≡ none → Drained (pq.items q) q fuel
  unfolding dispatch_all
  idle-Drained fuel q e t = record {
    order = [];
    last = q;
    is_empty = e;
    all_once = rw e Perm.nil;
    sorted = Pairwise.nil;
    same = λ r. drain_idle fuel q t r;
  }

  drain_lem : (fuel : ℕ) (q : pq.Queue) → length (pq.items q) ≤ fuel → Drained (pq.items q) q fuel
  unfolding drain dispatch_all
  drain_lem zero q h = elim (pq.top-cases q) [
    | inl (e, t) ↦ idle-Drained zero q e t
    | inr (e, t, p, best) ↦ absurd (omega (arith, length-perm p))
  ]
  drain_lem (suc fuel) q h = elim (pq.top-cases q) [
    | inl (e, t) ↦ idle-Drained (suc fuel) q e t
    | inr (e, t, p, best) ↦
        let rest : Drained (pq.items (pq.pop q)) (pq.pop q) fuel =
          drain_lem fuel (pq.pop q) (omega (arith, length-perm p)) in
        record {
          order = e ∷ rest.order;
          last = rest.last;
          is_empty = rest.is_empty;
          all_once = Perm.trans (Perm.cons e rest.all_once) (Perm.symm p);
          sorted =
              Pairwise.cons
                (λ d m. best_first e d (
                  best d
                    ((Perm.mem_iff p).1 (mem-cons_of_mem e ((Perm.mem_iff rest.all_once).0 m)))))
                rest.sorted;
          same = λ r.
              rw (t, drain) (after_callback (run_callback k pq run e r) rest.last _ _ rest.same);
        }
  ]

  -- Draining a queue runs the callback of every event in it exactly once, smaller values of the
  -- priority first, and leaves the queue empty. It comes to the same as running the callbacks in that
  -- order, whatever they do; the loop needs no more rounds than the queue has events.
  pub drain-Drained : (q : pq.Queue) → Drained (pq.items q) q (length (pq.items q))
  drain-Drained q = drain_lem (length (pq.items q)) q (omega arith)
