-- ===== src/Reactor/Single.antt =====
-- include/reactor.h, `reactorRun`: a round in which a single event is reported.
use mathlib.Core.List.{Perm, mem-singleton, mem-cons_self}
use mathlib.Core.List.Perm
use async_event_loop.Base.{
  int_eq, ℕ, suc, ℤ, pos, is_positive, to_int_small, ◌<◌, ◌^◌, ◌≡◌, refl, ap, ◌∙◌, true, some, List,
  [], ◌∷◌, arith, length, length-perm,
}
use async_event_loop.UnorderedMap.{find}
use async_event_loop.Outcome.{Outcome, ok, fault, ◌>>=◌}
use async_event_loop.Kernel.{Kernel, Event, ready}
use async_event_loop.ThreadSafeMap.{ThreadSafeMap, get?, get_size}
use async_event_loop.Reactor.{Reactor, Entry, EventQueue, tag_event, run_callback, reactor_run}
use async_event_loop.Reactor.Dispatch.{dispatch_all}
use async_event_loop.Reactor.Loop.{woken, Round, reactor_run-Round}

-- The loop goes on while the map of the callbacks has some, but no more than an `int` counts.
pub get_size_positive :
    {V : Type 0} (m : ThreadSafeMap ℤ V)
    → 0 < length m.map_
    → length m.map_ < 2 ^ 31
    → is_positive (get_size m) ≡ true
unfolding get_size
get_size_positive m some_left small = rw (to_int_small (length m.map_) small) (ground arith)

Entry-set : IsSet Entry
Entry-set = hlevel

-- A list of one entry has no other order.
perm_one : (e : Entry) (es : List Entry) → Perm es (e ∷ []) → es ≡ e ∷ []
perm_one e [] p = absurd (omega (arith, length-perm p))
perm_one e (x ∷ []) p =
    ap (λ y. y ∷ []) ((mem-singleton Entry-set).0 ((Perm.mem_iff p).0 mem-cons_self))
perm_one e (x ∷ y ∷ es) p = absurd (omega (arith, length-perm p))

module _ (k : Kernel) (pq : EventQueue) {Cb App : Type 0}
    (run : Cb → Event → Reactor k Cb App → Outcome (Reactor k Cb App)) where
  -- The loop is about to wait, with an empty queue and callbacks left.
  pub record IsWaiting (q : pq.Queue) (r : Reactor k Cb App) : Type 0 where
    pub is_empty : pq.items q ≡ []
    pub some_left : 0 < length r.event_callback_.map_
    pub small : length r.event_callback_.map_ < 2 ^ 31

  -- What the loop does in a round in which only `ev` is reported, whose callback is `cb`.
  pub record Single (q : pq.Queue) (r : Reactor k Cb App) (cb : Cb) (ev : Event) : Type 0 where
    pub last : pq.Queue
    pub is_empty : pq.items last ≡ []
    pub continues :
        (rounds : ℕ)
        → reactor_run k pq run (suc (suc rounds)) q r
          ≡ (run cb ev (woken k pq run r) >>= (λ r'. reactor_run k pq run (suc rounds) last r'))

  abbrev status_ok : Reactor k Cb App → Outcome (ℤ × Reactor k Cb App)
  status_ok r = ok (pos 0, r)

  after_status : (m : Outcome (Reactor k Cb App)) → (m >>= status_ok >>= (λ done. ok done.1)) ≡ m
  after_status (ok r') = refl
  after_status (fault x) = refl

  dispatch_one :
      (e : Entry) (r : Reactor k Cb App) (cb : Cb)
      → find e.1.fd r.event_callback_.map_ ≡ some cb
      → dispatch_all k pq run (e ∷ []) r ≡ run cb e.1 r
  unfolding dispatch_all run_callback get?
  dispatch_one e r cb found = rw (found, run_callback) (after_status (run cb e.1 r))

  pub single :
      (q : pq.Queue) (r : Reactor k Cb App) (cb : Cb) (ev : Event)
      → IsWaiting q r
      → (k.epoll_wait r.epollfd_ r.max_events_ r.kernel).0 ≡ ready (ev ∷ [])
      → find ev.fd r.event_callback_.map_ ≡ some cb
      → Single q r cb ev
  unfolding tag_event
  single q r cb ev waiting told found = record {
    last = round.last;
    is_empty = round.is_empty;
    continues = λ rounds.
        round.continues rounds
        ∙ ap (λ m. m >>= (λ r'. reactor_run k pq run (suc rounds) round.last r'))
            (ap (λ es. dispatch_all k pq run es (woken k pq run r))
                (perm_one _ round.order round.all_once)
              ∙ dispatch_one (tag_event k (woken k pq run r) ev) (woken k pq run r) cb found);
  }
    where
      round : Round k pq run q r (ev ∷ [])
      round =
          reactor_run-Round k pq run q r (ev ∷ []) waiting.is_empty
            (get_size_positive r.event_callback_ waiting.some_left waiting.small) told
