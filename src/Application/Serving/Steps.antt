-- ===== src/Application/Serving/Steps.antt =====
-- src/server.cpp over include/reactor.h and include/connection_types.h: the steps that keep every event
-- leading somewhere.
use async_event_loop.Base.{
  int_eq, int_eqb, int_eqb_iff, ℕ, ℤ, ◌≡◌, refl, pos, true, sym, ◌∙◌, inl, inr, Bool-cases, false,
  none, some, [], ◌∷◌, ◌++◌, ◌≤◌, length, arith,
}
use async_event_loop.UnorderedMap.{lookups, assign-HasUniqueKeys, length-assign}
use async_event_loop.ThreadSafeMap.{insert}
use async_event_loop.Heap.{object, put, object-old}
use async_event_loop.Kernel.{Kernel, InterestLaws}
use async_event_loop.SocketUtilities.{close_connection}
use async_event_loop.SocketUtilities.Interest.{Watches}
use async_event_loop.Http.{Headers}
use async_event_loop.Reactor.{EventPriority, finish_track}
use async_event_loop.Connection.{Parser, Conn, World, Callback, store}
use async_event_loop.Application.{Handler}
use async_event_loop.Application.Serving.{
  Owns, Leads, IsServed, Serves, Leads-map, IsServed-map, store-Live, delete-Live,
}

module _ (k : Kernel) (ps : Parser) (order : Headers → Headers) (laws : InterestLaws k) {least : ℕ}
    {due : ℤ → Type 0} where
  -- A system that watches no more than before.
  pub fewer-Serves :
      (w : World k ps Handler) (s' : k.State)
      → ((d : ℤ) (mask : ℕ)
          → k.interest s' w.epollfd_ d ≡ some mask
          → k.interest w.kernel w.epollfd_ d ≡ some mask)
      → Serves k ps order laws least due w
      → Serves k ps order laws least due (record w { kernel = s' })
  fewer-Serves w s' fewer s = record {
    watched = λ d mask i. same_served d (s.watched d mask (fewer d mask i));
    queued = λ d q. same_served d (s.queued d q);
    unique = s.unique;
    descriptors = s.descriptors;
    enough = s.enough;
  }
    where
      same_served :
          (d : ℤ) → IsServed k ps order d w → IsServed k ps order d (record w { kernel = s' })
      same_served d = IsServed-map k ps order d w (record w { kernel = s' }) refl (λ p l. l)

  pub kernel-Serves :
      (w : World k ps Handler) (s' : k.State)
      → ((d : ℤ) → k.interest s' w.epollfd_ d ≡ k.interest w.kernel w.epollfd_ d)
      → Serves k ps order laws least due w
      → Serves k ps order laws least due (record w { kernel = s' })
  kernel-Serves w s' same = fewer-Serves w s' (λ d mask i. sym (same d) ∙ i)

  -- Fewer events in the queue.
  pub due-Serves :
      (later : ℤ → Type 0) (w : World k ps Handler)
      → ((d : ℤ) → later d → due d)
      → Serves k ps order laws least due w
      → Serves k ps order laws least later w
  due-Serves later w f s = record {
    watched = s.watched;
    queued = λ d q. s.queued d (f d q);
    unique = s.unique;
    descriptors = s.descriptors;
    enough = s.enough;
  }

  -- More closures than were asked for.
  pub more-Serves :
      (more : ℕ) (w : World k ps Handler)
      → more ≤ length w.event_callback_.map_
      → Serves k ps order laws least due w
      → Serves k ps order laws more due w
  more-Serves more w le s = record {
    watched = s.watched;
    queued = s.queued;
    unique = s.unique;
    descriptors = s.descriptors;
    enough = le;
  }

  pub store-Serves :
      (p : ℕ) (c c' : Conn k ps Handler) (w : World k ps Handler)
      → object p w.app ≡ some c
      → ((d : ℤ) → Owns k ps order d c → Owns k ps order d c')
      → Serves k ps order laws least due w
      → Serves k ps order laws least due (store k ps p c' w)
  unfolding store
  store-Serves p c c' w o own s = record {
    watched = λ d mask i. still d (s.watched d mask i);
    queued = λ d q. still d (s.queued d q);
    unique = s.unique;
    descriptors = s.descriptors;
    enough = s.enough;
  }
    where
      still : (d : ℤ) → IsServed k ps order d w → IsServed k ps order d (store k ps p c' w)
      still d =
          IsServed-map k ps order d w (store k ps p c' w) refl
            (λ q l. store-Live k ps order p q d c c' w o (own d) l)

  -- The registration of a closure that leads somewhere.
  pub finish_track-Serves :
      (d : ℤ) (mask : ℕ) (prio : EventPriority) (cb : Callback Handler) (w : World k ps Handler)
      (done : ℤ × k.State)
      → Watches k w.epollfd_ d mask w.kernel done
      → Leads k ps order d cb w
      → Serves k ps order laws least due w
      → Serves k ps order laws least due (finish_track k d prio cb w done).1
  unfolding finish_track insert
  finish_track-Serves d mask prio cb w (status, s') (inl (e, f)) lead s = rw e (record {
    watched = λ c m i. elim (Bool-cases (int_eqb d c)) [
      | inl same ↦ own c same
      | inr differs ↦ other c differs (s.watched c m (ground (arith, f c)))
    ];
    queued = λ c q. elim (Bool-cases (int_eqb d c)) [
      | inl same ↦ own c same
      | inr differs ↦ other c differs (s.queued c q)
    ];
    unique = assign-HasUniqueKeys d cb w.event_callback_.map_ s.unique;
    descriptors = λ c b found. elim (Bool-cases (int_eqb d c)) [
      | inl same ↦ laws.watched_descriptor w.epollfd_ c mask s' (f c ∙ rw same)
      | inr differs ↦ s.descriptors c b (grind lookups)
    ];
    enough = ground (arith, length-assign d cb w.event_callback_.map_, s.enough);
  })
    where
      w' : World k ps Handler
      w' = (finish_track k d prio cb w (pos 0, s')).1

      own : (c : ℤ) → int_eqb d c ≡ true → IsServed k ps order c w'
      own c same =
          let e : d ≡ c = (int_eqb_iff d c).0 same in
          (cb, grind lookups, Leads-map k ps order c cb w w' (λ p l. l) (rw (← e) lead))

      other : (c : ℤ) → int_eqb d c ≡ false → IsServed k ps order c w → IsServed k ps order c w'
      other c differs (b, found, l) = (b, grind lookups, Leads-map k ps order c b w w' (λ p l. l) l)
  finish_track-Serves d mask prio cb w (status, s') (inr (e, f)) lead s =
      rw e (kernel-Serves w s' f s)

  pub new-Serves :
      (c : Conn k ps Handler) (w : World k ps Handler)
      → Serves k ps order laws least due w
      → Serves k ps order laws least due (record w { app = w.app ++ (some c ∷ []) })
  new-Serves c w s = record {
    watched = λ d mask i. still d (s.watched d mask i);
    queued = λ d q. still d (s.queued d q);
    unique = s.unique;
    descriptors = s.descriptors;
    enough = s.enough;
  }
    where
      still :
          (d : ℤ)
          → IsServed k ps order d w
          → IsServed k ps order d (record w { app = w.app ++ (some c ∷ []) })
      still d =
          IsServed-map k ps order d w (record w { app = w.app ++ (some c ∷ []) }) refl
            (λ p (b, o, own). (b, object-old p c w.app o, own))

  pub delete-Serves :
      (p : ℕ) (c : Conn k ps Handler) (w : World k ps Handler)
      → object p w.app ≡ some c
      → ¬ due c.socket
      → Serves k ps order laws least due w
      → Serves k ps order laws least due
          (record w { kernel = (close_connection k c.socket w.kernel).1; app = put p none w.app })
  unfolding close_connection
  delete-Serves p c w o not_due s = record {
    watched = λ d mask i.
        still d (ground (arith, laws.close_forgets w.epollfd_ c.socket d w.kernel))
          (s.watched d mask (ground (arith, laws.close_forgets w.epollfd_ c.socket d w.kernel)));
    queued = λ d q. elim (Bool-cases (int_eqb c.socket d)) [
      | inl same ↦
          let e : c.socket ≡ d = (int_eqb_iff c.socket d).0 same in absurd (not_due (rw e q))
      | inr differs ↦ still d differs (s.queued d q)
    ];
    unique = s.unique;
    descriptors = s.descriptors;
    enough = s.enough;
  }
    where
      w' : World k ps Handler
      w' = record w { kernel = (close_connection k c.socket w.kernel).1; app = put p none w.app }

      still :
          (d : ℤ) → int_eqb c.socket d ≡ false → IsServed k ps order d w → IsServed k ps order d w'
      still d other =
          IsServed-map k ps order d w w' refl
            (λ q l. delete-Live k ps order p q d c w w'.kernel o other l)
