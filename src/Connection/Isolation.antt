-- ===== src/Connection/Isolation.antt =====
-- include/connection_types.h: what an event on one connection leaves alone, which is all of the others.
pub mod Sending
pub mod Events
use async_event_loop.Base.{
  int_tests, int_eq, int_eqb_iff, ℕ, ℤ, ◌≡◌, ◌≢◌, refl, sym, ap, ◌∙◌, inl, inr, Bool-cases, failed,
  Option, some, none, arith,
}
use async_event_loop.UnorderedMap.{find, find-assign}
use async_event_loop.ThreadSafeMap.{insert}
use async_event_loop.Outcome.{Outcome, ok, ◌>>=◌, Returns}
use async_event_loop.Heap.{object, put, object-put_self, object-put_ne}
use async_event_loop.Kernel.{Kernel, SendLaws, StreamLaws}
use async_event_loop.Kernel.Flags.{epoll_ctl_mod}
use async_event_loop.SocketUtilities.{modify_epoll_interest, close_connection}
use async_event_loop.Reactor.{EventPriority, finish_track, modify_track}
use async_event_loop.Connection.{Parser, Conn, World, Callback, load, store, delete_connection}

module _ (k : Kernel) (ps : Parser) {Handler : Type 0} where
  module _ (p : ℕ) (d : ℤ) (w0 : World k ps Handler) where
    -- The connection at `p` is on the socket `d` if it is there, and as to all the rest nothing has
    -- changed since `w0`: the other connections, what has been sent on other sockets, and the closures
    -- and priorities of other descriptors.
    pub record Others (w : World k ps Handler) : Type 0 where
      pub own : (c : Conn k ps Handler) → object p w.app ≡ some c → c.socket ≡ d
      pub connections : (q : ℕ) → p ≢ q → object q w.app ≡ object q w0.app
      pub streams : (e : ℤ) → d ≢ e → k.outgoing w.kernel e ≡ k.outgoing w0.kernel e
      pub closures :
          (e : ℤ) → d ≢ e → find e w.event_callback_.map_ ≡ find e w0.event_callback_.map_
      pub priorities :
          (e : ℤ) → d ≢ e → find e w.event_priority_.map_ ≡ find e w0.event_priority_.map_

    pub kernel-Others :
        (w : World k ps Handler) (s : k.State)
        → ((e : ℤ) → d ≢ e → k.outgoing s e ≡ k.outgoing w.kernel e)
        → Others w
        → Others (record w { kernel = s })
    kernel-Others w s same o = record {
      own = o.own;
      connections = o.connections;
      streams = λ e other. same e other ∙ o.streams e other;
      closures = o.closures;
      priorities = o.priorities;
    }

    pub store-Others :
        (c : Conn k ps Handler) {old : Conn k ps Handler} (w : World k ps Handler)
        → object p w.app ≡ some old
        → c.socket ≡ d
        → Others w
        → Others (store k ps p c w)
    unfolding store
    store-Others c {old} w live on o = record {
      own = λ b e.
          let same : some c ≡ some b = sym (object-put_self p (some c) w.app live) ∙ e in
          let eq : c ≡ b = cc in rw (← eq) on;
      connections = λ q other. object-put_ne p q (some c) w.app other ∙ o.connections q other;
      streams = o.streams;
      closures = o.closures;
      priorities = o.priorities;
    }

    -- A live connection is read.
    pub load-Returns :
        {B : Type 0} (Q : B → Type 0) (w : World k ps Handler) (f : Conn k ps Handler → Outcome B)
        → ((c : Conn k ps Handler) → object p w.app ≡ some c → Returns Q (f c))
        → Returns Q (load k ps p w >>= f)
    unfolding load
    load-Returns Q w f h = go (object p w.app) refl
      where
        go : (o : Option (Conn k ps Handler)) → object p w.app ≡ o → Returns Q (load k ps p w >>= f)
        go (some c) e = rw (e, load) (h c e)
        go none e = rw (e, load) tt

  module _ (sending : SendLaws k) (streams : StreamLaws k) (p : ℕ) (d : ℤ)
      (w0 : World k ps Handler) where
    pub delete-Others :
        (w : World k ps Handler)
        → Others p d w0 w
        → Returns (Others p d w0) (delete_connection k ps p w)
    unfolding delete_connection close_connection
    delete-Others w o = load-Returns p d w0 (Others p d w0) w _ λ c live. record {
      own = λ b e. let gone : none ≡ some b = sym (object-put_self p none w.app live) ∙ e in cc;
      connections = λ q other. object-put_ne p q none w.app other ∙ o.connections q other;
      streams = λ e other.
          streams.close_alone c.socket e w.kernel (λ same. other (sym (o.own c live) ∙ same))
          ∙ o.streams e other;
      closures = o.closures;
      priorities = o.priorities;
    }

    finish_track-Others :
        (prio : EventPriority) (cb : Callback Handler) (w : World k ps Handler) (done : ℤ × k.State)
        → ((e : ℤ) → k.outgoing done.1 e ≡ k.outgoing w.kernel e)
        → Others p d w0 w
        → Others p d w0 (finish_track k d prio cb w done).1
    unfolding finish_track insert
    finish_track-Others prio cb w (status, s) same o = elim (Bool-cases (failed status)) [
      | inl bad ↦ rw (bad, finish_track) (kernel-Others p d w0 w s (λ e other. same e) o)
      | inr good ↦
          rw (good, finish_track)
            (record {
              own = o.own;
              connections = o.connections;
              streams = λ e other. same e ∙ o.streams e other;
              closures = λ e other.
                  find-assign d e cb w.event_callback_.map_
                  ∙ ground (arith, int_eqb_iff d e, o.closures e other);
              priorities = λ e other.
                  find-assign d e prio w.event_priority_.map_
                  ∙ ground (arith, int_eqb_iff d e, o.priorities e other);
            })
    ]

    pub modify_track-Others :
        (mask : ℕ) (prio : EventPriority) (cb : Callback Handler) (w : World k ps Handler)
        → Others p d w0 w
        → Others p d w0 (modify_track k d mask prio cb w).1
    unfolding modify_track modify_epoll_interest
    modify_track-Others mask prio cb w o =
        finish_track-Others prio cb w _
          (λ e.
            sending.ctl_sends_nothing w.epollfd_ epoll_ctl_mod d e
              (some (record { events = mask; fd = d })) w.kernel)
          o
