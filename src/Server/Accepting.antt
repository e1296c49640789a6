-- ===== src/Server/Accepting.antt =====
-- include/listening_server.h, the closure of `listen`: what a new client leaves alone.
use async_event_loop.Base.{
  int_eq, int_eqb, int_eqb_iff, failed, ℕ, ℤ, ◌≡◌, ◌≢◌, ◌⊎◌, ◌||◌, refl, ◌∙◌, inl, inr, Bool-cases,
  Bool, some, none, [], ◌∷◌, ◌++◌, arith, length,
}
use async_event_loop.UnorderedMap.{find, find-assign}
use async_event_loop.ThreadSafeMap.{insert}
use async_event_loop.Outcome.{ok}
use async_event_loop.Heap.{object, object-old}
use async_event_loop.Kernel.{Kernel, Event, SendLaws, StreamLaws}
use async_event_loop.Kernel.Flags.{epollin, epollerr, has, epoll_ctl_add, af_inet, af_inet6}
use async_event_loop.SocketUtilities.{accept_connection, add_epoll_interest}
use async_event_loop.Http.{new_request}
use async_event_loop.Reactor.{EventPriority, new_sock, finish_track, add_track}
use async_event_loop.Connection.{Parser, Conn, World, Callback, accepting, handling, new_connection}
use async_event_loop.Connection.Interface.{Connection}
use async_event_loop.Server.{accept_mask, accept_one, run_closure}

module _ (k : Kernel) (ps : Parser) {Handler : Type 0} where
  -- The connection object that is made for the descriptor `d`.
  abbrev pub connection_on : ℤ → Handler → Handler → Conn k ps Handler
  connection_on d cb err = record {
    socket = d;
    request = new_request;
    response = none;
    parser = ps.init;
    sent_bytes = 0;
    send_buffer = [];
    cb = cb;
    err = err;
  }

  -- From `w` to `w'` nothing has changed but for the descriptor `d`: every connection that was there is
  -- there, and at most one has been added, which is new and on `d`.
  pub record Welcomes (d : ℤ) (cb err : Handler) (w w' : World k ps Handler) : Type 0 where
    pub connections :
        (q : ℕ) {c : Conn k ps Handler} → object q w.app ≡ some c → object q w'.app ≡ some c
    pub added : (w'.app ≡ w.app) ⊎ (w'.app ≡ w.app ++ (some (connection_on d cb err) ∷ []))
    pub streams : (e : ℤ) → d ≢ e → k.outgoing w'.kernel e ≡ k.outgoing w.kernel e
    pub closures : (e : ℤ) → d ≢ e → find e w'.event_callback_.map_ ≡ find e w.event_callback_.map_
    pub priorities :
        (e : ℤ) → d ≢ e → find e w'.event_priority_.map_ ≡ find e w.event_priority_.map_

module _ (k : Kernel) (streams : StreamLaws k) where
  accept_connection-streams :
      (sock e : ℤ) (s : k.State)
      → (accept_connection k sock s).0 ≢ e
      → k.outgoing (accept_connection k sock s).1 e ≡ k.outgoing s e
  unfolding accept_connection
  accept_connection-streams sock e s = elim (Bool-cases (failed newfd)) [
    | inl bad ↦ rw bad (λ other. streams.accept_sends_nothing sock e s)
    | inr good ↦ elim (Bool-cases (failed (k.set_nonblock newfd s1).0)) [
      | inl refused ↦ rw (good, refused) (λ other. two)
      | inr set ↦ elim (Bool-cases known) [
        | inl internet ↦ rw (good, set, internet) (λ other. two)
        | inr unknown ↦ rw (good, set, unknown) (λ other. streams.close_alone newfd e _ other ∙ two)
      ]
    ]
  ]
    where
      newfd : ℤ
      newfd = (k.accept sock s).0.0

      s1 : k.State
      s1 = (k.accept sock s).1

      known : Bool
      known = int_eqb (k.accept sock s).0.1 af_inet || int_eqb (k.accept sock s).0.1 af_inet6

      two : k.outgoing (k.set_nonblock newfd s1).1 e ≡ k.outgoing s e
      two = streams.nonblock_sends_nothing newfd e s1 ∙ streams.accept_sends_nothing sock e s

module _ (k : Kernel) (sending : SendLaws k) (streams : StreamLaws k) (ps : Parser)
    {Handler : Type 0} where
  finish_track-Welcomes :
      (d : ℤ) (cb err : Handler) (prio : EventPriority) (closure : Callback Handler)
      (w : World k ps Handler) (t : k.State) (done : ℤ × k.State)
      → ((e : ℤ) → d ≢ e → k.outgoing done.1 e ≡ k.outgoing w.kernel e)
      → Welcomes k ps d cb err w
          (finish_track k d prio closure
            (record w { kernel = t; app = w.app ++ (some (connection_on k ps d cb err) ∷ []) })
            done).1
  unfolding finish_track insert
  finish_track-Welcomes d cb err prio closure w t (status, s) same =
      elim (Bool-cases (failed status)) [
        | inl bad ↦
            rw (bad, finish_track)
              (record {
                connections = λ q {c} live. object-old q _ w.app live;
                added = inr refl;
                streams = same;
                closures = λ e other. refl;
                priorities = λ e other. refl;
              })
        | inr good ↦
            rw (good, finish_track)
              (record {
                connections = λ q {c} live. object-old q _ w.app live;
                added = inr refl;
                streams = same;
                closures = λ e other.
                    find-assign d e closure w.event_callback_.map_
                    ∙ ground (arith, int_eqb_iff d e, other);
                priorities = λ e other.
                    find-assign d e prio w.event_priority_.map_
                    ∙ ground (arith, int_eqb_iff d e, other);
              })
      ]

  accept_one-Welcomes :
      (ev : Event) (cb err : Handler) (w : World k ps Handler)
      → Welcomes k ps (accept_connection k ev.fd w.kernel).0 cb err w (accept_one k ps ev cb err w)
  unfolding accept_one new_connection add_track add_epoll_interest
  accept_one-Welcomes ev cb err w =
      elim (Bool-cases (failed (accept_connection k ev.fd w.kernel).0)) [
        | inl bad ↦
            rw (bad, accept_one)
              (record {
                connections = λ q {c} live. live;
                added = inl refl;
                streams = accepted;
                closures = λ e other. refl;
                priorities = λ e other. refl;
              })
        | inr good ↦
            rw (good, accept_one)
              (finish_track-Welcomes d cb err new_sock (handling (length w.app) cb err) w s'
                (add_epoll_interest k w.epollfd_ d accept_mask s')
                (λ e other.
                  sending.ctl_sends_nothing w.epollfd_ epoll_ctl_add d e
                    (some (record { events = accept_mask; fd = d })) s'
                  ∙ accepted e other))
      ]
    where
      d : ℤ
      d = (accept_connection k ev.fd w.kernel).0

      s' : k.State
      s' = (accept_connection k ev.fd w.kernel).1

      accepted : (e : ℤ) → d ≢ e → k.outgoing s' e ≡ k.outgoing w.kernel e
      accepted e = accept_connection-streams k streams ev.fd e w.kernel

  ignored-Welcomes :
      (d : ℤ) (cb err : Handler) (w : World k ps Handler) → Welcomes k ps d cb err w w
  ignored-Welcomes d cb err w = record {
    connections = λ q {c} live. live;
    added = inl refl;
    streams = λ e other. refl;
    closures = λ e other. refl;
    priorities = λ e other. refl;
  }

  -- A new client does not get in the way of those that are there. The closure of the listening socket
  -- always returns, whatever the event and however the calls of the system end. Every connection is as it
  -- was before, at most one has been added, a new one on the descriptor that was accepted, and but for
  -- that descriptor nothing has been sent on a socket and no closure and no priority has changed.
  pub run_closure-Welcomes :
      (connection : ℕ → Connection (World k ps Handler) Handler) (cb err : Handler) (ev : Event)
      (w : World k ps Handler)
      → (w' : World k ps Handler) × (run_closure k ps connection (accepting cb err) ev w ≡ ok w')
        × Welcomes k ps (accept_connection k ev.fd w.kernel).0 cb err w w'
  unfolding run_closure
  run_closure-Welcomes connection cb err ev w = elim (Bool-cases (has ev.events epollerr)) [
    | inl bad ↦ (w, rw bad, ignored-Welcomes _ cb err w)
    | inr fine ↦ elim (Bool-cases (has ev.events epollin)) [
      | inl in_ev ↦ (accept_one k ps ev cb err w, rw (fine, in_ev), accept_one-Welcomes ev cb err w)
      | inr none_new ↦ (w, rw (fine, none_new), ignored-Welcomes _ cb err w)
    ]
  ]
