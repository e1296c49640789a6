-- ===== src/Application/Visit/Writing.antt =====
-- src/server.cpp over `reactorRun` of include/reactor.h: the rounds of the loop that send an answer.
use mathlib.Core.Path.{subst}
use async_event_loop.Base.{
  int_eq, ℕ, suc, ℤ, ◌+◌, ◌<◌, ◌≤◌, ◌≡◌, refl, ap, ◌∙◌, inl, inr, some, [], Bytes, arith, length,
  take, ◌++◌,
}
use async_event_loop.UnorderedMap.{find}
use async_event_loop.Outcome.{Outcome, ok, ◌>>=◌}
use async_event_loop.Heap.{object}
use async_event_loop.Kernel.{Kernel, SendLaws, StreamLaws, Event}
use async_event_loop.Http.{Headers}
use async_event_loop.Reactor.{EventQueue, reactor_run}
use async_event_loop.Reactor.Single.{IsWaiting, Single, single}
use async_event_loop.Connection.{Parser, Conn, Callback, handling, load_live, store}
use async_event_loop.Connection.Handling.{transmit, handle_event}
use async_event_loop.Connection.Progress.{IsCalm, transmit-Advances}
use async_event_loop.Connection.Sending.{unsent}
use async_event_loop.Server.{run_closure}
use async_event_loop.Application.{Handler, on_sent, on_send_error, call}
use async_event_loop.Application.Arrival.{
  W, Arrives, IsSending, kept-IsSending, sent-Arrives, part-IsSending,
}
use async_event_loop.Application.Visit.Draining.{
  Drains, IsWritable, Leaves, gone, over, round, run, woke,
}

module _ (k : Kernel) (sending : SendLaws k) (ps : Parser) (order : Headers → Headers)
    (pq : EventQueue) (fuel : ℕ) (streams : StreamLaws k) where
  abbrev Runs : Callback Handler → Event → W k ps order → Outcome (W k ps order)
  Runs = run k ps order pq fuel

  abbrev Woke : W k ps order → W k ps order
  Woke = woke k ps order pq fuel

  handle_event-transmits :
      (p : ℕ) (ev : Event) (success error : Handler) (w : W k ps order) {c : Conn k ps Handler}
      → object p w.app ≡ some c
      → (d : ℤ) → IsWritable k ps order pq fuel d ev
      → Runs (handling p success error) ev w ≡ transmit k ps (call k ps order) p success error w
  unfolding run_closure handle_event
  handle_event-transmits p ev success error w o d (on, no_err, no_in, out) =
      rw (load_live k ps p w o, no_err, no_in, out)

  -- A round at the end of which the connection is gone.
  last_round :
      (p n : ℕ) (d : ℤ) (bs : Bytes) (ev : Event) (q : pq.Queue) (w : W k ps order)
      → Single k pq Runs q w (handling p on_sent on_send_error) ev
      → Runs (handling p on_sent on_send_error) ev (Woke w)
        ≡ transmit k ps (call k ps order) p on_sent on_send_error (Woke w)
      → Arrives k ps order p d bs (transmit k ps (call k ps order) p on_sent on_send_error (Woke w))
      → Leaves k ps order pq fuel p d bs (suc n) q w
  last_round p n d bs ev q w one runs a = record {
    rounds = 1;
    within = omega arith;
    last = one.last;
    is_empty = one.is_empty;
    world = a.world;
    kernel = a.kernel;
    continues = λ more.
        ap (λ n. reactor_run k pq Runs (suc n) q w) (omega arith)
        ∙ one.continues more
        ∙ ap (λ m. m >>= (λ w'. reactor_run k pq Runs (suc more) one.last w')) (runs ∙ a.ends);
    gone = a.gone;
    closed = a.closed;
    out = a.out;
  }

  -- A round in front of others.
  pub first_round :
      (p n : ℕ) (d : ℤ) (bs : Bytes) (cb : Callback Handler) (ev : Event) (q : pq.Queue)
      (w w' : W k ps order) (one : Single k pq Runs q w cb ev)
      → Runs cb ev (Woke w) ≡ ok w'
      → Leaves k ps order pq fuel p d bs n one.last w'
      → Leaves k ps order pq fuel p d bs (suc n) q w
  first_round p n d bs cb ev q w w' one runs rest = record {
    rounds = suc rest.rounds;
    within = omega (arith, rest.within);
    last = rest.last;
    is_empty = rest.is_empty;
    world = rest.world;
    kernel = rest.kernel;
    continues = λ more.
        ap (λ n. reactor_run k pq Runs (suc n) q w) (omega arith)
        ∙ one.continues (rest.rounds + more)
        ∙ ap (λ m. m >>= (λ v. reactor_run k pq Runs (suc (rest.rounds + more)) one.last v)) runs
        ∙ rest.continues more;
    gone = rest.gone;
    closed = rest.closed;
    out = rest.out;
  }

  -- The loop waits, with a connection on the socket `d` that is sending.
  pub record IsLeaving (p : ℕ) (d : ℤ) (c : Conn k ps Handler) (bs : Bytes) (q : pq.Queue)
      (w : W k ps order) : Type 0 where
    pub sends : IsSending k sending ps order p c bs w
    pub calm : IsCalm k ps c
    pub on_socket : c.socket ≡ d
    pub waiting : IsWaiting k pq Runs q w
    pub found : find d w.event_callback_.map_ ≡ some (handling p on_sent on_send_error)

  woke-IsSending :
      (p : ℕ) (c : Conn k ps Handler) (bs : Bytes) (w : W k ps order)
      → IsSending k sending ps order p c bs w
      → IsSending k sending ps order p c bs (Woke w)
  woke-IsSending p c bs w =
      kept-IsSending k sending ps order p c w (Woke w) bs refl
        (streams.wait_sends_nothing w.epollfd_ c.socket w.max_events_ w.kernel)

  -- The connection after a part has been sent.
  part-IsLeaving :
      (p i : ℕ) (d : ℤ) (c : Conn k ps Handler) (bs : Bytes) (q last : pq.Queue) (w : W k ps order)
      (s' : k.State)
      → IsLeaving p d c bs q w
      → pq.items last ≡ []
      → c.sent_bytes + suc i < length c.send_buffer
      → k.outgoing s' c.socket ≡ k.outgoing (Woke w).kernel c.socket ++ take (suc i) (unsent k ps c)
      → let c' : Conn k ps Handler = record c { sent_bytes = c.sent_bytes + suc i } in
        IsLeaving p d c' bs last (store k ps p c' (record (Woke w) { kernel = s' }))
  unfolding store
  part-IsLeaving p i d c bs q last w s' l empty less out = record {
    sends =
        part-IsSending k sending ps order p i c (Woke w) bs s' (woke-IsSending p c bs w l.sends)
          less out;
    calm = l.calm;
    on_socket = l.on_socket;
    waiting = record { is_empty = empty; some_left = l.waiting.some_left; small = l.waiting.small };
    found = l.found;
  }

  pub leave :
      (p : ℕ) (d : ℤ) (bs : Bytes) (n : ℕ) (c : Conn k ps Handler) (q : pq.Queue) (w : W k ps order)
      → IsLeaving p d c bs q w
      → length bs ≤ c.sent_bytes + n
      → Drains k ps order pq fuel p d n w
      → Leaves k ps order pq fuel p d bs n q w
  leave p d bs n c q w l enough over = absurd (omega (arith, l.sends.part))
  leave p d bs n c q w l enough (gone none_left) =
      let live : object p w.app ≡ some c = l.sends.live in cc
  leave p d bs n c q w l enough (round {n = rest} ev told on takes next) =
      let (m, e) = takes c l.sends.live in
      let one : Single k pq Runs q w (handling p on_sent on_send_error) ev =
        single k pq Runs q w (handling p on_sent on_send_error) ev l.waiting told
          (rw on.0 l.found) in
      let still = woke-IsSending p c bs w l.sends in
      let runs = handle_event-transmits p ev on_sent on_send_error (Woke w) still.live d on in
      let advanced =
        transmit-Advances k sending ps (call k ps order) p m c on_sent on_send_error (Woke w)
          still.live l.calm (rw still.buffer still.part) (rw l.on_socket e) in
      elim advanced.how [
        | inl (ran, out) ↦ last_round p rest d bs ev q w one runs (
            subst
              (λ x.
                Arrives k ps order p x bs
                  (transmit k ps (call k ps order) p on_sent on_send_error (Woke w)))
              l.on_socket
              (sent-Arrives k sending ps order p c (Woke w) bs still advanced.kernel ran out))
        | inr (i, ran, less, out) ↦ first_round p rest d bs _ ev q w _ one (runs ∙ ran) (
            leave p d bs rest (record c { sent_bytes = c.sent_bytes + suc i }) one.last _
              (part-IsLeaving p i d c bs q one.last w advanced.kernel l one.is_empty less out)
              (omega arith) (next _ ran))
      ]
