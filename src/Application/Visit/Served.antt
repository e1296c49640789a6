-- ===== src/Application/Visit/Served.antt =====
-- src/server.cpp over `reactorRun` of include/reactor.h: a client is served.
use mathlib.Core.List.{Perm}
use async_event_loop.Base.{
  int_tests, int_eq, ℕ, suc, ℤ, ◌<◌, ◌≤◌, ◌^◌, ◌≡◌, sym, ◌∙◌, some, [], bytes_eq, arith, length,
}
use mathlib.Core.Path.{subst}
use async_event_loop.UnorderedMap.{lookups, find, find-assign}
use async_event_loop.ThreadSafeMap.{insert}
use async_event_loop.Outcome.{Outcome, ok}
use async_event_loop.Heap.{object-new}
use async_event_loop.Kernel.{Kernel, SendLaws, StreamLaws, Event}
use async_event_loop.Http.{Headers, new_request}
use async_event_loop.Http.Response.Reader.{read_response}
use async_event_loop.Reactor.{EventQueue}
use async_event_loop.Reactor.Single.{IsWaiting, Single, single}
use async_event_loop.Connection.{Parser, Callback, accepting, handling}
use async_event_loop.Connection.Progress.{Waits, IsCalm}
use async_event_loop.Application.{
  Handler, on_request, on_client_error, on_sent, on_send_error, response_of, page, bytes,
}
use async_event_loop.Application.Answers.{read_back}
use async_event_loop.Application.Serving.{answer}
use async_event_loop.Application.Arrival.{W}
use async_event_loop.Application.Visit.Writing.{IsLeaving, first_round, leave}
use async_event_loop.Application.Visit.Draining.{run, woke, Drains, Leaves}
use async_event_loop.Application.Visit.Coming.{
  newcomer, accepted, Connects, Asks, Answered, Connects-accepted, accepted-IsWaiting,
  Asks-Answered,
}

module _ (k : Kernel) (sending : SendLaws k) (ps : Parser) (order : Headers → Headers)
    (pq : EventQueue) (fuel : ℕ) (streams : StreamLaws k) where
  abbrev Runs : Callback Handler → Event → W k ps order → Outcome (W k ps order)
  Runs = run k ps order pq fuel

  abbrev Wakes : W k ps order → W k ps order
  Wakes = woke k ps order pq fuel

  insert-found :
      (d : ℤ) (cb : Callback Handler) (w : W k ps order)
      → find d (insert d cb w.event_callback_).map_ ≡ some cb
  unfolding insert
  insert-found d cb w = find-assign d d cb w.event_callback_.map_ ∙ grind int_tests

  Answered-IsLeaving :
      (client : ℤ) (n p : ℕ) (event : Event) (system : k.State) (q last : pq.Queue)
      (w : W k ps order) (a : Answered k sending ps order pq fuel streams client n p event system w)
      → IsWaiting k pq Runs q w
      → pq.items last ≡ []
      → find client w.event_callback_.map_ ≡ some (handling p on_request on_client_error)
      → IsCalm k ps (newcomer k ps order client)
      → IsLeaving k sending ps order pq fuel streams p client a.conn (answer order) last a.world
  unfolding insert
  Answered-IsLeaving client n p event system q last w a waiting empty known calm = record {
    sends = a.sends;
    calm = λ bs s. subst (λ d. Waits (k.send d bs s).0) (sym a.on_socket) (calm bs s);
    on_socket = a.on_socket;
    waiting = record {
      is_empty = empty;
      some_left = rw a.callbacks (grind lookups);
      small = rw a.callbacks (grind lookups);
    };
    found = rw a.callbacks (insert-found client (handling p on_sent on_send_error) w);
  }

  -- A client is served by the event loop from its connection to its answer. The loop waits with an
  -- empty queue, and the closure of the socket `sock` leads to new clients. In the next round a client
  -- connects; in the round after it the client sends a request, in `n` pieces that the parser takes
  -- without an error, the end of the message behind the last; and in as many further rounds as the
  -- answer has bytes, as long as the connection is there, the client's socket is writable and `send`
  -- takes a byte at least, failing only for a while. Then within these rounds the server accepts the
  -- client, reads the request, sends exactly the answer, which a client reads as the page, deletes the
  -- connection and closes its socket, and the loop goes on with an empty queue. The map of the closures
  -- has room for one more, the loop over `recv` one round more than there are pieces.
  pub visit-Leaves :
      (permutes : (hs : Headers) → Perm (order hs) hs) (sock client : ℤ) (s : k.State) (n m : ℕ)
      (q : pq.Queue) (w : W k ps order)
      → IsWaiting k pq Runs q w
      → suc (length w.event_callback_.map_) < 2 ^ 31
      → find sock w.event_callback_.map_ ≡ some (accepting on_request on_client_error)
      → (v : Connects k ps order pq fuel sock client s w)
      → let w1 = accepted k ps order client s (Wakes w) in
        (u : Asks k ps order pq fuel client n w1)
        → suc n ≤ fuel
        → IsCalm k ps (newcomer k ps order client)
        → length (answer order) ≤ m
        → ((w2 : W k ps order)
            → Runs (handling (length w.app) on_request on_client_error) u.event (Wakes w1) ≡ ok w2
            → Drains k ps order pq fuel (length w.app) client m w2)
        → Leaves k ps order pq fuel (length w.app) client (answer order) (suc (suc m)) q w
          × (read_response (answer order)
              ≡ some (record {
                version = bytes "1.1";
                status_code = bytes "200";
                status_message = bytes "OK";
                headers = order (response_of new_request).headers;
                body = page;
              }))
  visit-Leaves permutes sock client s n m q w waiting room known v u le calm enough drains =
      let p : ℕ = length w.app in
      let cb : Callback Handler = handling p on_request on_client_error in
      let w1 : W k ps order = accepted k ps order client s (Wakes w) in
      let one : Single k pq Runs q w (accepting on_request on_client_error) v.event =
        single k pq Runs q w (accepting on_request on_client_error) v.event waiting v.told
          (rw v.readable.0 known) in
      let waiting1 =
        accepted-IsWaiting k sending ps order pq fuel streams client s one.last q w waiting room
          one.is_empty in
      let found = insert-found client cb (Wakes w) in
      let two : Single k pq Runs one.last w1 cb u.event =
        single k pq Runs one.last w1 cb u.event waiting1 u.told (rw u.readable.0 found) in
      let a =
        Asks-Answered k sending ps order pq fuel streams client n p w1
          (object-new (newcomer k ps order client) w.app) u le in
      (
        first_round k sending ps order pq fuel streams p (suc m) client (answer order) _ v.event q w
            w1 one (Connects-accepted k sending ps order pq fuel streams sock client s w v)
            (first_round k sending ps order pq fuel streams p m client (answer order) _ u.event
              one.last w1 a.world two a.runs
              (leave k sending ps order pq fuel streams p client (answer order) m a.conn two.last
                a.world
                (Answered-IsLeaving client n p u.event u.system one.last two.last w1 a waiting1
                  two.is_empty found calm)
                (omega arith) (drains a.world a.runs))),
        read_back order new_request permutes,
      )
