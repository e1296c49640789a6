-- ===== src/Standalone/Reuse.antt =====
-- src/temp.cpp: a descriptor that the system gives out again after a client has gone.
use async_event_loop.Base.{
  int_eq, ℕ, suc, ℤ, pos, ◌≡◌, sym, ap, ◌∙◌, ◌||◌, true, false, Option, none, some, List, [], ◌∷◌,
  ◌++◌, Bytes, arith, length,
}
use async_event_loop.UnorderedMap.{find}
use async_event_loop.Outcome.{ok, fault, use_after_free, ◌>>=◌}
use async_event_loop.Heap.{
  object, put, object-new, object-put_self, object-bound, length-put, object-append,
}
use async_event_loop.Kernel.{Kernel, Event, received}
use async_event_loop.Kernel.Flags.{epollin, epollerr, epollhup, epollrdhup, has}
use async_event_loop.Standalone.{
  Requests, returned, Standalone, buffer_size, insert_new, lookup_fd, lookup_found,
  handle_new_connection, delete_object, disconnect, append_request, recv_all,
  handle_already_connected, after_recv,
}
use async_event_loop.Standalone.Receiving.{readable}

insert_new-taken :
    (d : ℤ) (p : Option ℕ) (m : List (ℤ × Option ℕ)) {q : Option ℕ}
    → find d m ≡ some q
    → insert_new d p m ≡ m
unfolding insert_new
insert_new-taken d p m e = rw (e, insert_new)

module _ (k : Kernel) (rs : Requests k) where
  -- The server after a client has been disconnected.
  abbrev gone : ℤ → ℕ → rs.HttpConnection → Standalone k rs → Standalone k rs
  gone d p c s = record s {
    kernel = (k.close d (rs.destroyed c s.kernel)).1;
    connections = put p none s.connections;
  }

  hung_up :
      (fuel : ℕ) (ev : Event) (p : ℕ) (c : rs.HttpConnection) (s : Standalone k rs)
      → find ev.fd s.fd_map ≡ some (some p)
      → object p s.connections ≡ some c
      → has ev.events epollhup ≡ true
      → handle_already_connected k rs fuel ev s ≡ ok (gone ev.fd p c s)
  unfolding handle_already_connected lookup_fd disconnect delete_object
  hung_up fuel ev p c s f o h =
      rw (lookup_found ev.fd s.fd_map f, h, o, handle_already_connected, disconnect, delete_object)

  -- A new connection on a descriptor that `fd_map` has.
  new_connection_taken :
      (sockfd epollfd d : ℤ) (q : Option ℕ) (s s' : Standalone k rs)
      → find d s.fd_map ≡ some q
      → handle_new_connection k rs sockfd epollfd s ≡ (returned (pos 0), s')
      → (k.accept sockfd s.kernel).0.0 ≡ d
      → (s'.fd_map ≡ s.fd_map) × (s'.connections ≡ s.connections ++ (some (rs.fresh d) ∷ []))
  unfolding handle_new_connection
  new_connection_taken sockfd epollfd d q s s' f h a =
      ground (arith, insert_new-taken d (some (length s.connections)) s.fd_map f)

  freed_recv :
      (fuel : ℕ) (d : ℤ) (p b : ℕ) (bs : Bytes) (s : Standalone k rs)
      → object p s.connections ≡ none
      → (k.recv d buffer_size s.kernel).0 ≡ received b bs
      → recv_all k rs (suc fuel) d (some p) s ≡ fault use_after_free
  unfolding recv_all append_request
  freed_recv fuel d p b bs s o r = rw (r, recv_all, o, append_request)

  freed_read :
      (fuel : ℕ) (ev : Event) (p b : ℕ) (bs : Bytes) (s : Standalone k rs)
      → find ev.fd s.fd_map ≡ some (some p)
      → object p s.connections ≡ none
      → (has ev.events epollhup || has ev.events epollerr || has ev.events epollrdhup) ≡ false
      → has ev.events epollin ≡ true
      → (k.recv ev.fd buffer_size s.kernel).0 ≡ received b bs
      → handle_already_connected k rs (suc fuel) ev s ≡ fault use_after_free
  freed_read fuel ev p b bs s f o no_hup in_ev r =
      readable k rs (suc fuel) ev p s f no_hup in_ev
      ∙ ap (λ x. x >>= after_recv k rs ev.fd (some p)) (freed_recv fuel ev.fd p b bs s o r)

  freed_after_new :
      (p : ℕ) (s s1 s2 : Standalone k rs) (c new : rs.HttpConnection)
      → object p s.connections ≡ some c
      → s1.connections ≡ put p none s.connections
      → s2.connections ≡ s1.connections ++ (some new ∷ [])
      → (object p s2.connections ≡ none)
        × (object (length s1.connections) s2.connections ≡ some new)
  freed_after_new p s s1 s2 c new o e n = (
    rw (n, e)
        (object-append p (put p none s.connections) (some new ∷ [])
            (omega (arith, object-bound p s.connections o, length-put p none s.connections))
          ∙ object-put_self p none s.connections o),
    rw n (object-new new s1.connections),
  )

  -- A client hangs up; the server deletes its object and closes its descriptor. The system gives
  -- the descriptor to the next client, for which the server makes an object that is live. When the
  -- next client sends something, the server uses the object that it has deleted.
  pub reused_descriptor_use_after_free :
      (fuel fuel' : ℕ) (sockfd epollfd : ℤ) (ev ev' : Event) (p b : ℕ) (bs : Bytes)
      (c : rs.HttpConnection) (s s1 s2 : Standalone k rs)
      → find ev.fd s.fd_map ≡ some (some p)
      → object p s.connections ≡ some c
      → has ev.events epollhup ≡ true
      → handle_already_connected k rs fuel ev s ≡ ok s1
      → (k.accept sockfd s1.kernel).0.0 ≡ ev.fd
      → handle_new_connection k rs sockfd epollfd s1 ≡ (returned (pos 0), s2)
      → ev'.fd ≡ ev.fd
      → (has ev'.events epollhup || has ev'.events epollerr || has ev'.events epollrdhup) ≡ false
      → has ev'.events epollin ≡ true
      → (k.recv ev'.fd buffer_size s2.kernel).0 ≡ received b bs
      → (object (length s1.connections) s2.connections ≡ some (rs.fresh ev.fd))
        × (handle_already_connected k rs (suc fuel') ev' s2 ≡ fault use_after_free)
  reused_descriptor_use_after_free fuel fuel' sockfd epollfd ev ev' p b bs c s s1 s2 f o hup h1 a h2
        same no_hup in_ev r =
      let e1 : ok s1 ≡ ok (gone ev.fd p c s) = sym h1 ∙ hung_up fuel ev p c s f o hup in
      let e : s1 ≡ gone ev.fd p c s = cc in
      let (m, n) = new_connection_taken sockfd epollfd ev.fd (some p) s1 s2 (rw e f) h2 a in
      let (freed, live) =
        freed_after_new p s s1 s2 c (rs.fresh ev.fd) o (ap (λ x. x.connections) e) n in
      (live, freed_read fuel' ev' p b bs s2 (rw (same, m, e) f) freed no_hup in_ev r)
