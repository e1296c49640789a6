-- ===== src/Standalone/Clients.antt =====
-- src/temp.cpp, `handleAlreadyConnected`: an event of a client keeps the server in order.
use async_event_loop.Standalone.Handlers.{WatchesNothingMore}
use async_event_loop.Base.{
  int_tests, int_eq, ℕ, zero, suc, ℤ, ◌≡◌, refl, sym, ◌∙◌, inl, inr, Bool, Bool-cases, none, some,
  ◌∷◌, Bytes, arith, ◌||◌,
}
use async_event_loop.UnorderedMap.{find}
use async_event_loop.Outcome.{Safe, Safe-bind}
use async_event_loop.Heap.{object, object-put_self}
use async_event_loop.Kernel.{
  Kernel, Event, Received, received, end_of_stream, recv_error, InterestLaws,
}
use async_event_loop.Kernel.Flags.{epollin, epollerr, epollhup, epollrdhup, has}
use async_event_loop.Standalone.{
  Requests, Standalone, buffer_size, lookup_found, load, delete_object, disconnect, append_request,
  recv_all, after_recv, handle_already_connected,
}
use async_event_loop.Standalone.Serving.{
  InOrder, WatchesLess, kernel-InOrder, put-InOrder, delete-InOrder,
}

module _ (k : Kernel) (laws : InterestLaws k) (rs : Requests k) (sockfd epollfd : ℤ)
    (due : ℤ → Type 0) where
  abbrev S : Type 0
  S = Standalone k rs

  abbrev Order : S → Type 0
  Order = InOrder k rs sockfd epollfd due

  -- The server is in order, and `d` leads to the live connection `p`; no event of it is due.
  abbrev At : ℤ → ℕ → S → Type 0
  At d p s =
      Order s
      × (find d s.fd_map ≡ some (some p))
      × ((c : rs.HttpConnection) × (object p s.connections ≡ some c))
      × ¬ due d

  kernel-At :
      (d : ℤ) (p : ℕ) (s : S) (t : k.State)
      → WatchesLess k rs sockfd epollfd s.kernel t
      → At d p s
      → At d p (record s { kernel = t })
  kernel-At d p s t less (i, found, live, done) =
      (kernel-InOrder k rs sockfd epollfd due s t less i, found, live, done)

  append_request-At :
      (d : ℤ) (p : ℕ) (bs : Bytes) (s : S)
      → At d p s
      → Safe (At d p) (append_request k rs (some p) bs s)
  unfolding append_request
  append_request-At d p bs s (i, found, (c, o), done) =
      rw (o, append_request)
        (
          put-InOrder k rs sockfd epollfd due p (rs.append_to_buffer bs c) s i,
          found,
          (rs.append_to_buffer bs c, object-put_self p (some _) s.connections o),
          done,
        )

  module _ (destructor : WatchesNothingMore k rs) where
    disconnect-InOrder :
        (d : ℤ) (p : ℕ) (s : S) → At d p s → Safe Order (disconnect k rs d (some p) s)
    unfolding disconnect delete_object
    disconnect-InOrder d p s (i, found, (c, o), done) =
        rw (o, disconnect, delete_object)
          (delete-InOrder k rs sockfd epollfd due d p s _ found done closed less i)
      where
        freed : k.State
        freed = rs.destroyed c s.kernel

        closed : k.interest (k.close d freed).1 epollfd d ≡ none
        closed = laws.close_forgets epollfd d d freed ∙ grind int_tests

        less : WatchesLess k rs sockfd epollfd s.kernel (k.close d freed).1
        less b mask e =
            destructor c s.kernel epollfd b mask
              (ground (arith, laws.close_forgets epollfd d b freed, e))

    -- A round of the loop, of which one round fewer is safe.
    round-At :
        (fuel : ℕ) (d : ℤ) (p : ℕ) (s : S)
        → ((s' : S) → At d p s' → Safe (λ done. At d p done.1) (recv_all k rs fuel d (some p) s'))
        → (r : Received) → (k.recv d buffer_size s.kernel).0 ≡ r
        → At d p (record s { kernel = (k.recv d buffer_size s.kernel).1 })
        → Safe (λ done. At d p done.1) (recv_all k rs (suc fuel) d (some p) s)
    unfolding recv_all
    round-At fuel d p s again (received b bs) e a =
        rw (e, recv_all)
          (Safe-bind (At d p) (λ done. At d p done.1) (append_request k rs (some p) (b ∷ bs) _) _
            (append_request-At d p (b ∷ bs) _ a) again)
    round-At fuel d p s again end_of_stream e a = rw (e, recv_all) a
    round-At fuel d p s again (recv_error errno) e a = rw (e, recv_all) a

    recv_all-At :
        (fuel : ℕ) (d : ℤ) (p : ℕ) (s : S)
        → At d p s
        → Safe (λ done. At d p done.1) (recv_all k rs fuel d (some p) s)
    unfolding recv_all
    recv_all-At zero d p s a = tt
    recv_all-At (suc fuel) d p s a = round-At fuel d p s (recv_all-At fuel d p) _ refl (
        kernel-At d p s _ (λ b mask e. sym (laws.recv_keeps epollfd d b buffer_size s.kernel) ∙ e)
          a)

    after_recv-InOrder :
        (d : ℤ) (p : ℕ) (done : Received × S)
        → At d p done.1
        → Safe Order (after_recv k rs d (some p) done)
    unfolding after_recv load
    after_recv-InOrder d p (end_of_stream, s) a = disconnect-InOrder d p s a
    after_recv-InOrder d p (recv_error errno, s) (i, found, (c, o), done) = rw (o, load) i
    after_recv-InOrder d p (received b bs, s) a = a.0

    -- An event on a descriptor that leads to a live connection and of which no other event is due.
    pub handle_already_connected-InOrder :
        (fuel : ℕ) (ev : Event) (p : ℕ) (s : S)
        → At ev.fd p s
        → Safe Order (handle_already_connected k rs fuel ev s)
    unfolding handle_already_connected
    handle_already_connected-InOrder fuel ev p s a = elim (Bool-cases hung_up) [
      | inl hup ↦
          rw (lookup_found ev.fd s.fd_map a.1, hup, handle_already_connected)
            (disconnect-InOrder ev.fd p s a)
      | inr no_hup ↦ elim (Bool-cases (has ev.events epollin)) [
        | inl readable ↦
            rw (lookup_found ev.fd s.fd_map a.1, no_hup, readable, handle_already_connected)
              (Safe-bind (λ done. At ev.fd p done.1) Order (recv_all k rs fuel ev.fd (some p) s) _
                (recv_all-At fuel ev.fd p s a) (λ done. after_recv-InOrder ev.fd p done))
        | inr other ↦
            rw (lookup_found ev.fd s.fd_map a.1, no_hup, other, handle_already_connected) a.0
      ]
    ]
      where
        hung_up : Bool
        hung_up = has ev.events epollhup || has ev.events epollerr || has ev.events epollrdhup
