-- ===== src/Standalone/Receiving.antt =====
-- src/temp.cpp, `handleAlreadyConnected`: what becomes of the bytes that arrive.
use async_event_loop.Base.{
  int_eq, ℕ, zero, suc, ℤ, ◌≡◌, sym, ap, ◌∙◌, ◌≤◌, ◌||◌, true, false, some, List, [], ◌∷◌, Bytes,
  arith, length,
}
use async_event_loop.UnorderedMap.{find}
use async_event_loop.Outcome.{ok, ◌>>=◌}
use async_event_loop.Heap.{object, put, object-put_self, put_same, put-put}
use async_event_loop.Kernel.{Kernel, Event, received, recv_error}
use async_event_loop.Kernel.Flags.{epollin, epollerr, epollhup, epollrdhup, has}
use async_event_loop.Standalone.{
  Requests, Standalone, buffer_size, lookup_found, load, append_request, recv_all, after_recv,
  handle_already_connected,
}

module _ (k : Kernel) (rs : Requests k) where
  -- The answers of `recv` up to an error such as EAGAIN: these pieces, and the system after it.
  pub data Arrives (d : ℤ) : List Bytes → k.State → k.State → Type 0 where
    no_more :
        {s : k.State} (errno : ℕ)
        → (k.recv d buffer_size s).0 ≡ recv_error errno
        → Arrives d [] s (k.recv d buffer_size s).1
    piece :
        {pieces : List Bytes} {s s' : k.State} (b : ℕ) (bs : Bytes)
        → (k.recv d buffer_size s).0 ≡ received b bs
        → Arrives d pieces (k.recv d buffer_size s).1 s'
        → Arrives d ((b ∷ bs) ∷ pieces) s s'

  -- A connection to whose request the pieces have been appended.
  pub appended : List Bytes → rs.HttpConnection → rs.HttpConnection
  appended [] c = c
  appended (bs ∷ pieces) c = appended pieces (rs.append_to_buffer bs c)

  abbrev pub with_connection : ℕ → rs.HttpConnection → k.State → Standalone k rs → Standalone k rs
  with_connection p c kernel s = record s {
    kernel = kernel;
    connections = put p (some c) s.connections;
  }

  module _ (p : ℕ) (s : Standalone k rs) {old : rs.HttpConnection}
      (live : object p s.connections ≡ some old) where
    recv_piece :
        (fuel : ℕ) (d : ℤ) (c : rs.HttpConnection) (t : k.State) (b : ℕ) (bs : Bytes)
        → (k.recv d buffer_size t).0 ≡ received b bs
        → recv_all k rs (suc fuel) d (some p) (with_connection p c t s)
          ≡ recv_all k rs fuel d
              (some p)
              (with_connection p (rs.append_to_buffer (b ∷ bs) c) (k.recv d buffer_size t).1 s)
    unfolding recv_all append_request
    recv_piece fuel d c t b bs r = rw (
      r,
      recv_all,
      object-put_self p (some c) s.connections live,
      append_request,
      put-put p (some c) (some (rs.append_to_buffer (b ∷ bs) c)) s.connections,
    )

    recv_stops :
        (fuel : ℕ) (d : ℤ) (c : rs.HttpConnection) (t : k.State) (errno : ℕ)
        → (k.recv d buffer_size t).0 ≡ recv_error errno
        → recv_all k rs (suc fuel) d (some p) (with_connection p c t s)
          ≡ ok (recv_error errno, with_connection p c (k.recv d buffer_size t).1 s)
    unfolding recv_all
    recv_stops fuel d c t errno r = rw (r, recv_all)

    recv_all-Arrives :
        (d : ℤ) (c : rs.HttpConnection) {pieces : List Bytes} {t t' : k.State}
        → Arrives d pieces t t'
        → (fuel : ℕ) → suc (length pieces) ≤ fuel
        → (errno : ℕ) × (recv_all k rs fuel d (some p) (with_connection p c t s)
            ≡ ok (recv_error errno, with_connection p (appended pieces c) t' s))
    unfolding appended
    recv_all-Arrives d c (no_more errno e) zero h = elim h [ ]
    recv_all-Arrives d c (no_more {s = t} errno e) (suc fuel) h =
        (errno, recv_stops fuel d c t errno e)
    recv_all-Arrives d c (piece b bs e rest) zero h = elim h [ ]
    recv_all-Arrives d c (piece {s = t} b bs e rest) (suc fuel) h =
        let (errno, done) =
          recv_all-Arrives d (rs.append_to_buffer (b ∷ bs) c) rest fuel (omega arith) in
        (errno, recv_piece fuel d c t b bs e ∙ done)

  pub readable :
      (fuel : ℕ) (ev : Event) (p : ℕ) (s : Standalone k rs)
      → find ev.fd s.fd_map ≡ some (some p)
      → (has ev.events epollhup || has ev.events epollerr || has ev.events epollrdhup) ≡ false
      → has ev.events epollin ≡ true
      → handle_already_connected k rs fuel ev s
        ≡ (recv_all k rs fuel ev.fd (some p) s >>= after_recv k rs ev.fd (some p))
  unfolding handle_already_connected
  readable fuel ev p s f no_hup in_ev =
      rw (lookup_found ev.fd s.fd_map f, no_hup, in_ev, handle_already_connected)

  after_error :
      (d : ℤ) (p errno : ℕ) (s : Standalone k rs) {c : rs.HttpConnection}
      → object p s.connections ≡ some c
      → after_recv k rs d (some p) (recv_error errno, s) ≡ ok s
  unfolding after_recv load
  after_error d p errno s o = rw (o, load)

  -- When a client that is connected has sent bytes, all of them are appended to its request in the
  -- order in which they arrive, and nothing else changes. One round more than there are pieces is
  -- enough.
  pub received-Arrives :
      (ev : Event) (p : ℕ) (c : rs.HttpConnection) (s : Standalone k rs) {pieces : List Bytes}
      {s' : k.State}
      → find ev.fd s.fd_map ≡ some (some p)
      → object p s.connections ≡ some c
      → (has ev.events epollhup || has ev.events epollerr || has ev.events epollrdhup) ≡ false
      → has ev.events epollin ≡ true
      → Arrives ev.fd pieces s.kernel s'
      → (fuel : ℕ) → suc (length pieces) ≤ fuel
      → handle_already_connected k rs fuel ev s ≡ ok (with_connection p (appended pieces c) s' s)
  received-Arrives ev p c s {pieces} {s'} f o no_hup in_ev a fuel h =
      let (errno, done) = recv_all-Arrives p s o ev.fd c a fuel h in
      let start : with_connection p c s.kernel s ≡ s =
        ap (λ a. record s { connections = a }) (put_same p c s.connections o) in
      readable fuel ev p s f no_hup in_ev
      ∙ ap (λ w. recv_all k rs fuel ev.fd (some p) w >>= after_recv k rs ev.fd (some p)) (sym start)
      ∙ ap (λ r. r >>= after_recv k rs ev.fd (some p)) done
      ∙ after_error ev.fd p errno (with_connection p (appended pieces c) s' s)
          (object-put_self p (some (appended pieces c)) s.connections o)
