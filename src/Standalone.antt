-- ===== src/Standalone.antt =====
-- src/temp.cpp: a server in one file around its own epoll loop.
--
-- Its `FiberConn::HttpConnection` is declared in a header that is not in the repository: `Requests` is
-- what the program uses of it. `ev_hint` is written before each use and needs no place in the state.
pub mod Lifetime
pub mod Receiving
pub mod Events
pub mod Handlers
pub mod Clients
pub mod Reuse
pub mod Serving
pub mod Startup
use async_event_loop.Base.{
  int_eq, int_eqb, ℕ, zero, suc, ℤ, pos, minus_one, failed, ◌≡◌, ◌||◌, Bool, true, false, Option,
  none, some, List, [], ◌∷◌, ◌++◌, Bytes, length, if◌then◌else◌,
}
use async_event_loop.UnorderedMap.{UnorderedMap, find}
use async_event_loop.Outcome.{
  Outcome, ok, fault, null_dereference, use_after_free, double_free, out_of_fuel, ◌>>=◌,
}
use async_event_loop.Heap.{Heap, object, put}
use async_event_loop.Kernel.{
  Kernel, AddrInfo, Hints, Event, Received, received, end_of_stream, recv_error, Waited, ready,
  wait_error,
}
use async_event_loop.Kernel.Flags.{
  af_unspec, af_inet, af_inet6, ai_passive, sock_stream, epoll_ctl_add, epollin, epollerr, epollhup,
  epollrdhup, epollet, has, ◌or◌,
}

abbrev pub conn_port : Bytes
conn_port = 51 ∷ 52 ∷ 57 ∷ 48 ∷ []

abbrev pub conn_backlog : ℕ
conn_backlog = 100

abbrev pub max_events : ℕ
max_events = 100

abbrev pub buffer_size : ℕ
buffer_size = 100

-- A connection object with its `req`: its constructor on a descriptor, `appendToBuffer` and
-- `request_complete`. What its destructor does beyond freeing it is `destroyed`.
pub record Requests (k : Kernel) : Type 1 where
  pub HttpConnection : Type 0
  pub fresh : ℤ → HttpConnection
  pub append_to_buffer : Bytes → HttpConnection → HttpConnection
  pub request_complete : HttpConnection → Bool
  pub destroyed : HttpConnection → k.State → k.State

-- How a function of the program ends: it returns, or it calls `exit`.
pub data Ended : Type 0 where
  returned : ℤ → Ended
  exited : ℕ → Ended

-- `fd_map`, whose pointers may be NULL, and the objects.
pub record Standalone (k : Kernel) (rs : Requests k) : Type 0 where
  pub kernel : k.State
  pub fd_map : UnorderedMap ℤ (Option ℕ)
  pub connections : Heap rs.HttpConnection

-- `fd_map.insert({fd, p})`, which leaves an old entry as it is.
unfoldable pub insert_new : ℤ → Option ℕ → UnorderedMap ℤ (Option ℕ) → UnorderedMap ℤ (Option ℕ)
insert_new fd p m = elim (find fd m) [ some q ↦ m | none ↦ m ++ ((fd, p) ∷ []) ]

-- `fd_map[fd]`: the pointer, and the map, into which NULL goes where the descriptor is missing.
unfoldable pub lookup_fd : ℤ → UnorderedMap ℤ (Option ℕ) → Option ℕ × UnorderedMap ℤ (Option ℕ)
lookup_fd fd m = elim (find fd m) [ some p ↦ (p, m) | none ↦ (none, m ++ ((fd, none) ∷ [])) ]

pub lookup_found :
    (fd : ℤ) (m : UnorderedMap ℤ (Option ℕ)) {p : Option ℕ}
    → find fd m ≡ some p
    → lookup_fd fd m ≡ (p, m)
unfolding lookup_fd
lookup_found fd m e = rw (e, lookup_fd)

-- The mask for a client.
abbrev pub client_mask : ℕ
client_mask = epollin or epollerr or epollhup or epollrdhup or epollet

module _ (k : Kernel) (rs : Requests k) where
  -- With an address family that is not known the new descriptor is closed, and used all the same.
  -- A failure of `epoll_ctl` is only reported.
  unfoldable pub handle_new_connection : ℤ → ℤ → Standalone k rs → Ended × Standalone k rs
  handle_new_connection sockfd epollfd s =
      let ((newfd, family), s1) = k.accept sockfd s.kernel in
      if failed newfd
      then (returned minus_one, record s { kernel = s1 })
      else (let (status, s2) = k.set_nonblock newfd s1 in
          if failed status
          then (exited 1, record s { kernel = s2 })
          else (let s3 =
                (if int_eqb family af_inet || int_eqb family af_inet6
                  then s2
                  else (k.close newfd s2).1) in
              let s4 =
                (k.epoll_ctl epollfd epoll_ctl_add newfd
                  (some (record { events = client_mask; fd = newfd })) s3).1 in
              (
                returned (pos 0),
                record {
                  kernel = s4;
                  fd_map = insert_new newfd (some (length s.connections)) s.fd_map;
                  connections = s.connections ++ (some (rs.fresh newfd) ∷ []);
                },
              )))

  -- A read through a pointer.
  unfoldable pub load : Option ℕ → Standalone k rs → Outcome rs.HttpConnection
  load none s = fault null_dereference
  load (some p) s = elim (object p s.connections) [ some c ↦ ok c | none ↦ fault use_after_free ]

  -- `delete old_connection`, which does nothing for NULL.
  unfoldable pub delete_object : Option ℕ → Standalone k rs → Outcome (Standalone k rs)
  delete_object none s = ok s
  delete_object (some p) s = elim (object p s.connections) [
    | some c ↦
        ok (record s { kernel = rs.destroyed c s.kernel; connections = put p none s.connections })
    | none ↦ fault double_free
  ]

  -- `delete` and `close`. The entry of the descriptor stays in `fd_map`.
  unfoldable pub disconnect : ℤ → Option ℕ → Standalone k rs → Outcome (Standalone k rs)
  disconnect clientfd old s = do
    s' ← delete_object old s
    ok (record s' { kernel = (k.close clientfd s'.kernel).1 })

  -- `req->appendToBuffer(…)`
  unfoldable pub append_request : Option ℕ → Bytes → Standalone k rs → Outcome (Standalone k rs)
  append_request none bs s = fault null_dereference
  append_request (some p) bs s = elim (object p s.connections) [
    | some c ↦ ok (record s { connections = put p (some (rs.append_to_buffer bs c)) s.connections })
    | none ↦ fault use_after_free
  ]

  -- The loop over `recv`, with the number of rounds as fuel.
  unfoldable pub recv_all :
      ℕ → ℤ → Option ℕ → Standalone k rs → Outcome (Received × Standalone k rs)
  recv_all zero clientfd old s = fault out_of_fuel
  recv_all (suc fuel) clientfd old s =
      let (r, s1) = k.recv clientfd buffer_size s.kernel in
      let s' : Standalone k rs = record s { kernel = s1 } in
      elim r [
        | received b bs ↦ append_request old (b ∷ bs) s' >>= (λ s''. recv_all fuel clientfd old s'')
        | end_of_stream ↦ ok (end_of_stream, s')
        | recv_error errno ↦ ok (recv_error errno, s')
      ]

  -- What follows the loop. A complete request is printed, which changes nothing.
  unfoldable pub after_recv : ℤ → Option ℕ → Received × Standalone k rs → Outcome (Standalone k rs)
  after_recv clientfd old (end_of_stream, s) = disconnect clientfd old s
  after_recv clientfd old (recv_error errno, s) = do c ← load old s; ok s
  after_recv clientfd old (received b bs, s) = ok s

  unfoldable pub handle_already_connected : ℕ → Event → Standalone k rs → Outcome (Standalone k rs)
  handle_already_connected fuel ev s =
      let (old, m) = lookup_fd ev.fd s.fd_map in
      let s' : Standalone k rs = record s { fd_map = m } in
      if has ev.events epollhup || has ev.events epollerr || has ev.events epollrdhup
      then disconnect ev.fd old s'
      else (if has ev.events epollin
          then recv_all fuel ev.fd old s' >>= (λ r. after_recv ev.fd old r)
          else ok s')

  -- The loop over the events of one `epoll_wait`: only `exit` ends it early.
  unfoldable pub handle_events :
      ℕ → ℤ → ℤ → List Event → Standalone k rs → Outcome (Ended × Standalone k rs)
  handle_events fuel sockfd epollfd [] s = ok (returned (pos 0), s)
  handle_events fuel sockfd epollfd (ev ∷ evs) s =
      if int_eqb ev.fd sockfd
      then (let (ended, s') = handle_new_connection sockfd epollfd s in
          elim ended [
            | returned status ↦ handle_events fuel sockfd epollfd evs s'
            | exited code ↦ ok (exited code, s')
          ])
      else (handle_already_connected fuel ev s >>= (λ s'. handle_events fuel sockfd epollfd evs s'))

  -- `while (true)`, with the number of rounds as fuel. Nothing but `exit` ends it.
  unfoldable pub event_loop : ℕ → ℕ → ℤ → ℤ → Standalone k rs → Outcome (Ended × Standalone k rs)
  event_loop zero fuel sockfd epollfd s = fault out_of_fuel
  event_loop (suc rounds) fuel sockfd epollfd s =
      let (waited, s1) = k.epoll_wait epollfd max_events s.kernel in
      let s' : Standalone k rs = record s { kernel = s1 } in
      elim waited [
        | wait_error ↦ ok (exited 1, s')
        | ready evs ↦ handle_events fuel sockfd epollfd evs s' >>= (λ done. elim done.0 [
          | returned status ↦ event_loop rounds fuel sockfd epollfd done.1
          | exited code ↦ ok done
        ])
      ]
