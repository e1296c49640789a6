-- ===== src/SocketUtilities/Sockets.antt =====
-- include/socket_utilities.h: what the descriptors that the wrappers return are ready for, and which
-- descriptors are lost when a wrapper fails.
use async_event_loop.Base.{
  ℕ, ℤ, pos, minus_one, failed, ◌≡◌, ◌≢◌, ◌⊎◌, ◌↔◌, Bool, true, false, none, arith, Bytes,
  int_eqb_iff,
}
use async_event_loop.Kernel.{Kernel, AddrInfo, SocketLaws}
use async_event_loop.Kernel.Flags.{af_inet, af_inet6}
use async_event_loop.Outcome.{fault, null_dereference}
use async_event_loop.SocketUtilities.{
  get_endpoint, get_socket, bind_and_listen, accept_connection, create_connection,
}

module _ (k : Kernel) (laws : SocketLaws k) where
  open k use {State, is_open, is_reusable, is_nonblocking, is_bound, is_listening}

  -- A descriptor that `getSocket` returns is open, may reuse its address if that was asked for, and
  -- does not block if that was asked for.
  pub get_socket_ready :
      (endpoint : AddrInfo) (will_reuse will_block : Bool) (s : State)
      → failed (get_socket k endpoint will_reuse will_block s).0 ≡ false
      → let (fd, s') = get_socket k endpoint will_reuse will_block s in
        (is_open s' fd ≡ true)
        × ((will_reuse ≡ false) ⊎ (is_reusable s' fd ≡ true))
        × ((will_block ≡ true) ⊎ (is_nonblocking s' fd ≡ true))
  unfolding get_socket
  get_socket_ready endpoint true true s h =
      grind (arith, laws.socket_opens, laws.reuse_keeps_open, laws.reuse_sets)
  get_socket_ready endpoint true false s h = grind (
    arith, laws.socket_opens, laws.reuse_keeps_open, laws.reuse_sets, laws.nonblock_sets,
    laws.nonblock_keeps_open, laws.nonblock_keeps_reusable,
  )
  get_socket_ready endpoint false true s h = grind (arith, laws.socket_opens)
  get_socket_ready endpoint false false s h =
      grind (arith, laws.socket_opens, laws.nonblock_sets, laws.nonblock_keeps_open)

  -- If the socket was made and `getSocket` returns -1 all the same, then the descriptor stays open
  -- and nobody knows it.
  pub get_socket_leaks :
      (endpoint : AddrInfo) (will_reuse will_block : Bool) (s : State)
      → failed (k.socket endpoint.ai_family endpoint.ai_socktype endpoint.ai_protocol s).0 ≡ false
      → (get_socket k endpoint will_reuse will_block s).0 ≡ minus_one
      → is_open
          (get_socket k endpoint will_reuse will_block s).1
          (k.socket endpoint.ai_family endpoint.ai_socktype endpoint.ai_protocol s).0
        ≡ true
  unfolding get_socket
  get_socket_leaks endpoint true true s made h =
      grind (arith, laws.socket_opens, laws.reuse_keeps_open)
  get_socket_leaks endpoint true false s made h =
      grind (arith, laws.socket_opens, laws.reuse_keeps_open, laws.nonblock_keeps_open)
  get_socket_leaks endpoint false true s made h = grind (arith, laws.socket_opens)
  get_socket_leaks endpoint false false s made h =
      grind (arith, laws.socket_opens, laws.nonblock_keeps_open)

  -- `bindAndListen` returns 0 or -1, and with 0 the socket is bound and listens.
  pub bind_and_listen_result :
      (sockfd : ℤ) (endpoint : AddrInfo) (backlog : ℕ) (s : State)
      → let (r, s') = bind_and_listen k sockfd endpoint backlog s in
        (r ≡ minus_one)
        ⊎ ((r ≡ pos 0) × (is_bound s' sockfd ≡ true) × (is_listening s' sockfd ≡ true))
  unfolding bind_and_listen
  bind_and_listen_result sockfd endpoint backlog s =
      grind (arith, laws.bind_binds, laws.listen_listens, laws.listen_keeps_bound)

  -- A descriptor that `acceptConnection` returns, from a peer of a known address family, is the one
  -- that `accept` made, open and not blocking.
  pub accept_connection_ready :
      (listen_sock : ℤ) (s : State)
      → ((k.accept listen_sock s).0.1 ≡ af_inet) ⊎ ((k.accept listen_sock s).0.1 ≡ af_inet6)
      → failed (accept_connection k listen_sock s).0 ≡ false
      → let (fd, s') = accept_connection k listen_sock s in
        (fd ≡ (k.accept listen_sock s).0.0) × (is_open s' fd ≡ true) × (is_nonblocking s' fd ≡ true)
  unfolding accept_connection
  accept_connection_ready listen_sock s family h =
      grind (arith, laws.accept_opens, laws.nonblock_sets, laws.nonblock_keeps_open)

  -- From a peer of any other family it returns a descriptor that it has closed, where no call fails.
  pub accept_connection_stale :
      (listen_sock : ℤ) (s : State)
      → (k.accept listen_sock s).0.1 ≢ af_inet
      → (k.accept listen_sock s).0.1 ≢ af_inet6
      → failed (accept_connection k listen_sock s).0 ≡ false
      → failed
          (k.close
            (k.accept listen_sock s).0.0
            (k.set_nonblock (k.accept listen_sock s).0.0 (k.accept listen_sock s).1).1).0
        ≡ false
      → let (fd, s') = accept_connection k listen_sock s in is_open s' fd ≡ false
  unfolding accept_connection
  accept_connection_stale listen_sock s not4 not6 h c =
      grind (arith, laws.close_closes, int_eqb_iff)

-- `createConnection` reads through NULL exactly if there is no endpoint.
pub create_connection_faults :
    (k : Kernel) (family : ℤ) (address port : Bytes) (s : k.State)
    → (create_connection k family address port s ≡ fault null_dereference)
      ↔ ((get_endpoint k family false address port s).0 ≡ none)
unfolding create_connection
create_connection_faults k family address port s = ground arith
