-- ===== src/Application/Startup.antt =====
-- src/server.cpp, `main`, over the constructor and `listen` of include/listening_server.h.
use async_event_loop.Base.{
  ◌⊎◌, inl, inr, failed, false, arith, int_eq, ap, ℕ, pos, ◌≡◌, true, none, some, List, [], ◌∷◌,
  Bytes, minus_one,
}
use async_event_loop.Outcome.{ok, fault, null_dereference}
use async_event_loop.Kernel.{Kernel, AddrInfo, EpollLaws, InterestLaws}
use async_event_loop.Kernel.Flags.{af_inet, epollin}
use async_event_loop.SocketUtilities.{get_endpoint, get_epoll_instance, get_socket, bind_and_listen}
use async_event_loop.Http.{Headers}
use async_event_loop.Reactor.Tracking.{async_accept-Tracks}
use async_event_loop.Reactor.{Reactor, EventQueue, new_reactor, async_accept}
use async_event_loop.Connection.{Parser, World, accepting}
use async_event_loop.Server.{conn_backlog, HttpServer, new_server, listen_and_serve}
use async_event_loop.Application.{Handler, on_request, on_client_error, max_events, main}

module _ (k : Kernel) (ps : Parser) (order : Headers → Headers) (pq : EventQueue) where
  -- Where no endpoint is found for the server's port, `main` reads through NULL.
  pub main_needs_endpoint :
      (rounds fuel : ℕ) (program address port : Bytes) (rest : List Bytes) (s : k.State)
      → (get_endpoint k af_inet true address port (get_epoll_instance k s).1).0 ≡ none
      → main k ps order pq rounds fuel (program ∷ address ∷ port ∷ rest) s ≡ fault null_dereference
  unfolding main new_server new_reactor
  main_needs_endpoint rounds fuel program address port rest s e = rw (e, new_server)

module _ (k : Kernel) where
  -- For the address `info` and from the state `s`, the system gives no socket, does not let its address
  -- be used again or does not let it be set not to block.
  abbrev pub GivesNone : AddrInfo → k.State → Type 0
  GivesNone info s =
      let (sockfd, s1) = k.socket info.ai_family info.ai_socktype info.ai_protocol s in
      let (reuse, s2) = k.set_reuse sockfd s1 in
      (failed sockfd ≡ true) ⊎ (failed reuse ≡ true) ⊎ (failed (k.set_nonblock sockfd s2).0 ≡ true)

  refused :
      (info : AddrInfo) (s : k.State)
      → GivesNone info s
      → (get_socket k info true false s).0 ≡ minus_one
  unfolding get_socket
  refused info s none_given = ground arith

module _ (k : Kernel) (epoll : EpollLaws k) (laws : InterestLaws k) {Cb App : Type 0} where
  -- What is no descriptor is not registered.
  unregistered :
      (cb : Cb) (r : Reactor k Cb App)
      → let (status, r') = async_accept k minus_one cb r in
        (status ≡ minus_one) × (r'.event_callback_ ≡ r.event_callback_)
  unregistered cb r = elim (async_accept-Tracks k epoll minus_one cb r) [
    | inl (_, _, watched) ↦
        let (n, e, _) = laws.watched_descriptor _ minus_one epollin _ (watched minus_one).0 in
        absurd (ground arith)
    | inr (_, status, _, same, _) ↦ (status, same)
  ]

module _ (k : Kernel) (epoll : EpollLaws k) (laws : InterestLaws k) (ps : Parser)
    (order : Headers → Headers) (pq : EventQueue) where
  -- A server whose socket cannot be registered.
  unheard :
      (rounds fuel : ℕ) (program address port : Bytes) (rest : List Bytes) (s s' : k.State)
      (server : HttpServer) (w : World k ps Handler)
      → new_server k address port (get_epoll_instance k s).1 ≡ ok (server, s')
      → async_accept k server.socket
          (accepting on_request on_client_error)
          (record (new_reactor k max_events s []) { kernel = s' })
        ≡ (minus_one, w)
      → main k ps order pq rounds fuel (program ∷ address ∷ port ∷ rest) s
        ≡ ok (pos 0, some (record server { status = minus_one }, w))
  unfolding main new_reactor listen_and_serve
  unheard rounds fuel program address port rest s s' server w made none_registered =
      rw (made, none_registered)

  made_in_vain :
      (address port : Bytes) (s : k.State) (info : AddrInfo)
      → (get_endpoint k af_inet true address port s).0 ≡ some info
      → GivesNone k info (get_endpoint k af_inet true address port s).1
      → (s' : k.State) × (new_server k address port s
          ≡ ok (record { socket = minus_one; status = pos 0 }, s'))
  unfolding new_server
  made_in_vain address port s info e none_given =
      let known = (get_endpoint k af_inet true address port s).1 in
      (
        (bind_and_listen k minus_one info conn_backlog (get_socket k info true false known).1).1,
        rw (e, refused k info known none_given, new_server),
      )

  -- Where the server's port has an endpoint for which the system gives no socket or refuses one of its
  -- options, `main` returns 0 all the same, whatever the bounds of its loops: the socket and the status
  -- of its server are then -1, and no closure is in the map.
  pub main_fails_silently :
      (rounds fuel : ℕ) (program address port : Bytes) (rest : List Bytes) (s : k.State)
      (info : AddrInfo)
      → (get_endpoint k af_inet true address port (get_epoll_instance k s).1).0 ≡ some info
      → GivesNone k info (get_endpoint k af_inet true address port (get_epoll_instance k s).1).1
      → (w : World k ps Handler) × (main k ps order pq rounds fuel
            (program ∷ address ∷ port ∷ rest)
            s
          ≡ ok (pos 0, some (record { socket = minus_one; status = minus_one }, w)))
        × (w.event_callback_.map_ ≡ [])
  unfolding new_reactor
  main_fails_silently rounds fuel program address port rest s info e none_given =
      let (s', made) = made_in_vain address port (get_epoll_instance k s).1 info e none_given in
      let ioc : World k ps Handler = record (new_reactor k max_events s []) { kernel = s' } in
      let (status, same) = unregistered k epoll laws (accepting on_request on_client_error) ioc in
      let w = (async_accept k minus_one (accepting on_request on_client_error) ioc).1 in
      (
        w,
        unheard rounds fuel program address port rest s s' _ w made (ap (λ r. (r, w)) status),
        ap (λ m. m.map_) same,
      )
