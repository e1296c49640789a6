-- ===== src/Application/Lifetime.antt =====
-- src/server.cpp, `main`, from its start on: the constructor of the server, `listen` and the loop.
use async_event_loop.Base.{
  int_eq, int_eqb_iff, minus_one, length, ◌≤◌, ◌⊎◌, false, arith, ℕ, ℤ, pos, failed, ◌≡◌, refl, ◌∙◌,
  Bool-cases, inl, inr, true, Option, none, some, List, [], ◌∷◌, Bytes,
}
use async_event_loop.Outcome.{Outcome, Safe, Safe-bind, Safe-weaken}
use async_event_loop.Kernel.{
  Kernel, AddrInfo, wait_error, EpollLaws, InterestLaws, SendLaws, WaitLaws,
}
use async_event_loop.Kernel.Flags.{af_inet}
use async_event_loop.SocketUtilities.{get_endpoint, get_epoll_instance}
use async_event_loop.SocketUtilities.Setup.{
  get_endpoint_keeps, get_socket_keeps, bind_and_listen_keeps, get_epoll_instance_watches_nothing,
}
use async_event_loop.Http.{Headers}
use async_event_loop.Reactor.{EventQueue, new_reactor, async_accept, reactor_run}
use async_event_loop.Connection.{Parser, World, accepting}
use async_event_loop.Server.{HttpServer, conn_backlog, new_server, run_closure, listen_and_serve}
use async_event_loop.Application.{clients, Handler, on_request, on_client_error, max_events, main}
use async_event_loop.Application.Serving.{IsServing}
use async_event_loop.Application.Serving.Steps.{more-Serves}
use async_event_loop.Application.Service.{listening-Serves}
use async_event_loop.Application.Rounds.{reactor_run-Safe}

module _ (k : Kernel) (epoll : EpollLaws k) (laws : InterestLaws k) (sending : SendLaws k)
    (waiting : WaitLaws k) (ps : Parser) (order : Headers → Headers) (pq : EventQueue)
    (content : (st : ps.State) (bs : Bytes) → (ps.execute st bs).0.1 ≡ 0) where
  abbrev W : Type 0
  W = World k ps Handler

  -- How a server ends: without an event served, if the registration of its listening socket has failed,
  -- or because `epoll_wait` has failed.
  abbrev pub Stops : HttpServer → W → Type 0
  Stops server w =
      (server.status ≡ minus_one)
      ⊎ ((1 ≤ length w.event_callback_.map_)
          × ((s : k.State) × (k.epoll_wait w.epollfd_ w.max_events_ s ≡ (wait_error, w.kernel))))

  -- A server that has stopped, in order.
  abbrev pub Stopped : HttpServer → W → Type 0
  Stopped server w = IsServing k ps order laws 0 w × Stops server w

  abbrev Listened : ℤ × HttpServer × W → Type 0
  Listened (status, server, w) = (status ≡ pos 0) × Stopped server w

  listen_and_serve-Safe :
      (rounds fuel : ℕ) (server : HttpServer) (err : Handler) (w : W)
      → ((c : ℤ) → k.interest w.kernel w.epollfd_ c ≡ none)
      → w.event_callback_.map_ ≡ []
      → Safe Listened
          (listen_and_serve k ps (clients k ps order fuel) pq rounds server on_request err w)
  unfolding listen_and_serve
  listen_and_serve-Safe rounds fuel server err w idle none_yet = elim (Bool-cases (failed status)) [
    | inl bad ↦ rw bad (refl, (first.0, inl ((int_eqb_iff status minus_one).0 bad)))
    | inr good ↦ rw good (
        Safe-bind _ Listened
          (reactor_run k pq (run_closure k ps (clients k ps order fuel)) rounds pq.new _) _
          (reactor_run-Safe k epoll laws sending ps order pq content fuel waiting rounds pq.new _
            pq.items-new (first.1 good))
          (λ (_, q, w') (_, s, broken).
            (refl, (more-Serves k ps order laws 0 w' (omega arith) s, inr (s.enough, broken)))))
  ]
    where
      status : ℤ
      status = (async_accept k server.socket (accepting on_request err) w).0

      first :
          let (status, w') = async_accept k server.socket (accepting on_request err) w in
          IsServing k ps order laws 0 w' × (failed status ≡ false → IsServing k ps order laws 1 w')
      first = listening-Serves k epoll laws ps order server.socket err w idle none_yet

  -- The constructor of the server puts nothing on an interest list.
  new_server-Safe :
      (address port : Bytes) (s : k.State) (info : AddrInfo)
      → (get_endpoint k af_inet true address port s).0 ≡ some info
      → Safe
          (λ (server, s'). (e c : ℤ) → k.interest s' e c ≡ k.interest s e c)
          (new_server k address port s)
  unfolding new_server
  new_server-Safe address port s info found =
      rw (found, new_server)
        (λ e c.
          bind_and_listen_keeps k laws e c _ info conn_backlog _
          ∙ get_socket_keeps k laws e c info _
          ∙ get_endpoint_keeps k laws e c af_inet address port s)

  -- How `main` ends: with 0.
  abbrev pub Served : (HttpServer → W → Type 0) → ℤ × Option (HttpServer × W) → Type 0
  Served P (status, some (server, w)) = (status ≡ pos 0) × P server w
  Served P (status, none) = ⊥

  abbrev run_main :
      ℕ → ℕ → Bytes → Bytes → Bytes → List Bytes → k.State → Outcome (ℤ × Option (HttpServer × W))
  run_main rounds fuel program address port rest =
      main k ps order pq rounds fuel (program ∷ address ∷ port ∷ rest)

  main-Stopped :
      (rounds fuel : ℕ) (program address port : Bytes) (rest : List Bytes) (s : k.State)
      (info : AddrInfo)
      → (get_endpoint k af_inet true address port (get_epoll_instance k s).1).0 ≡ some info
      → Safe (Served Stopped) (run_main rounds fuel program address port rest s)
  unfolding main new_reactor
  main-Stopped rounds fuel program address port rest s info found =
      Safe-bind _ (Served Stopped) (new_server k address port (get_epoll_instance k s).1) _
        (new_server-Safe address port (get_epoll_instance k s).1 info found)
        (λ (server, s') keeps.
          Safe-bind Listened (Served Stopped)
            (listen_and_serve k ps (clients k ps order fuel) pq rounds server on_request
              on_client_error _)
            _
            (listen_and_serve-Safe rounds fuel server on_client_error
              (record (new_reactor k max_events s []) { kernel = s' })
              (λ c. keeps _ c ∙ get_epoll_instance_watches_nothing k laws c s) refl)
            (λ (status, server', w) (_, s''). (refl, s'')))

  Served-map :
      (P Q : HttpServer → W → Type 0)
      → ((server : HttpServer) (w : W) → P server w → Q server w)
      → (r : ℤ × Option (HttpServer × W)) → Served P r
      → Served Q r
  Served-map P Q f (status, some (server, w)) (e, h) = (e, f server w h)
  Served-map P Q f (status, none) h = absurd h

  Served-weaken :
      (P Q : HttpServer → W → Type 0) (m : Outcome (ℤ × Option (HttpServer × W)))
      → ((server : HttpServer) (w : W) → P server w → Q server w)
      → Safe (Served P) m
      → Safe (Served Q) m
  Served-weaken P Q m f safe = Safe-weaken (Served P) (Served Q) m safe (Served-map P Q f)

  -- Where the server's port has an endpoint and the parser reports no error, `main` never uses a
  -- connection that is gone, deletes none twice and reads through no NULL, whatever clients do and
  -- whatever of the documented the system calls return, up to any bounds on the rounds of the event
  -- loop and of the loop over `recv`: the events that an `epoll_wait` reports are handled one after the
  -- other, by priority, and each while its descriptor leads to new clients or to a live connection of
  -- its own. Where `main` ends it returns 0, and every watched descriptor still leads there.
  pub main-Safe :
      (rounds fuel : ℕ) (program address port : Bytes) (rest : List Bytes) (s : k.State)
      (info : AddrInfo)
      → (get_endpoint k af_inet true address port (get_epoll_instance k s).1).0 ≡ some info
      → Safe
          (Served (λ server w. IsServing k ps order laws 0 w))
          (run_main rounds fuel program address port rest s)
  main-Safe rounds fuel program address port rest s info found =
      Served-weaken Stopped _ _ (λ server w h. h.0)
        (main-Stopped rounds fuel program address port rest s info found)

  -- Where the server's port has an endpoint and the parser reports no error, `main` ends in one of two
  -- ways only, however many rounds the loops are given: the registration of the listening socket has
  -- failed, or the last call of `epoll_wait` has, with a closure still in the map. The event loop does
  -- not stop by itself, and no overflow of `getSize` stops it, however many clients come and go.
  pub main-Stops :
      (rounds fuel : ℕ) (program address port : Bytes) (rest : List Bytes) (s : k.State)
      (info : AddrInfo)
      → (get_endpoint k af_inet true address port (get_epoll_instance k s).1).0 ≡ some info
      → Safe (Served Stops) (run_main rounds fuel program address port rest s)
  main-Stops rounds fuel program address port rest s info found =
      Served-weaken Stopped Stops _ (λ server w h. h.1)
        (main-Stopped rounds fuel program address port rest s info found)
