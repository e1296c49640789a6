-- ===== src/SocketUtilities/Setup.antt =====
-- include/socket_utilities.h: the functions that set a listening socket up leave the interest lists of
-- epoll alone.
use async_event_loop.Base.{
  ℕ, ℤ, minus_one, failed, int_eqb_iff, ◌≡◌, Bool-cases, inl, inr, none, Bytes, arith, true, false,
}
use async_event_loop.Kernel.{Kernel, AddrInfo, InterestLaws}
use async_event_loop.SocketUtilities.{get_endpoint, get_socket, bind_and_listen, get_epoll_instance}

module _ (k : Kernel) (laws : InterestLaws k) where
  pub get_endpoint_keeps :
      (e c family : ℤ) (address port : Bytes) (s : k.State)
      → k.interest (get_endpoint k family true address port s).1 e c ≡ k.interest s e c
  unfolding get_endpoint
  get_endpoint_keeps e c family address port s = laws.getaddrinfo_keeps e c _ port _ s

  pub get_socket_keeps :
      (e c : ℤ) (endpoint : AddrInfo) (s : k.State)
      → k.interest (get_socket k endpoint true false s).1 e c ≡ k.interest s e c
  unfolding get_socket
  get_socket_keeps e c endpoint s = ground (
    arith,
    laws.socket_keeps e endpoint.ai_family endpoint.ai_socktype endpoint.ai_protocol c s,
    laws.reuse_keeps e (opened.0) c opened.1,
    laws.nonblock_keeps e (opened.0) c (k.set_reuse opened.0 opened.1).1,
  )
    where
      opened : ℤ × k.State
      opened = k.socket endpoint.ai_family endpoint.ai_socktype endpoint.ai_protocol s

  pub bind_and_listen_keeps :
      (e c d : ℤ) (endpoint : AddrInfo) (backlog : ℕ) (s : k.State)
      → k.interest (bind_and_listen k d endpoint backlog s).1 e c ≡ k.interest s e c
  unfolding bind_and_listen
  bind_and_listen_keeps e c d endpoint backlog s = ground (
    arith,
    laws.bind_keeps e d c endpoint.ai_addr s,
    laws.listen_keeps e d c backlog (k.bind d endpoint.ai_addr s).1,
  )

  pub get_epoll_instance_watches_nothing :
      (c : ℤ) (s : k.State)
      → k.interest (get_epoll_instance k s).1 (get_epoll_instance k s).0 c ≡ none
  unfolding get_epoll_instance
  get_epoll_instance_watches_nothing c s = elim (Bool-cases (failed epollfd)) [
    | inl bad ↦
        let e : epollfd ≡ minus_one = (int_eqb_iff epollfd minus_one).0 bad in
        rw bad (rw (← e) (laws.created_empty c s))
    | inr good ↦ rw good (laws.created_empty c s)
  ]
    where
      epollfd : ℤ
      epollfd = (k.epoll_create1 s).0
