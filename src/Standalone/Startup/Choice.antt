-- ===== src/Standalone/Startup/Choice.antt =====
-- src/temp.cpp, `main`: the address that it takes, and the calls that set the server up on it.
use async_event_loop.Base.{
  All, int_eq, ℕ, ℤ, pos, failed, ◌≡◌, ◌≢◌, ◌⊎◌, inl, inr, refl, Bool-cases, false, true, none,
  some, List, ◌∷◌, ◌++◌,
}
use async_event_loop.Outcome.{ok}
use async_event_loop.Kernel.{Kernel, AddrInfo, EpollLaws}
use async_event_loop.Kernel.Flags.{af_inet, epoll_ctl_add, epollin}
use async_event_loop.Standalone.{Requests, exited, conn_port, conn_backlog, event_loop}
use async_event_loop.Standalone.Startup.{
  first_ipv4-some, Setup, down, up, hints, check, set_up, idle, run_server, main, listening,
  Watched, set_up-Watched,
}

module _ (k : Kernel) where
  -- A call succeeds and then `next` holds; a call fails and leaves the system in `s'`, or succeeds
  -- and then `next` holds.
  abbrev Succeeds : ℤ × k.State → (ℤ → k.State → Type 0) → Type 0
  Succeeds (status, s) next = (failed status ≡ false) × next status s

  abbrev Fails : k.State → ℤ × k.State → (ℤ → k.State → Type 0) → Type 0
  Fails s' (status, s) next = ((failed status ≡ true) × (s' ≡ s)) ⊎ Succeeds (status, s) next

  abbrev watch : ℤ → ℤ → k.State → ℤ × k.State
  watch sockfd epollfd = k.epoll_ctl epollfd epoll_ctl_add sockfd (listening k sockfd)

  -- From the state `s`, a socket of the kind of `info` was made, given two options, bound to the address
  -- of `info`, set to listen and registered with a new epoll instance.
  abbrev pub Listens : AddrInfo → k.State → ℤ → ℤ → k.State → Type 0
  Listens info s sockfd epollfd s' =
      Succeeds (k.socket info.ai_family info.ai_socktype info.ai_protocol s) λ d s1.
        Succeeds (k.set_reuse d s1) λ _ s2. Succeeds (k.set_nonblock d s2) λ _ s3.
          Succeeds (k.bind d info.ai_addr s3) λ _ s4. Succeeds (k.listen d conn_backlog s4) λ _ s5.
            Succeeds (k.epoll_create1 s5)
              λ e s6. Succeeds (watch d e s6) λ _ s7. (sockfd ≡ d) × (epollfd ≡ e) × (s' ≡ s7)

  -- From the state `s`, one of these calls failed, all before it succeeded and none followed.
  abbrev pub Refuses : AddrInfo → k.State → k.State → Type 0
  Refuses info s s' = Fails s' (k.socket info.ai_family info.ai_socktype info.ai_protocol s) λ d s1.
      Fails s' (k.set_reuse d s1) λ _ s2. Fails s' (k.set_nonblock d s2) λ _ s3.
        Fails s' (k.bind d info.ai_addr s3) λ _ s4.
          Fails s' (k.listen d conn_backlog s4)
            λ _ s5. Fails s' (k.epoll_create1 s5) λ e s6. Fails s' (watch d e s6) λ _ s7. ⊥

  abbrev Traced : AddrInfo → k.State → Setup (ℤ × ℤ) × k.State → Type 0
  Traced info s (down, s') = Refuses info s s'
  Traced info s (up (sockfd, epollfd), s') = Listens info s sockfd epollfd s'

  record IsTraced (info : AddrInfo) (s : k.State) (done : Setup (ℤ × ℤ) × k.State) : Type 0 where
    pub holds : Traced info s done

  check-IsTraced :
      (info : AddrInfo) (s : k.State) (r : ℤ × k.State)
      (next : ℤ → k.State → Setup (ℤ × ℤ) × k.State)
      → (failed r.0 ≡ true → Refuses info s r.1)
      → (failed r.0 ≡ false → IsTraced info s (next r.0 r.1))
      → IsTraced info s (check k r next)
  unfolding check
  check-IsTraced info s (status, s') next refused h = elim (Bool-cases (failed status)) [
    | inl bad ↦ rw (bad, check) (record { holds = refused bad })
    | inr good ↦ rw (good, check) (h good)
  ]

  set_up-Traced : (info : AddrInfo) (s : k.State) → IsTraced info s (set_up k info s)
  unfolding set_up
  set_up-Traced info s =
      check-IsTraced info s _ _ (λ b. inl (b, refl))
        λ g1.
          check-IsTraced info s _ _ (λ b. inr (g1, inl (b, refl)))
            λ g2.
              check-IsTraced info s _ _ (λ b. inr (g1, inr (g2, inl (b, refl))))
                λ g3.
                  check-IsTraced info s _ _ (λ b. inr (g1, inr (g2, inr (g3, inl (b, refl)))))
                    λ g4.
                      check-IsTraced info s _ _
                        (λ b. inr (g1, inr (g2, inr (g3, inr (g4, inl (b, refl))))))
                        λ g5.
                          check-IsTraced info s _ _
                            (λ b. inr (g1, inr (g2, inr (g3, inr (g4, inr (g5, inl (b, refl)))))))
                            λ g6.
                              check-IsTraced info s _ _
                                (λ b. inr (
                                  g1,
                                  inr (g2, inr (g3, inr (g4, inr (g5, inr (g6, inl (b, refl)))))),
                                ))
                                λ g7. record {
                                  holds =
                                      (g1, (g2, (g3, (g4, (g5, (g6, (g7, (refl, refl, refl))))))));
                                }

module _ (k : Kernel) (rs : Requests k) where
  run_server-Traced :
      (rounds fuel : ℕ) (info : AddrInfo) (s : k.State) (done : Setup (ℤ × ℤ) × k.State)
      → Watched k done
      → Traced k info s done
      → ((s' : k.State) × Refuses k info s s'
          × (run_server k rs rounds fuel done ≡ ok (exited 1, idle k rs s')))
        ⊎ ((sockfd : ℤ) × (epollfd : ℤ) × (s' : k.State) × Listens k info s sockfd epollfd s'
            × (run_server k rs rounds fuel done
                ≡ event_loop k rs rounds fuel sockfd epollfd (idle k rs s'))
            × (k.interest s' epollfd sockfd ≡ some epollin))
  unfolding run_server
  run_server-Traced rounds fuel info s (down, s') w t = inl (s', t, refl)
  run_server-Traced rounds fuel info s (up (sockfd, epollfd), s') w t =
      inr (sockfd, epollfd, s', t, refl, w)

  -- Where the system knows an address of IPv4, `main` takes the first: it makes a socket of its kind,
  -- sets two options, binds the socket to the address, listens and registers it with a new epoll
  -- instance. It exits with 1 at the first of these calls that fails, without a further one; if all
  -- succeed it runs the event loop on the socket, which epoll then watches for EPOLLIN.
  pub main_takes_first_ipv4 :
      (laws : EpollLaws k) (rounds fuel : ℕ) (s : k.State) (before after : List AddrInfo)
      (info : AddrInfo)
      → (k.getaddrinfo none conn_port hints s).0 ≡ (pos 0, before ++ (info ∷ after))
      → All (λ i. i.ai_family ≢ af_inet) before
      → info.ai_family ≡ af_inet
      → let known = (k.getaddrinfo none conn_port hints s).1 in
        ((s' : k.State) × Refuses k info known s'
          × (main k rs rounds fuel s ≡ ok (exited 1, idle k rs s')))
        ⊎ ((sockfd : ℤ) × (epollfd : ℤ) × (s' : k.State) × Listens k info known sockfd epollfd s'
            × (main k rs rounds fuel s ≡ event_loop k rs rounds fuel sockfd epollfd (idle k rs s'))
            × (k.interest s' epollfd sockfd ≡ some epollin))
  unfolding main
  main_takes_first_ipv4 laws rounds fuel s before after info e h i =
      let known = (k.getaddrinfo none conn_port hints s).1 in
      let traced = set_up-Traced k info known in
      rw (e, first_ipv4-some before after info h i, main)
        (run_server-Traced rounds fuel info known _ (set_up-Watched k laws info known) traced.holds)
