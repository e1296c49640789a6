-- ===== src/Standalone/Startup.antt =====
-- src/temp.cpp, `main`: from the addresses of the host to the event loop.
use async_event_loop.Base.{
  int_tests, All, int_eq, int_eqb, int_eqb_iff, ℕ, ℤ, pos, failed, ◌≡◌, ◌≢◌, ◌⊎◌, inl, inr, refl,
  ◌∙◌, Bool-cases, false, true, Option, none, some, List, [], ◌∷◌, ◌++◌, arith, if◌then◌else◌,
}
use async_event_loop.Outcome.{Outcome, ok, fault, null_dereference}
use async_event_loop.Kernel.{Kernel, AddrInfo, Hints, Event, EpollLaws}
use async_event_loop.Kernel.Flags.{
  af_unspec, af_inet, ai_passive, sock_stream, epoll_ctl_add, epollin,
}
use async_event_loop.Standalone.{
  Requests, Ended, exited, Standalone, conn_port, conn_backlog, event_loop,
}
pub mod Choice

-- The loop over the addresses, which stops at the first of IPv4; `none` is its end.
unfoldable pub first_ipv4 : List AddrInfo → Option AddrInfo
first_ipv4 [] = none
first_ipv4 (info ∷ rest) = if int_eqb info.ai_family af_inet then some info else first_ipv4 rest

-- How the calls that set the server up end.
pub data Setup (A : Type 0) : Type 0 where
  up : A → Setup A
  down : Setup A

abbrev pub hints : Hints
hints = record { hint_family = af_unspec; hint_socktype = sock_stream; hint_flags = ai_passive }

module _ (k : Kernel) where
  -- Every failure ends the program with `exit(1)`, here `down`.
  unfoldable pub check :
      {A : Type 0} → ℤ × k.State → (ℤ → k.State → Setup A × k.State) → Setup A × k.State
  check (status, s) next = if failed status then (down, s) else next status s

  -- From `socket` to the registration of the listening socket: its descriptor and that of epoll.
  unfoldable pub set_up : AddrInfo → k.State → Setup (ℤ × ℤ) × k.State
  set_up info s = check (k.socket info.ai_family info.ai_socktype info.ai_protocol s) λ sockfd s1.
      check (k.set_reuse sockfd s1) λ _ s2. check (k.set_nonblock sockfd s2) λ _ s3.
        check (k.bind sockfd info.ai_addr s3) λ _ s4.
          check (k.listen sockfd conn_backlog s4) λ _ s5. check (k.epoll_create1 s5) λ epollfd s6.
            check
              (k.epoll_ctl epollfd epoll_ctl_add sockfd
                (some (record { events = epollin; fd = sockfd })) s6)
              λ _ s7. (up (sockfd, epollfd), s7)

  -- The server before its first client.
  abbrev pub idle : (rs : Requests k) → k.State → Standalone k rs
  idle rs s = record { kernel = s; fd_map = []; connections = [] }

  unfoldable pub run_server :
      (rs : Requests k) → ℕ → ℕ → Setup (ℤ × ℤ) × k.State → Outcome (Ended × Standalone k rs)
  run_server rs rounds fuel (up (sockfd, epollfd), s) =
      event_loop k rs rounds fuel sockfd epollfd (idle rs s)
  run_server rs rounds fuel (down, s) = ok (exited 1, idle rs s)

  -- `main`, with bounds on the rounds of its loops. The members of the address are read even where
  -- the loop over the addresses has found none.
  unfoldable pub main : (rs : Requests k) → ℕ → ℕ → k.State → Outcome (Ended × Standalone k rs)
  main rs rounds fuel s =
      let ((status, servlist), s1) = k.getaddrinfo none conn_port hints s in
      if int_eqb status (pos 0)
      then (elim (first_ipv4 servlist) [
        | none ↦ fault null_dereference
        | some info ↦ run_server rs rounds fuel (set_up info s1)
      ])
      else ok (exited 1, idle rs s1)

first_ipv4-none :
    (servlist : List AddrInfo)
    → All (λ info. info.ai_family ≢ af_inet) servlist
    → first_ipv4 servlist ≡ none
unfolding first_ipv4
first_ipv4-none [] h = refl
first_ipv4-none (info ∷ rest) h =
    ground (arith, int_eqb_iff info.ai_family af_inet, first_ipv4-none rest h.1, h.0)

pub first_ipv4-some :
    (before after : List AddrInfo) (info : AddrInfo)
    → All (λ i. i.ai_family ≢ af_inet) before
    → info.ai_family ≡ af_inet
    → first_ipv4 (before ++ (info ∷ after)) ≡ some info
unfolding first_ipv4
first_ipv4-some [] after info h e = grind int_tests
first_ipv4-some (i ∷ before) after info h e =
    ground (arith, int_eqb_iff i.ai_family af_inet, first_ipv4-some before after info h.1 e, h.0)

module _ (k : Kernel) where
  -- If the server is up, this holds of its socket, its epoll instance and the system.
  abbrev pub Up : (ℤ → ℤ → k.State → Type 0) → Setup (ℤ × ℤ) × k.State → Type 0
  Up P (down, s) = Unit
  Up P (up (sockfd, epollfd), s) = P sockfd epollfd s

  record IsUp (P : ℤ → ℤ → k.State → Type 0) (done : Setup (ℤ × ℤ) × k.State) : Type 0 where
    pub holds : Up P done

  check-IsUp :
      (P : ℤ → ℤ → k.State → Type 0) (r : ℤ × k.State)
      (next : ℤ → k.State → Setup (ℤ × ℤ) × k.State)
      → (failed r.0 ≡ false → IsUp P (next r.0 r.1))
      → IsUp P (check k r next)
  unfolding check
  check-IsUp P (status, s) next h = elim (Bool-cases (failed status)) [
    | inl bad ↦ rw (bad, check) (record { holds = tt })
    | inr good ↦ rw (good, check) (h good)
  ]

  abbrev pub listening : ℤ → Option Event
  listening sockfd = some (record { events = epollin; fd = sockfd })

  -- What holds once the socket has been registered with a new epoll instance holds if the server is up.
  pub set_up-Up :
      (P : ℤ → ℤ → k.State → Type 0)
      → ((sockfd : ℤ) (s : k.State)
          → let (epollfd, s6) = k.epoll_create1 s in
            let (status, s7) = k.epoll_ctl epollfd epoll_ctl_add sockfd (listening sockfd) s6 in
            failed status ≡ false → P sockfd epollfd s7)
      → (info : AddrInfo) (s : k.State) → Up P (set_up k info s)
  unfolding set_up
  set_up-Up P registered info s =
      let all : IsUp P (set_up k info s) = check-IsUp P _ _ λ _. check-IsUp P _ _ λ _.
        check-IsUp P _ _ λ _. check-IsUp P _ _ λ _. check-IsUp P _ _ λ _.
          check-IsUp P _ _ λ _. check-IsUp P _ _ λ done. record { holds = registered _ _ done } in
      all.holds

  -- epoll watches the socket for EPOLLIN.
  abbrev pub Watched : Setup (ℤ × ℤ) × k.State → Type 0
  Watched = Up (λ sockfd epollfd s. k.interest s epollfd sockfd ≡ some epollin)

  pub set_up-Watched :
      (laws : EpollLaws k) (info : AddrInfo) (s : k.State) → Watched (set_up k info s)
  set_up-Watched laws = set_up-Up _ λ sockfd s done.
      laws.ctl_sets _ epoll_ctl_add sockfd sockfd _ _ (inl refl) done ∙ grind int_tests

module _ (k : Kernel) (rs : Requests k) where
  -- Where the system knows addresses but none of IPv4, `main` reads through NULL.
  pub main_needs_ipv4 :
      (rounds fuel : ℕ) (s : k.State)
      → (k.getaddrinfo none conn_port hints s).0.0 ≡ pos 0
      → All (λ info. info.ai_family ≢ af_inet) (k.getaddrinfo none conn_port hints s).0.1
      → main k rs rounds fuel s ≡ fault null_dereference
  unfolding main
  main_needs_ipv4 rounds fuel s e h = rw (e, first_ipv4-none _ h, main)
