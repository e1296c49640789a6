-- ===== src/Standalone/Lifetime.antt =====
-- src/temp.cpp, `main`: its event loop, and how the program ends.
use mathlib.Core.List.{mem-map}
use mathlib.Core.Logic.{∥∥₁_elim}
use async_event_loop.Base.{
  int_eq, int_eqb, int_eqb_iff, ap, ℕ, zero, suc, ℤ, pos, ◌≡◌, refl, sym, ◌∙◌, inl, inr, Bool,
  Bool-cases, true, false, none, some, List, arith, is_some, is_some-value,
}
use async_event_loop.Outcome.{ok, Safe, Safe-bind, Safe-self, Safe-weaken}
use async_event_loop.Kernel.{
  Kernel, AddrInfo, Event, Waited, ready, wait_error, EpollLaws, InterestLaws, WaitLaws,
}
use async_event_loop.UnorderedMap.{find}
use async_event_loop.Kernel.Flags.{epoll_ctl_add, epollin}
use async_event_loop.Standalone.{
  Requests, Standalone, Ended, returned, exited, conn_port, max_events, handle_events, event_loop,
}
use async_event_loop.Standalone.Serving.{InOrder, kernel-InOrder}
use async_event_loop.Standalone.Events.{
  Due, AfterEvents, reuses_in, reuses_from, handle_events-AfterEvents,
}
use async_event_loop.Standalone.Startup.{
  Setup, up, down, Up, set_up, set_up-Up, idle, run_server, first_ipv4, hints, main,
}
use async_event_loop.Standalone.Handlers.{WatchesNothingMore}

module _ (k : Kernel) (epoll : EpollLaws k) (laws : InterestLaws k) (waiting : WaitLaws k)
    (rs : Requests k) (destructor : WatchesNothingMore k rs) (fuel : ℕ) where
  abbrev S : Type 0
  S = Standalone k rs

  module _ (sockfd epollfd : ℤ) where
    abbrev Idle : S → Type 0
    Idle = InOrder k rs sockfd epollfd (λ d. ⊥)

    abbrev Handled : Ended × S → Type 0
    Handled = AfterEvents k rs sockfd epollfd

    -- The program has ended with `exit(1)`, in order.
    abbrev pub Exits : Ended × S → Type 0
    Exits (ended, s) = (ended ≡ exited 1) × Idle s

    abbrev woken : S → S
    woken s = record s { kernel = (k.epoll_wait epollfd max_events s.kernel).1 }

    woken-InOrder : (s : S) → Idle s → Idle (woken s)
    woken-InOrder s =
        kernel-InOrder k rs sockfd epollfd (λ d. ⊥) s _
          (λ d mask e. sym (waiting.wait_keeps epollfd max_events epollfd d s.kernel) ∙ e)

    -- What is reported leads where it should.
    reported-InOrder :
        (evs : List Event) (s : S)
        → (k.epoll_wait epollfd max_events s.kernel).0 ≡ ready evs
        → Idle s
        → InOrder k rs sockfd epollfd (Due evs) (woken s)
    reported-InOrder evs s told i = record {
      watched = awake.watched;
      queued = λ d m.
          let (mask, e) = is_some-value (watched d m) in
          awake.watched d mask (waiting.wait_keeps epollfd max_events epollfd d s.kernel ∙ e);
      made = i.made;
      own = i.own;
    }
      where
        awake : Idle (woken s)
        awake = woken-InOrder s i

        watched : (d : ℤ) → Due evs d → is_some (k.interest s.kernel epollfd d) ≡ true
        watched d m = ∥∥₁_elim (mem-map.0 m) (hlevel) (λ (ev, among, e).
            rw (← e) (waiting.wait_watched epollfd max_events s.kernel evs told ev among))

    abbrev Again : ℕ → Type 0
    Again rounds =
        (s : S)
        → reuses_from k rs rounds fuel sockfd epollfd s ≡ false
        → Idle s
        → Safe Exits (event_loop k rs rounds fuel sockfd epollfd s)

    events-Exits :
        (rounds : ℕ) (evs : List Event) (s : S)
        → Again rounds
        → (k.epoll_wait epollfd max_events s.kernel).0 ≡ ready evs
        → reuses_from k rs (suc rounds) fuel sockfd epollfd s ≡ false
        → Idle s
        → Safe Exits (event_loop k rs (suc rounds) fuel sockfd epollfd s)
    unfolding event_loop reuses_from
    events-Exits rounds evs s again told fresh i =
        elim (Bool-cases (reuses_in k rs fuel sockfd epollfd evs (woken s))) [
          | inl old ↦ let bad : true ≡ false = rw (told, old, reuses_from) at fresh in cc
          | inr new ↦
              rw (told, event_loop)
                (Safe-bind
                  (λ done.
                    Handled done × (handle_events k rs fuel sockfd epollfd evs (woken s) ≡ ok done))
                  Exits (handle_events k rs fuel sockfd epollfd evs (woken s)) _
                  (Safe-self Handled (handle_events k rs fuel sockfd epollfd evs (woken s)) (
                    handle_events-AfterEvents k epoll laws rs destructor fuel sockfd epollfd evs
                      (woken s) (waiting.wait_once epollfd max_events s.kernel evs told) new
                      (reported-InOrder evs s told i)))
                  (next new))
        ]
      where
        next :
            reuses_in k rs fuel sockfd epollfd evs (woken s) ≡ false
            → (done : Ended × S)
            → Handled done × (handle_events k rs fuel sockfd epollfd evs (woken s) ≡ ok done)
            → Safe Exits (elim done.0 [
              | returned status ↦ event_loop k rs rounds fuel sockfd epollfd done.1
              | exited code ↦ ok done
            ])
        next new (returned status, s') ((_, i'), e) =
            again s' (rw (told, new, e, reuses_from) at fresh) i'
        next new (exited code, s') ((one, i'), e) = (ap exited one, i')

    pub event_loop-Exits :
        (rounds : ℕ) (s : S)
        → reuses_from k rs rounds fuel sockfd epollfd s ≡ false
        → Idle s
        → Safe Exits (event_loop k rs rounds fuel sockfd epollfd s)
    unfolding event_loop
    event_loop-Exits zero s fresh i = tt
    event_loop-Exits (suc rounds) s fresh i =
        go (k.epoll_wait epollfd max_events s.kernel).0 refl (event_loop-Exits rounds)
      where
        go :
            (w : Waited)
            → (k.epoll_wait epollfd max_events s.kernel).0 ≡ w
            → Again rounds
            → Safe Exits (event_loop k rs (suc rounds) fuel sockfd epollfd s)
        go (ready evs) e again = events-Exits rounds evs s again e fresh i
        go wait_error e again = rw (e, event_loop) (refl, woken-InOrder s i)

  -- Before its first client the server is in order, if epoll watches the listening socket at most.
  idle-Idle :
      (sockfd epollfd : ℤ) (s : k.State)
      → ((d : ℤ) (mask : ℕ) → k.interest s epollfd d ≡ some mask → d ≡ sockfd)
      → Idle sockfd epollfd (idle k rs s)
  unfolding find
  idle-Idle sockfd epollfd s alone = record {
    watched = λ d mask e. inl (alone d mask e);
    queued = λ d x. absurd x;
    made = λ d p e. cc;
    own = λ d c p e f. cc;
  }

  -- A descriptor is given out again in the run of the server that has been set up.
  unfoldable pub reuses_after : ℕ → Setup (ℤ × ℤ) × k.State → Bool
  reuses_after rounds (up (sockfd, epollfd), s) =
      reuses_from k rs rounds fuel sockfd epollfd (idle k rs s)
  reuses_after rounds (down, s) = false

  abbrev Alone : ℤ → ℤ → k.State → Type 0
  Alone sockfd epollfd s = (d : ℤ) (mask : ℕ) → k.interest s epollfd d ≡ some mask → d ≡ sockfd

  set_up-Alone : (info : AddrInfo) (s : k.State) → Up k Alone (set_up k info s)
  set_up-Alone = set_up-Up k Alone λ sockfd s done d mask e.
      let (epollfd, s6) = k.epoll_create1 s in
      ground (
        arith,
        int_eqb_iff sockfd d,
        laws.created_empty d s,
        epoll.ctl_sets epollfd epoll_ctl_add sockfd d (record { events = epollin; fd = sockfd }) s6
            (inl refl) done,
        e,
      )

  run_server_exits :
      (rounds : ℕ) (done : Setup (ℤ × ℤ) × k.State)
      → Up k Alone done
      → reuses_after rounds done ≡ false
      → Safe (λ r. r.0 ≡ exited 1) (run_server k rs rounds fuel done)
  unfolding run_server reuses_after
  run_server_exits rounds (up (sockfd, epollfd), s) alone fresh =
      Safe-weaken (Exits sockfd epollfd) (λ r. r.0 ≡ exited 1) _
        (event_loop-Exits sockfd epollfd rounds (idle k rs s) fresh
          (idle-Idle sockfd epollfd s alone))
        (λ r e. e.0)
  run_server_exits rounds (down, s) alone fresh = refl

  -- Where the host has an address of IPv4, `main` never uses a connection that is gone, deletes none
  -- twice and reads through no NULL, for any bounds on the rounds of its loops, whatever clients do and
  -- whatever of the documented the system calls return, as long as `accept` gives out no descriptor that
  -- `fd_map` has. It ends with `exit(1)` only. The destructor of a connection must put nothing on an
  -- interest list.
  pub main_exits :
      (rounds : ℕ) (s : k.State) (info : AddrInfo)
      → first_ipv4 (k.getaddrinfo none conn_port hints s).0.1 ≡ some info
      → reuses_after rounds (set_up k info (k.getaddrinfo none conn_port hints s).1) ≡ false
      → Safe (λ r. r.0 ≡ exited 1) (main k rs rounds fuel s)
  unfolding main
  main_exits rounds s info found fresh =
      elim (Bool-cases (int_eqb (k.getaddrinfo none conn_port hints s).0.0 (pos 0))) [
        | inl good ↦
            rw (good, found, main)
              (run_server_exits rounds _
                (set_up-Alone info (k.getaddrinfo none conn_port hints s).1) fresh)
        | inr bad ↦ rw (bad, main) refl
      ]
