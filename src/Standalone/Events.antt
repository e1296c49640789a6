-- ===== src/Standalone/Events.antt =====
-- src/temp.cpp: the events of one `epoll_wait`, handled one after the other.
use mathlib.Core.List.{Mem, Nodup, Nodup-cons, mem-cons_self, mem-cons_of_mem}
use async_event_loop.Base.{
  int_tests, int_eq, int_eqb, ℕ, zero, suc, ℤ, pos, ◌≡◌, refl, inl, inr, Bool, Bool-cases, true,
  false, List, [], ◌∷◌, arith, map, if◌then◌else◌,
}
use async_event_loop.Outcome.{ok, fault, Safe, Safe-bind, Safe-self}
use async_event_loop.Kernel.{Kernel, Event, ready, wait_error, EpollLaws, InterestLaws}
use async_event_loop.Standalone.{
  Requests, Standalone, Ended, returned, exited, max_events, handle_new_connection,
  handle_already_connected, handle_events,
}
use async_event_loop.Standalone.Serving.{InOrder, IsServed, due-InOrder}
use async_event_loop.Standalone.Handlers.{reuses, WatchesNothingMore, handle_new_connection-InOrder}
use async_event_loop.Standalone.Clients.{handle_already_connected-InOrder}

-- The descriptors of the events that are still to be handled.
abbrev pub Due : List Event → ℤ → Type 0
Due evs d = Mem d (map (λ ev. ev.fd) evs)

module _ (k : Kernel) (rs : Requests k) where
  -- While the events are handled, `accept` gives out a descriptor that `fd_map` has already.
  unfoldable pub reuses_in : ℕ → ℤ → ℤ → List Event → Standalone k rs → Bool
  reuses_in fuel sockfd epollfd [] s = false
  reuses_in fuel sockfd epollfd (ev ∷ evs) s =
      if int_eqb ev.fd sockfd
      then (if reuses k rs sockfd s
          then true
          else (let (ended, s') = handle_new_connection k rs sockfd epollfd s in
              elim ended [
                | returned status ↦ reuses_in fuel sockfd epollfd evs s'
                | exited code ↦ false
              ]))
      else (elim (handle_already_connected k rs fuel ev s) [
        | ok s' ↦ reuses_in fuel sockfd epollfd evs s'
        | fault x ↦ false
      ])

  -- The same of a run of the event loop.
  unfoldable pub reuses_from : ℕ → ℕ → ℤ → ℤ → Standalone k rs → Bool
  reuses_from zero fuel sockfd epollfd s = false
  reuses_from (suc rounds) fuel sockfd epollfd s =
      let (waited, s1) = k.epoll_wait epollfd max_events s.kernel in
      let s' : Standalone k rs = record s { kernel = s1 } in
      elim waited [
        | wait_error ↦ false
        | ready evs ↦
            if reuses_in fuel sockfd epollfd evs s'
            then true
            else (elim (handle_events k rs fuel sockfd epollfd evs s') [
              | ok done ↦ elim done.0 [
                | returned status ↦ reuses_from rounds fuel sockfd epollfd done.1
                | exited code ↦ false
              ]
              | fault x ↦ false
            ])
      ]

  module _ (sockfd epollfd : ℤ) where
    -- In order after the events, with `exit(1)` as the only early end.
    abbrev pub AfterEvents : Ended × Standalone k rs → Type 0
    AfterEvents (returned status, s) = (status ≡ pos 0) × InOrder k rs sockfd epollfd (λ d. ⊥) s
    AfterEvents (exited code, s) = (code ≡ 1) × InOrder k rs sockfd epollfd (λ d. ⊥) s

module _ (k : Kernel) (epoll : EpollLaws k) (laws : InterestLaws k) (rs : Requests k)
    (destructor : WatchesNothingMore k rs) (fuel : ℕ) (sockfd epollfd : ℤ) where
  abbrev S : Type 0
  S = Standalone k rs

  abbrev Order : (ℤ → Type 0) → S → Type 0
  Order due = InOrder k rs sockfd epollfd due

  abbrev After : Ended × S → Type 0
  After = AfterEvents k rs sockfd epollfd

  handle_new_connection_exits :
      (s : S) (code : ℕ) → (handle_new_connection k rs sockfd epollfd s).0 ≡ exited code → code ≡ 1
  unfolding handle_new_connection
  handle_new_connection_exits s code e = ground arith

  -- After one event the others are handled safely, if no descriptor is given out again.
  abbrev Next : List Event → Type 0
  Next evs =
      (s : S)
      → reuses_in k rs fuel sockfd epollfd evs s ≡ false
      → Order (Due evs) s
      → Safe After (handle_events k rs fuel sockfd epollfd evs s)

  new_client-AfterEvents :
      (ev : Event) (evs : List Event) (s : S)
      → Next evs
      → int_eqb ev.fd sockfd ≡ true
      → reuses_in k rs fuel sockfd epollfd (ev ∷ evs) s ≡ false
      → Order (Due evs) s
      → Safe After (handle_events k rs fuel sockfd epollfd (ev ∷ evs) s)
  unfolding handle_events reuses_in
  new_client-AfterEvents ev evs s next listening fresh i =
      elim (Bool-cases (reuses k rs sockfd s)) [
        | inl old ↦ let bad : true ≡ false = rw (listening, old, reuses_in) at fresh in cc
        | inr new ↦ go (handle_new_connection k rs sockfd epollfd s).0 refl new
      ]
    where
      s' : S
      s' = (handle_new_connection k rs sockfd epollfd s).1

      i' : reuses k rs sockfd s ≡ false → Order (Due evs) s'
      i' new = handle_new_connection-InOrder k epoll laws rs sockfd epollfd (Due evs) s new i

      go :
          (r : Ended)
          → (handle_new_connection k rs sockfd epollfd s).0 ≡ r
          → reuses k rs sockfd s ≡ false
          → Safe After (handle_events k rs fuel sockfd epollfd (ev ∷ evs) s)
      go (returned status) e new =
          rw (listening, e, handle_events)
            (next s' (rw (listening, new, e, reuses_in) at fresh) (i' new))
      go (exited code) e new =
          rw (listening, e, handle_events)
            (
              handle_new_connection_exits s code e,
              due-InOrder k rs sockfd epollfd (Due evs) (λ d. ⊥) s' (λ d x. absurd x) (i' new),
            )

  old_client-AfterEvents :
      (ev : Event) (evs : List Event) (s : S)
      → Next evs
      → int_eqb ev.fd sockfd ≡ false
      → reuses_in k rs fuel sockfd epollfd (ev ∷ evs) s ≡ false
      → IsServed k rs ev.fd s
      → ¬ Due evs ev.fd
      → Order (Due evs) s
      → Safe After (handle_events k rs fuel sockfd epollfd (ev ∷ evs) s)
  unfolding handle_events reuses_in
  old_client-AfterEvents ev evs s next other fresh (p, found, live) done i =
      rw (other, handle_events)
        (Safe-bind (λ s'. Order (Due evs) s' × (handle_already_connected k rs fuel ev s ≡ ok s'))
          After (handle_already_connected k rs fuel ev s) _
          (Safe-self (Order (Due evs)) (handle_already_connected k rs fuel ev s) (
            handle_already_connected-InOrder k laws rs sockfd epollfd (Due evs) destructor fuel ev p
              s (i, found, live, done)))
          (λ s' (i', e). next s' (rw (other, e, reuses_in) at fresh) i'))

  -- The events of one `epoll_wait`, each descriptor once, are handled one after the other without a use
  -- of a connection that is gone, a second `delete` or a read through NULL, if every descriptor that
  -- epoll watches or an event names is the listening socket or leads to a live connection of its own,
  -- and `accept` gives out no descriptor meanwhile that `fd_map` has. Afterwards every watched descriptor
  -- still leads there; only the failure to set a client up, with `exit(1)`, ends the program. This holds
  -- for any bound on the rounds of the loop over `recv`; the destructor of a connection must put nothing
  -- on an interest list.
  pub handle_events-AfterEvents :
      (evs : List Event) (s : S)
      → Nodup (map (λ ev. ev.fd) evs)
      → reuses_in k rs fuel sockfd epollfd evs s ≡ false
      → Order (Due evs) s
      → Safe After (handle_events k rs fuel sockfd epollfd evs s)
  unfolding handle_events
  handle_events-AfterEvents [] s once fresh i =
      (refl, due-InOrder k rs sockfd epollfd (Due []) (λ d. ⊥) s (λ d x. absurd x) i)
  handle_events-AfterEvents (ev ∷ evs) s once fresh i =
      let (done, rest) = Nodup-cons.0 once in
      let i' : Order (Due evs) s =
        due-InOrder k rs sockfd epollfd (Due (ev ∷ evs)) (Due evs) s
          (λ d m. mem-cons_of_mem ev.fd m) i in
      let next : Next evs = (λ s'. handle_events-AfterEvents evs s' rest) in
      elim (Bool-cases (int_eqb ev.fd sockfd)) [
        | inl listening ↦ new_client-AfterEvents ev evs s next listening fresh i'
        | inr other ↦ elim (i.queued ev.fd mem-cons_self) [
          | inl same ↦ absurd (grind int_tests)
          | inr served ↦ old_client-AfterEvents ev evs s next other fresh served done i'
        ]
      ]
