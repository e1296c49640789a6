-- ===== src/Standalone/Handlers.antt =====
-- src/temp.cpp: a new client keeps the server in order, if its descriptor is new.
use async_event_loop.Base.{
  int_eq, int_eqb, int_eqb_iff, failed, ℕ, ℤ, ◌≡◌, ◌⊎◌, refl, sym, ◌∙◌, inl, inr, Bool, Bool-cases,
  false, none, some, arith, ◌||◌, is_some, if◌then◌else◌,
}
use async_event_loop.UnorderedMap.{find}
use async_event_loop.Kernel.{Kernel, Event, EpollLaws, InterestLaws}
use async_event_loop.Kernel.Flags.{af_inet, af_inet6, epoll_ctl_add}
use async_event_loop.Standalone.{Requests, Standalone, handle_new_connection, client_mask}
use async_event_loop.Standalone.Serving.{InOrder, WatchesLess, kernel-InOrder, client-InOrder}

module _ (k : Kernel) (rs : Requests k) where
  -- `accept` gives out a descriptor that `fd_map` has already.
  unfoldable pub reuses : ℤ → Standalone k rs → Bool
  reuses sockfd s =
      let newfd = (k.accept sockfd s.kernel).0.0 in
      if failed newfd then false else is_some (find newfd s.fd_map)

  -- A destructor puts nothing on an interest list.
  abbrev pub WatchesNothingMore : Type 0
  WatchesNothingMore =
      (c : rs.HttpConnection) (t : k.State) (e d : ℤ) (mask : ℕ)
      → k.interest (rs.destroyed c t) e d ≡ some mask
      → k.interest t e d ≡ some mask

module _ (k : Kernel) (epoll : EpollLaws k) (laws : InterestLaws k) (rs : Requests k)
    (sockfd epollfd : ℤ) (due : ℤ → Type 0) where
  abbrev S : Type 0
  S = Standalone k rs

  abbrev Order : S → Type 0
  Order = InOrder k rs sockfd epollfd due

  -- Closing a descriptor, if at all, and registering it, whether or not that succeeds.
  registered-more :
      (d c : ℤ) (known : Bool) (t : k.State) (mask : ℕ)
      → k.interest
          (k.epoll_ctl epollfd epoll_ctl_add d
            (some (record { events = client_mask; fd = d }))
            (if known then t else (k.close d t).1)).1
          epollfd
          c
        ≡ some mask
      → (c ≡ d) ⊎ (k.interest t epollfd c ≡ some mask)
  registered-more d c known t mask e = ground (
    arith,
    int_eqb_iff d c,
    laws.close_forgets epollfd d c t,
    epoll.ctl_sets epollfd epoll_ctl_add d c ev t' (inl refl),
    epoll.ctl_fails epollfd epoll_ctl_add d c (some ev) t',
  )
    where
      ev : Event
      ev = record { events = client_mask; fd = d }

      t' : k.State
      t' = if known then t else (k.close d t).1

  pub handle_new_connection-InOrder :
      (s : S)
      → reuses k rs sockfd s ≡ false
      → Order s
      → Order (handle_new_connection k rs sockfd epollfd s).1
  unfolding handle_new_connection reuses
  handle_new_connection-InOrder s fresh i = elim (Bool-cases (failed newfd)) [
    | inl bad ↦
        rw (bad, handle_new_connection) (kernel-InOrder k rs sockfd epollfd due s s1 less1 i)
    | inr good ↦ elim (Bool-cases (failed (k.set_nonblock newfd s1).0)) [
      | inl refused ↦
          rw (good, refused, handle_new_connection)
            (kernel-InOrder k rs sockfd epollfd due s s2 less2 i)
      | inr set ↦
          rw (good, set, handle_new_connection)
            (client-InOrder k rs sockfd epollfd due newfd s _ (unknown good)
              (λ c mask e. elim (registered-more newfd c family_known s2 mask e) [
                | inl same ↦ inl same
                | inr before ↦ inr (less2 c mask before)
              ])
              i)
    ]
  ]
    where
      newfd : ℤ
      newfd = (k.accept sockfd s.kernel).0.0

      s1 : k.State
      s1 = (k.accept sockfd s.kernel).1

      s2 : k.State
      s2 = (k.set_nonblock newfd s1).1

      family_known : Bool
      family_known =
          let family = (k.accept sockfd s.kernel).0.1 in
          int_eqb family af_inet || int_eqb family af_inet6

      less1 : WatchesLess k rs sockfd epollfd s.kernel s1
      less1 d mask e = sym (laws.accept_keeps epollfd sockfd d s.kernel) ∙ e

      less2 : WatchesLess k rs sockfd epollfd s.kernel s2
      less2 d mask e = less1 d mask (sym (laws.nonblock_keeps epollfd newfd d s1) ∙ e)

      unknown : failed newfd ≡ false → find newfd s.fd_map ≡ none
      unknown good = ground (arith, fresh)
