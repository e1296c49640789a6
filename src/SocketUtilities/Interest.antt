-- ===== src/SocketUtilities/Interest.antt =====
-- include/socket_utilities.h: what the epoll wrappers do to the interest list.
use async_event_loop.Base.{
  ℕ, ℤ, pos, minus_one, failed, ◌≡◌, ◌≢◌, refl, ◌⊎◌, inl, inr, Bool-cases, none, some, arith,
  int_eqb, if◌then◌else◌,
}
use async_event_loop.Kernel.{Kernel, EpollLaws}
use async_event_loop.Kernel.Flags.{epoll_ctl_add, epoll_ctl_mod, epoll_ctl_del}
use async_event_loop.SocketUtilities.{
  add_epoll_interest, modify_epoll_interest, remove_epoll_interest,
}

module _ (k : Kernel) where
  open k use {State, interest}

  -- What a call did to the interest list of `e`: it watches `d` under `mask` if it returned 0; if it
  -- returned -1 nothing changed.
  abbrev pub Watches : ℤ → ℤ → ℕ → State → ℤ × State → Type 0
  Watches e d mask s (r, s') =
      ((r ≡ pos 0)
        × ((c : ℤ) → interest s' e c ≡ (if int_eqb d c then some mask else interest s e c)))
      ⊎ ((r ≡ minus_one) × ((c : ℤ) → interest s' e c ≡ interest s e c))

module _ (k : Kernel) (laws : EpollLaws k) where
  open k use {State, interest}

  pub add_epoll_interest-Watches :
      (e d : ℤ) (mask : ℕ) (s : State) → Watches k e d mask s (add_epoll_interest k e d mask s)
  unfolding add_epoll_interest
  add_epoll_interest-Watches e d mask s = elim (Bool-cases (failed status)) [
    | inl down ↦ rw down (inr (refl, λ c. laws.ctl_fails e epoll_ctl_add d c _ s down))
    | inr up ↦ rw up (inl (refl, λ c. laws.ctl_sets e epoll_ctl_add d c _ s (inl refl) up))
  ]
    where
      status : ℤ
      status = (k.epoll_ctl e epoll_ctl_add d (some (record { events = mask; fd = d })) s).0

  pub modify_epoll_interest-Watches :
      (e d : ℤ) (mask : ℕ) (s : State) → Watches k e d mask s (modify_epoll_interest k e d mask s)
  unfolding modify_epoll_interest
  modify_epoll_interest-Watches e d mask s = elim (Bool-cases (failed status)) [
    | inl down ↦ rw down (inr (refl, λ c. laws.ctl_fails e epoll_ctl_mod d c _ s down))
    | inr up ↦ rw up (inl (refl, λ c. laws.ctl_sets e epoll_ctl_mod d c _ s (inr refl) up))
  ]
    where
      status : ℤ
      status = (k.epoll_ctl e epoll_ctl_mod d (some (record { events = mask; fd = d })) s).0

  -- `removeEpollInterest` fails on every descriptor but 1, 2 and 3, and then watches as before: the
  -- descriptor stands in the place of the operation.
  pub remove_epoll_interest_fails :
      (e d : ℤ) (s : State)
      → d ≢ epoll_ctl_add
      → d ≢ epoll_ctl_mod
      → d ≢ epoll_ctl_del
      → let (r, s') = remove_epoll_interest k e d s in
        (r ≡ minus_one) × ((c : ℤ) → interest s' e c ≡ interest s e c)
  unfolding remove_epoll_interest
  remove_epoll_interest_fails e d s not_add not_mod not_del =
      rw invalid (refl, λ c. laws.ctl_fails e d epoll_ctl_del c none s (ground (arith, invalid)))
    where
      invalid : (k.epoll_ctl e d epoll_ctl_del none s).0 ≡ minus_one
      invalid = laws.ctl_invalid e d epoll_ctl_del none s not_add not_mod not_del
