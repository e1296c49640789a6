-- ===== src/SocketUtilities.antt =====
-- include/socket_utilities.h: the program's wrappers of the socket and epoll calls. Messages to the
-- error stream and the printable form of an address are left out; they change no state.
pub mod Endpoint
pub mod Sockets
pub mod Interest
pub mod Setup
use async_event_loop.Base.{
  ℕ, ℤ, pos, minus_one, failed, ◌≡◌, Bool, true, false, not, ◌||◌, Option, none, some, List, [],
  ◌∷◌, Bytes, int_eqb, ◌==◌, if◌then◌else◌,
}
use async_event_loop.Outcome.{Outcome, ok, fault, null_dereference}
use async_event_loop.Kernel.{Kernel, AddrInfo, Hints, Event}
use async_event_loop.Kernel.Flags.{
  epoll_ctl_add, epoll_ctl_mod, epoll_ctl_del, af_inet, af_inet6, sock_stream, ai_passive, eagain,
  einprogress,
}

-- The loop of `getEndpoint` over the linked list: `endpoint` is overwritten by every match.
unfoldable pub select_endpoint : ℤ → Option AddrInfo → List AddrInfo → Option AddrInfo
select_endpoint address_family endpoint [] = endpoint
select_endpoint address_family endpoint (info ∷ rest) =
    select_endpoint address_family
      (if int_eqb info.ai_family address_family then some info else endpoint) rest

module _ (k : Kernel) where
  open k use {State}

  -- A system call, or a function that makes some.
  abbrev pub Call : Type 0 → Type 0
  Call A = State → A × State

  abbrev pub pure : {A : Type 0} → A → Call A
  pure a s = (a, s)

  infixl 5 ◌>>=◌
  abbrev pub ◌>>=◌ : {A B : Type 0} → Call A → (A → Call B) → Call B
  ◌>>=◌ m f s = let (a, s') = m s in f a s'

  abbrev pub endpoint_hints : ℤ → Bool → Hints
  endpoint_hints address_family will_listen = record {
    hint_family = address_family;
    hint_socktype = sock_stream;
    hint_flags = if will_listen then ai_passive else pos 0;
  }

  unfoldable pub get_endpoint : ℤ → Bool → Bytes → Bytes → Call (Option AddrInfo)
  get_endpoint address_family will_listen address port = do
    (status, servlist) ←
        k.getaddrinfo (if will_listen then none else some address) port
          (endpoint_hints address_family will_listen)
    pure (if int_eqb status (pos 0) then select_endpoint address_family none servlist else none)

  -- `if (!will_block) …` and the return
  set_blocking : Bool → ℤ → Call ℤ
  set_blocking will_block sockfd =
      if will_block
      then pure sockfd
      else (do status ← k.set_nonblock sockfd; pure (if failed status then minus_one else sockfd))

  unfoldable pub get_socket : AddrInfo → Bool → Bool → Call ℤ
  unfolding set_blocking
  get_socket endpoint will_reuse will_block = do
    sockfd ← k.socket endpoint.ai_family endpoint.ai_socktype endpoint.ai_protocol
    if failed sockfd
        then pure minus_one
        else if will_reuse
        then (do
          status ← k.set_reuse sockfd
          if failed status then pure minus_one else set_blocking will_block sockfd)
        else set_blocking will_block sockfd

  unfoldable pub bind_and_listen : ℤ → AddrInfo → ℕ → Call ℤ
  bind_and_listen sockfd endpoint backlog = do
    bound ← k.bind sockfd endpoint.ai_addr
    if failed bound then pure minus_one else (do
      listening ← k.listen sockfd backlog
      pure (if failed listening then minus_one else pos 0))

  unfoldable pub get_epoll_instance : Call ℤ
  get_epoll_instance = do
    epollfd ← k.epoll_create1
    pure (if failed epollfd then minus_one else epollfd)

  unfoldable pub add_epoll_interest : ℤ → ℤ → ℕ → Call ℤ
  add_epoll_interest epollfd fd event_mask = do
    status ← k.epoll_ctl epollfd epoll_ctl_add fd (some (record { events = event_mask; fd = fd }))
    pure (if failed status then minus_one else pos 0)

  unfoldable pub modify_epoll_interest : ℤ → ℤ → ℕ → Call ℤ
  modify_epoll_interest epollfd fd event_mask = do
    status ← k.epoll_ctl epollfd epoll_ctl_mod fd (some (record { events = event_mask; fd = fd }))
    pure (if failed status then minus_one else pos 0)

  -- The call has `fd` in the place of the operation and EPOLL_CTL_DEL in that of the descriptor.
  unfoldable pub remove_epoll_interest : ℤ → ℤ → Call ℤ
  remove_epoll_interest epollfd fd = do
    status ← k.epoll_ctl epollfd fd epoll_ctl_del none
    pure (if failed status then minus_one else pos 0)

  -- With an address family that is not known the new descriptor is closed, and returned.
  unfoldable pub accept_connection : ℤ → Call ℤ
  accept_connection listen_sock = do
    (newfd, family) ← k.accept listen_sock
    if failed newfd then pure minus_one else (do
      status ← k.set_nonblock newfd
      if failed status
          then pure minus_one
          else if int_eqb family af_inet || int_eqb family af_inet6
          then pure newfd
          else (do closed ← k.close newfd; pure newfd))

  unfoldable pub close_connection : ℤ → Call ℤ
  close_connection socketfd = do
    status ← k.close socketfd
    pure (if failed status then minus_one else pos 0)

  connect_endpoint : AddrInfo → Call ℤ
  connect_endpoint endpoint = do
    sockfd ← get_socket endpoint false false
    status ← k.connect sockfd endpoint.ai_addr
    λ s.
        if failed status
        then if k.errno s == einprogress || k.errno s == eagain then (sockfd, s) else (minus_one, s)
        else (sockfd, s)

  -- `getSocket` reads through the endpoint, which may be NULL.
  unfoldable pub create_connection : ℤ → Bytes → Bytes → State → Outcome (ℤ × State)
  unfolding connect_endpoint
  create_connection address_family address port s =
      let (endpoint, s') = get_endpoint address_family false address port s in
      elim endpoint [ none ↦ fault null_dereference | some info ↦ ok (connect_endpoint info s') ]
