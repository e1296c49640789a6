-- ===== src/Tests/Simulation.antt =====
-- A small system that answers the program's calls from scripts.
pub mod Laws
use async_event_loop.Base.{
  int_eq, ap, ltb, negsuc, ℕ, suc, ℤ, pos, minus_one, failed, ◌≤◌, ◌≡◌, ◌||◌, ◌≢◌, refl, ◌⊎◌, inl,
  inr, Bool, true, false, Option, none, some, List, [], ◌∷◌, ◌++◌, arith, Bytes, int_eqb,
  int_eqb_iff, leb, if◌then◌else◌, length, take,
}
use async_event_loop.Kernel.{
  Kernel, AddrInfo, Event, Received, recv_error, Sent, sent, send_error, Waited, ready, wait_error,
  SocketLaws, EpollLaws, InterestLaws, SendLaws, WaitLaws, IsDescriptor,
}
use async_event_loop.Tests.Reports.{is_report, watched_of_report, once_of_report}
use async_event_loop.Kernel.Flags.{epoll_ctl_add, epoll_ctl_mod, epoll_ctl_del, eagain}

-- Each list is the answers to come of one kind of call.
pub record Sim : Type 0 where
  pub next : ℕ
  pub refuses_options : Bool
  pub opened : ℤ → Bool
  pub reusable : ℤ → Bool
  pub nonblocking : ℤ → Bool
  pub bound : ℤ → Bool
  pub listening : ℤ → Bool
  pub watching : ℤ → Option ℕ
  pub hosts : List AddrInfo
  pub peers : List ℤ
  pub waits : List (List Event)
  pub inbox : List Received
  pub limits : List ℕ
  pub written : ℤ → Bytes

abbrev pub update {ℓ} : {A : Type ℓ} → (ℤ → A) → ℤ → A → ℤ → A
update f d a c = if int_eqb d c then a else f c

abbrev pub sim_open : Sim → ℤ × Sim
sim_open s =
    (pos s.next, record s { next = suc s.next; opened = update s.opened (pos s.next) true })

-- A new epoll instance takes the place of the one before.
abbrev pub sim_epoll_create : Sim → ℤ × Sim
sim_epoll_create s = let (d, s') = sim_open s in (d, record s' { watching = λ c. none })

abbrev pub sim_option : ℤ → (Sim → Sim) → Sim → ℤ × Sim
sim_option d f s = if s.refuses_options then (minus_one, s) else (pos 0, f s)

abbrev pub sim_accept : List ℤ → Sim → (ℤ × ℤ) × Sim
sim_accept [] s = ((minus_one, pos 0), s)
sim_accept (family ∷ rest) s = let (d, s') = sim_open s in ((d, family), record s' { peers = rest })

-- There are a thousand descriptors.
abbrev pub below : ℤ → Bool
below (pos n) = ltb n 1000
below (negsuc n) = false

abbrev pub seen : (ℤ → Option ℕ) → ℤ → Option ℕ
seen f d = if below d then f d else none

-- ADD and MOD set the mask of a descriptor, DEL takes it away, and no other operation is known.
abbrev pub sim_watch : ℤ → ℤ → Option Event → Sim → ℤ × Sim
sim_watch op d none s =
    if int_eqb op epoll_ctl_del
    then (pos 0, record s { watching = update s.watching d none })
    else (minus_one, s)
sim_watch op d (some ev) s =
    if below d
    then (if int_eqb op epoll_ctl_add || int_eqb op epoll_ctl_mod
        then (pos 0, record s { watching = update s.watching d (some ev.events) })
        else if int_eqb op epoll_ctl_del
        then (pos 0, record s { watching = update s.watching d none })
        else (minus_one, s))
    else (minus_one, s)

-- The next list is reported if it may be.
abbrev pub sim_wait : ℕ → List (List Event) → Sim → Waited × Sim
sim_wait n [] s = (wait_error, s)
sim_wait n (evs ∷ rest) s =
    if is_report (seen s.watching) evs
    then (if leb (length evs) n then (ready evs, record s { waits = rest }) else (wait_error, s))
    else (wait_error, s)

abbrev pub sim_recv : List Received → Sim → Received × Sim
sim_recv [] s = (recv_error eagain, s)
sim_recv (r ∷ rest) s = (r, record s { inbox = rest })

abbrev pub sim_send : ℤ → Bytes → List ℕ → Sim → Sent × Sim
sim_send d bs [] s = (send_error eagain, s)
sim_send d bs (n ∷ rest) s =
    let m = if leb n (length bs) then n else length bs in
    (sent m, record s { limits = rest; written = update s.written d (s.written d ++ take m bs) })

abbrev pub sim : Kernel
sim = record {
  State = Sim;
  errno = λ s. eagain;
  is_open = λ s. s.opened;
  is_reusable = λ s. s.reusable;
  is_nonblocking = λ s. s.nonblocking;
  is_bound = λ s. s.bound;
  is_listening = λ s. s.listening;
  interest = λ s e d. seen s.watching d;
  outgoing = λ s. s.written;
  getaddrinfo = λ address port hints s. ((pos 0, s.hosts), s);
  socket = λ f t p s. sim_open s;
  set_reuse = λ d. sim_option d (λ s. record s { reusable = update s.reusable d true });
  set_nonblock = λ d. sim_option d (λ s. record s { nonblocking = update s.nonblocking d true });
  bind = λ d a s. (pos 0, record s { bound = update s.bound d true });
  listen = λ d n s. (pos 0, record s { listening = update s.listening d true });
  accept = λ d s. sim_accept s.peers s;
  connect = λ d a s. (minus_one, s);
  close = λ d s.
      (pos 0, record s { opened = update s.opened d false; watching = update s.watching d none });
  epoll_create1 = sim_epoll_create;
  epoll_ctl = λ e op d ev s. sim_watch op d ev s;
  epoll_wait = λ e n s. sim_wait n s.waits s;
  recv = λ d n s. sim_recv s.inbox s;
  send = λ d bs s. sim_send d bs s.limits s;
}

abbrev pub start : Sim
start = record {
  next = 5;
  refuses_options = false;
  opened = λ d. false;
  reusable = λ d. false;
  nonblocking = λ d. false;
  bound = λ d. false;
  listening = λ d. false;
  watching = λ d. none;
  hosts = [];
  peers = [];
  waits = [];
  inbox = [];
  limits = [];
  written = λ d. [];
}
