-- ===== src/Tests/Simulation/Laws.antt =====
-- The small system meets the laws.
use async_event_loop.Base.{
  int_tests, int_eq, ap, negsuc, ℕ, ℤ, pos, minus_one, failed, ◌≤◌, ◌≡◌, ◌≢◌, refl, ◌⊎◌, inl, inr,
  true, false, Option, none, some, List, [], ◌∷◌, ◌++◌, arith, Bytes, int_eqb, int_eqb_iff,
  if◌then◌else◌, length, take,
}
use async_event_loop.Kernel.{
  Event, Received, sent, send_error, ready, SocketLaws, EpollLaws, InterestLaws, SendLaws,
  StreamLaws, WaitLaws, IsDescriptor,
}
use async_event_loop.Tests.Reports.{is_report, watched_of_report, once_of_report}
use async_event_loop.Kernel.Flags.{epoll_ctl_add, epoll_ctl_mod, epoll_ctl_del}
use async_event_loop.Tests.Simulation.{
  Sim, sim, sim_accept, below, seen, sim_watch, sim_wait, sim_recv, sim_send,
}

ctl_sets :
    (e op d c : ℤ) (ev : Event) (s : Sim)
    → (op ≡ epoll_ctl_add) ⊎ (op ≡ epoll_ctl_mod)
    → failed (sim.epoll_ctl e op d (some ev) s).0 ≡ false
    → sim.interest (sim.epoll_ctl e op d (some ev) s).1 e c
      ≡ (if int_eqb d c then some ev.events else sim.interest s e c)
ctl_sets e op d c ev s (inl o) h = ground (arith, o, int_eqb_iff d c)
ctl_sets e op d c ev s (inr o) h = ground (arith, o, int_eqb_iff d c)

ctl_fails :
    (e op d c : ℤ) (ev : Option Event) (s : Sim)
    → failed (sim.epoll_ctl e op d ev s).0 ≡ true
    → sim.interest (sim.epoll_ctl e op d ev s).1 e c ≡ sim.interest s e c
ctl_fails e op d c none s h = ground arith
ctl_fails e op d c (some ev) s h = ground arith

recv_written :
    (c : ℤ) (inbox : List Received) (s : Sim) → (sim_recv inbox s).1.written c ≡ s.written c
recv_written c [] s = refl
recv_written c (r ∷ rs) s = refl

ctl_written :
    (op d c : ℤ) (ev : Option Event) (s : Sim) → (sim_watch op d ev s).1.written c ≡ s.written c
ctl_written op d c none s = ground arith
ctl_written op d c (some ev) s = ground arith

ctl_invalid :
    (e op d : ℤ) (ev : Option Event) (s : Sim)
    → op ≢ epoll_ctl_add
    → op ≢ epoll_ctl_mod
    → op ≢ epoll_ctl_del
    → (sim.epoll_ctl e op d ev s).0 ≡ minus_one
ctl_invalid e op d none s a m r = grind int_tests
ctl_invalid e op d (some ev) s a m r = ground (
  arith,
  int_eqb_iff op epoll_ctl_del,
  int_eqb_iff op epoll_ctl_add,
  int_eqb_iff op epoll_ctl_mod,
)

pub sim_epoll : EpollLaws sim
sim_epoll = record { ctl_sets = ctl_sets; ctl_fails = ctl_fails; ctl_invalid = ctl_invalid }

pub sim_socket : SocketLaws sim
sim_socket = record {
  socket_opens = λ f t p s h. grind int_tests;
  reuse_sets = λ d s h. grind int_tests;
  reuse_keeps_open = λ d c s. ground arith;
  nonblock_sets = λ d s h. grind int_tests;
  nonblock_keeps_open = λ d c s. ground arith;
  nonblock_keeps_reusable = λ d c s. ground arith;
  bind_binds = λ d a s h. grind int_tests;
  listen_listens = λ d n s h. grind int_tests;
  listen_keeps_bound = λ d c n s. refl;
  accept_opens = λ d s h. accept_opens s.peers s h;
  close_closes = λ d s h. grind int_tests;
  connect_keeps_open = λ d c a s. refl;
}
  where
    accept_opens :
        (peers : List ℤ) (s : Sim)
        → failed (sim_accept peers s).0.0 ≡ false
        → (sim_accept peers s).1.opened (sim_accept peers s).0.0 ≡ true
    accept_opens [] s h = cc
    accept_opens (p ∷ ps) s h = grind int_tests

pub sim_interest : InterestLaws sim
sim_interest = record {
  limit = 1000;
  limit_small = omega arith;
  watched_descriptor = λ e d mask s w. descriptor_of d (s.watching d) mask w;
  created_empty = λ c s. ground arith;
  getaddrinfo_keeps = λ e c address port hints s. refl;
  socket_keeps = λ e f t p c s. refl;
  reuse_keeps = λ e d c s. ground arith;
  bind_keeps = λ e d c a s. refl;
  listen_keeps = λ e d c n s. refl;
  close_forgets = λ e d c s. ground arith;
  accept_keeps = λ e d c s. ap (λ o. if below c then o else none) (accept_keeps c s.peers s);
  nonblock_keeps = λ e d c s. ground arith;
  recv_keeps = λ e d c n s. ap (λ o. if below c then o else none) (recv_keeps c s.inbox s);
  send_keeps = λ e d c bs s. ap (λ o. if below c then o else none) (send_keeps d c bs s.limits s);
}
  where
    descriptor_of :
        (d : ℤ) (o : Option ℕ) (mask : ℕ)
        → (if below d then o else none) ≡ some mask
        → IsDescriptor 1000 d
    descriptor_of (pos n) o mask w = (n, refl, ground arith)
    descriptor_of (negsuc n) o mask w = let e : none ≡ some mask = w in cc

    accept_keeps :
        (c : ℤ) (peers : List ℤ) (s : Sim) → (sim_accept peers s).1.watching c ≡ s.watching c
    accept_keeps c [] s = refl
    accept_keeps c (p ∷ ps) s = refl

    recv_keeps :
        (c : ℤ) (inbox : List Received) (s : Sim) → (sim_recv inbox s).1.watching c ≡ s.watching c
    recv_keeps c [] s = refl
    recv_keeps c (r ∷ rs) s = refl

    send_keeps :
        (d c : ℤ) (bs : Bytes) (limits : List ℕ) (s : Sim)
        → (sim_send d bs limits s).1.watching c ≡ s.watching c
    send_keeps d c bs [] s = refl
    send_keeps d c bs (n ∷ ns) s = refl

pub sim_interest_lem : sim_interest.limit ≡ 1000
unfolding sim_interest
sim_interest_lem = refl

reported :
    (n : ℕ) (waits : List (List Event)) (s : Sim) (evs : List Event)
    → (sim_wait n waits s).0 ≡ ready evs
    → (is_report (seen s.watching) evs ≡ true) × (length evs ≤ n)
reported n [] s evs told = cc
reported n (es ∷ rest) s evs told = ground arith

pub sim_waiting : WaitLaws sim
sim_waiting = record {
  wait_watched = λ e n s evs told ev m.
      watched_of_report (seen s.watching) evs ev (reported n s.waits s evs told).0 m;
  wait_once =
      λ e n s evs told. once_of_report (seen s.watching) evs (reported n s.waits s evs told).0;
  wait_fits = λ e n s evs told. (reported n s.waits s evs told).1;
  wait_keeps = λ e n d c s. ap (λ o. if below c then o else none) (wait_keeps n c s.waits s);
}
  where
    wait_keeps :
        (n : ℕ) (c : ℤ) (waits : List (List Event)) (s : Sim)
        → (sim_wait n waits s).1.watching c ≡ s.watching c
    wait_keeps n c [] s = refl
    wait_keeps n c (evs ∷ rest) s = ground arith

sent_of :
    (d : ℤ) (bs : Bytes) (limits : List ℕ) (s : Sim) (n : ℕ)
    → (sim_send d bs limits s).0 ≡ sent n
    → (n ≤ length bs) × ((sim_send d bs limits s).1.written d ≡ s.written d ++ take n bs)
sent_of d bs [] s n h = cc
sent_of d bs (m ∷ rest) s n h = grind int_tests

unsent_of :
    (d : ℤ) (bs : Bytes) (limits : List ℕ) (s : Sim) (e : ℕ)
    → (sim_send d bs limits s).0 ≡ send_error e
    → (sim_send d bs limits s).1.written d ≡ s.written d
unsent_of d bs [] s e h = refl
unsent_of d bs (m ∷ rest) s e h = cc

pub sim_sending : SendLaws sim
sim_sending = record {
  send_takes = λ d bs s n h. sent_of d bs s.limits s n h;
  send_fails = λ d bs s e h. unsent_of d bs s.limits s e h;
  ctl_sends_nothing = λ e op d c ev s. ctl_written op d c ev s;
  recv_sends_nothing = λ d c n s. recv_written c s.inbox s;
}

sent_alone :
    (d c : ℤ) (bs : Bytes) (limits : List ℕ) (s : Sim)
    → d ≢ c
    → (sim_send d bs limits s).1.written c ≡ s.written c
sent_alone d c bs [] s other = refl
sent_alone d c bs (n ∷ rest) s other = ground (arith, int_eqb_iff d c, other)

waited_written :
    (d : ℤ) (n : ℕ) (waits : List (List Event)) (s : Sim)
    → (sim_wait n waits s).1.written d ≡ s.written d
waited_written d n [] s = refl
waited_written d n (evs ∷ rest) s = ground arith

accepted_written :
    (c : ℤ) (peers : List ℤ) (s : Sim) → (sim_accept peers s).1.written c ≡ s.written c
accepted_written c [] s = refl
accepted_written c (family ∷ rest) s = refl

pub sim_streams : StreamLaws sim
sim_streams = record {
  send_alone = λ d c bs s other. sent_alone d c bs s.limits s other;
  close_alone = λ d c s other. refl;
  accept_sends_nothing = λ d c s. accepted_written c s.peers s;
  nonblock_sends_nothing = λ d c s. ground arith;
  wait_sends_nothing = λ e d n s. waited_written d n s.waits s;
}
