-- ===== src/Kernel.antt =====
-- The system calls that the program makes, as an interface. Their code is not in the repository:
-- `Kernel` is a parameter of every definition that makes a call, and the records of laws below are
-- hypotheses, each of which states what the manual page of the call says.
pub mod Flags
use mathlib.Core.List.{Mem, Nodup}
use async_event_loop.Base.{
  ℕ, ℤ, pos, minus_one, failed, ◌<◌, ◌≤◌, ◌^◌, ◌≡◌, ◌≢◌, ◌⊎◌, Bool, true, false, Option, none, some,
  List, [], ◌∷◌, Eq, Bytes, int_eqb, length, take, map, is_some, ◌++◌, if◌then◌else◌,
}
use Flags.{epoll_ctl_add, epoll_ctl_mod, epoll_ctl_del}

-- `struct addrinfo`: the fields that the program reads. A linked list of them is a list.
pub record AddrInfo : Type 0 where
  pub ai_family : ℤ
  pub ai_socktype : ℤ
  pub ai_protocol : ℤ
  pub ai_addr : Bytes

-- `struct addrinfo hints` after the `memset`: the fields that the program sets.
pub record Hints : Type 0 where
  pub hint_family : ℤ
  pub hint_socktype : ℤ
  pub hint_flags : ℤ

-- `struct epoll_event`
pub record Event : Type 0 where
  pub events : ℕ
  pub fd : ℤ

-- What `recv` into a buffer of positive size returns: more than 0 with that many bytes, 0 at the end
-- of the stream, or -1 with `errno`.
pub data Received : Type 0 where
  received : ℕ → Bytes → Received
  end_of_stream : Received
  recv_error : ℕ → Received

-- What `send` returns: the number of bytes taken, or -1 with `errno`.
pub data Sent : Type 0 where
  sent : ℕ → Sent
  send_error : ℕ → Sent

-- What `epoll_wait` returns: the events that it has filled in, or -1.
pub data Waited : Type 0 where
  ready : List Event → Waited
  wait_error : Waited

-- A call takes the state of the system and returns its result and the new state. A descriptor or a
-- status is an `int`, -1 for a failure.
pub record Kernel : Type 1 where
  pub State : Type 0
  pub errno : State → ℕ
  pub is_open : State → ℤ → Bool
  pub is_reusable : State → ℤ → Bool
  pub is_nonblocking : State → ℤ → Bool
  pub is_bound : State → ℤ → Bool
  pub is_listening : State → ℤ → Bool
  -- the event mask under which the epoll instance watches a descriptor
  pub interest : State → ℤ → ℤ → Option ℕ
  -- the bytes that a descriptor has been given to send, from the first on
  pub outgoing : State → ℤ → Bytes
  pub getaddrinfo : Option Bytes → Bytes → Hints → State → (ℤ × List AddrInfo) × State
  pub socket : ℤ → ℤ → ℤ → State → ℤ × State
  -- `setsockopt(fd, SOL_SOCKET, SO_REUSEADDR, &yes, …)` with `yes` equal to 1
  pub set_reuse : ℤ → State → ℤ × State
  -- `fcntl(fd, F_SETFL, O_NONBLOCK)`
  pub set_nonblock : ℤ → State → ℤ × State
  pub bind : ℤ → Bytes → State → ℤ × State
  pub listen : ℤ → ℕ → State → ℤ × State
  -- `accept` also tells the address family of the peer.
  pub accept : ℤ → State → (ℤ × ℤ) × State
  pub connect : ℤ → Bytes → State → ℤ × State
  pub close : ℤ → State → ℤ × State
  pub epoll_create1 : State → ℤ × State
  -- `epoll_ctl(epfd, op, fd, ev)`, with `none` for NULL
  pub epoll_ctl : ℤ → ℤ → ℤ → Option Event → State → ℤ × State
  pub epoll_wait : ℤ → ℕ → State → Waited × State
  -- `recv(fd, buffer, size, flags)` and `send(fd, bytes, flags)`
  pub recv : ℤ → ℕ → State → Received × State
  pub send : ℤ → Bytes → State → Sent × State

-- A call that opens a descriptor, sets an option of one, or closes one.
pub record SocketLaws (k : Kernel) : Type 0 where
  pub socket_opens :
      (f t p : ℤ) (s : k.State)
      → failed (k.socket f t p s).0 ≡ false
      → k.is_open (k.socket f t p s).1 (k.socket f t p s).0 ≡ true
  pub reuse_sets :
      (d : ℤ) (s : k.State)
      → failed (k.set_reuse d s).0 ≡ false
      → k.is_reusable (k.set_reuse d s).1 d ≡ true
  pub reuse_keeps_open : (d c : ℤ) (s : k.State) → k.is_open (k.set_reuse d s).1 c ≡ k.is_open s c
  pub nonblock_sets :
      (d : ℤ) (s : k.State)
      → failed (k.set_nonblock d s).0 ≡ false
      → k.is_nonblocking (k.set_nonblock d s).1 d ≡ true
  pub nonblock_keeps_open :
      (d c : ℤ) (s : k.State) → k.is_open (k.set_nonblock d s).1 c ≡ k.is_open s c
  pub nonblock_keeps_reusable :
      (d c : ℤ) (s : k.State) → k.is_reusable (k.set_nonblock d s).1 c ≡ k.is_reusable s c
  pub bind_binds :
      (d : ℤ) (a : Bytes) (s : k.State)
      → failed (k.bind d a s).0 ≡ false
      → k.is_bound (k.bind d a s).1 d ≡ true
  pub listen_listens :
      (d : ℤ) (n : ℕ) (s : k.State)
      → failed (k.listen d n s).0 ≡ false
      → k.is_listening (k.listen d n s).1 d ≡ true
  pub listen_keeps_bound :
      (d c : ℤ) (n : ℕ) (s : k.State) → k.is_bound (k.listen d n s).1 c ≡ k.is_bound s c
  pub accept_opens :
      (d : ℤ) (s : k.State)
      → failed (k.accept d s).0.0 ≡ false
      → k.is_open (k.accept d s).1 (k.accept d s).0.0 ≡ true
  pub close_closes :
      (d : ℤ) (s : k.State) → failed (k.close d s).0 ≡ false → k.is_open (k.close d s).1 d ≡ false
  pub connect_keeps_open :
      (d c : ℤ) (a : Bytes) (s : k.State) → k.is_open (k.connect d a s).1 c ≡ k.is_open s c

-- `epoll_ctl` sets the mask of one descriptor, or fails and changes nothing. It fails with an
-- operation that is none of the three.
pub record EpollLaws (k : Kernel) : Type 0 where
  pub ctl_sets :
      (e op d c : ℤ) (ev : Event) (s : k.State)
      → (op ≡ epoll_ctl_add) ⊎ (op ≡ epoll_ctl_mod)
      → failed (k.epoll_ctl e op d (some ev) s).0 ≡ false
      → k.interest (k.epoll_ctl e op d (some ev) s).1 e c
        ≡ (if int_eqb d c then some ev.events else k.interest s e c)
  pub ctl_fails :
      (e op d c : ℤ) (ev : Option Event) (s : k.State)
      → failed (k.epoll_ctl e op d ev s).0 ≡ true
      → k.interest (k.epoll_ctl e op d ev s).1 e c ≡ k.interest s e c
  pub ctl_invalid :
      (e op d : ℤ) (ev : Option Event) (s : k.State)
      → op ≢ epoll_ctl_add
      → op ≢ epoll_ctl_mod
      → op ≢ epoll_ctl_del
      → (k.epoll_ctl e op d ev s).0 ≡ minus_one

-- The descriptors below a limit.
abbrev pub IsDescriptor : ℕ → ℤ → Type 0
IsDescriptor limit d = (n : ℕ) × (d ≡ pos n) × (n < limit)

-- Only descriptors are watched, and the system has a limit on them, which is the number of files that
-- may be open. A new epoll instance watches nothing. Closing a descriptor takes it off the interest list, and the
-- other calls leave the list alone. (The program never duplicates a descriptor.)
pub record InterestLaws (k : Kernel) : Type 0 where
  pub limit : ℕ
  pub limit_small : limit < 2 ^ 31
  pub watched_descriptor :
      (e d : ℤ) (mask : ℕ) (s : k.State) → k.interest s e d ≡ some mask → IsDescriptor limit d
  pub created_empty :
      (c : ℤ) (s : k.State) → k.interest (k.epoll_create1 s).1 (k.epoll_create1 s).0 c ≡ none
  pub getaddrinfo_keeps :
      (e c : ℤ) (address : Option Bytes) (port : Bytes) (hints : Hints) (s : k.State)
      → k.interest (k.getaddrinfo address port hints s).1 e c ≡ k.interest s e c
  pub socket_keeps :
      (e f t p c : ℤ) (s : k.State) → k.interest (k.socket f t p s).1 e c ≡ k.interest s e c
  pub reuse_keeps :
      (e d c : ℤ) (s : k.State) → k.interest (k.set_reuse d s).1 e c ≡ k.interest s e c
  pub bind_keeps :
      (e d c : ℤ) (a : Bytes) (s : k.State) → k.interest (k.bind d a s).1 e c ≡ k.interest s e c
  pub listen_keeps :
      (e d c : ℤ) (n : ℕ) (s : k.State) → k.interest (k.listen d n s).1 e c ≡ k.interest s e c
  pub close_forgets :
      (e d c : ℤ) (s : k.State)
      → k.interest (k.close d s).1 e c ≡ (if int_eqb d c then none else k.interest s e c)
  pub accept_keeps : (e d c : ℤ) (s : k.State) → k.interest (k.accept d s).1 e c ≡ k.interest s e c
  pub nonblock_keeps :
      (e d c : ℤ) (s : k.State) → k.interest (k.set_nonblock d s).1 e c ≡ k.interest s e c
  pub recv_keeps :
      (e d c : ℤ) (n : ℕ) (s : k.State) → k.interest (k.recv d n s).1 e c ≡ k.interest s e c
  pub send_keeps :
      (e d c : ℤ) (bs : Bytes) (s : k.State) → k.interest (k.send d bs s).1 e c ≡ k.interest s e c

-- `epoll_wait` reports descriptors that the instance watches, each once and no more than there is room
-- for, and leaves the interest list alone.
pub record WaitLaws (k : Kernel) : Type 0 where
  pub wait_watched :
      (e : ℤ) (n : ℕ) (s : k.State) (evs : List Event)
      → (k.epoll_wait e n s).0 ≡ ready evs
      → (ev : Event) → Mem ev evs
      → is_some (k.interest s e ev.fd) ≡ true
  pub wait_once :
      (e : ℤ) (n : ℕ) (s : k.State) (evs : List Event)
      → (k.epoll_wait e n s).0 ≡ ready evs
      → Nodup (map (λ ev. ev.fd) evs)
  pub wait_fits :
      (e : ℤ) (n : ℕ) (s : k.State) (evs : List Event)
      → (k.epoll_wait e n s).0 ≡ ready evs
      → length evs ≤ n
  pub wait_keeps :
      (e : ℤ) (n : ℕ) (d c : ℤ) (s : k.State)
      → k.interest (k.epoll_wait e n s).1 d c ≡ k.interest s d c

-- `send` takes a front part of the bytes, as long as it says, or fails and takes nothing. `epoll_ctl`
-- and `recv` send nothing.
pub record SendLaws (k : Kernel) : Type 0 where
  pub send_takes :
      (d : ℤ) (bs : Bytes) (s : k.State) (n : ℕ)
      → (k.send d bs s).0 ≡ sent n
      → (n ≤ length bs) × (k.outgoing (k.send d bs s).1 d ≡ k.outgoing s d ++ take n bs)
  pub send_fails :
      (d : ℤ) (bs : Bytes) (s : k.State) (e : ℕ)
      → (k.send d bs s).0 ≡ send_error e
      → k.outgoing (k.send d bs s).1 d ≡ k.outgoing s d
  pub ctl_sends_nothing :
      (e op d c : ℤ) (ev : Option Event) (s : k.State)
      → k.outgoing (k.epoll_ctl e op d ev s).1 c ≡ k.outgoing s c
  pub recv_sends_nothing :
      (d c : ℤ) (n : ℕ) (s : k.State) → k.outgoing (k.recv d n s).1 c ≡ k.outgoing s c

-- What is sent on one socket, or its end, leaves the streams of the others alone, and the calls that
-- wait, accept or set an option send nothing.
pub record StreamLaws (k : Kernel) : Type 0 where
  pub send_alone :
      (d c : ℤ) (bs : Bytes) (s : k.State) → d ≢ c → k.outgoing (k.send d bs s).1 c ≡ k.outgoing s c
  pub close_alone : (d c : ℤ) (s : k.State) → d ≢ c → k.outgoing (k.close d s).1 c ≡ k.outgoing s c
  pub accept_sends_nothing :
      (d c : ℤ) (s : k.State) → k.outgoing (k.accept d s).1 c ≡ k.outgoing s c
  pub nonblock_sends_nothing :
      (d c : ℤ) (s : k.State) → k.outgoing (k.set_nonblock d s).1 c ≡ k.outgoing s c
  pub wait_sends_nothing :
      (e d : ℤ) (n : ℕ) (s : k.State) → k.outgoing (k.epoll_wait e n s).1 d ≡ k.outgoing s d
