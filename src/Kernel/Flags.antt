-- ===== src/Kernel/Flags.antt =====
-- Constants of the Linux headers that the program names, and the test of an event mask.
use Prim.Native.Nat.{bit_and, bit_or}
use async_event_loop.Base.{ℕ, ℤ, pos, Bool, not, ◌==◌}

abbrev pub epollin : ℕ
epollin = 0x1

abbrev pub epollout : ℕ
epollout = 0x4

abbrev pub epollerr : ℕ
epollerr = 0x8

abbrev pub epollhup : ℕ
epollhup = 0x10

abbrev pub epollrdhup : ℕ
epollrdhup = 0x2000

abbrev pub epollet : ℕ
epollet = 0x8000_0000

-- `events & flag` as a condition
abbrev pub has : ℕ → ℕ → Bool
has events flag = not (bit_and events flag == 0)

infixl 65 ◌or◌
abbrev pub ◌or◌ : ℕ → ℕ → ℕ
a or b = bit_or a b

abbrev pub epoll_ctl_add : ℤ
epoll_ctl_add = pos 1

abbrev pub epoll_ctl_del : ℤ
epoll_ctl_del = pos 2

abbrev pub epoll_ctl_mod : ℤ
epoll_ctl_mod = pos 3

abbrev pub af_unspec : ℤ
af_unspec = pos 0

abbrev pub af_inet : ℤ
af_inet = pos 2

abbrev pub af_inet6 : ℤ
af_inet6 = pos 10

abbrev pub sock_stream : ℤ
sock_stream = pos 1

abbrev pub ai_passive : ℤ
ai_passive = pos 1

abbrev pub eagain : ℕ
eagain = 11

-- EWOULDBLOCK is EAGAIN on Linux.
abbrev pub ewouldblock : ℕ
ewouldblock = 11

abbrev pub einprogress : ℕ
einprogress = 115
