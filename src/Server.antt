-- ===== src/Server.antt =====
-- include/listening_server.h: `class HttpServer`.
pub mod Accepting
use async_event_loop.Base.{int_eq, ℕ, ℤ, pos, failed, true, false, none, some, Bytes, if◌then◌else◌}
use async_event_loop.Outcome.{Outcome, ok, fault, null_dereference, ◌>>=◌}
use async_event_loop.Kernel.{Kernel, Event}
use async_event_loop.Kernel.Flags.{
  af_inet, epollin, epollerr, epollhup, epollrdhup, epollet, has, ◌or◌,
}
use async_event_loop.SocketUtilities.{get_endpoint, get_socket, bind_and_listen, accept_connection}
use async_event_loop.Reactor.{EventQueue, new_sock, async_accept, add_track, reactor_run}
use async_event_loop.Connection.{Parser, Callback, accepting, handling, World, new_connection}
use async_event_loop.Connection.Interface.{Connection}

abbrev pub conn_backlog : ℕ
conn_backlog = 100000

abbrev pub accept_mask : ℕ
accept_mask = epollin or epollet or epollrdhup or epollerr or epollhup

pub record HttpServer : Type 0 where
  pub socket : ℤ
  pub status : ℤ

-- The constructor: no result of a call is tested, and `getSocket` reads through an endpoint that may
-- be NULL.
unfoldable pub new_server : (k : Kernel) → Bytes → Bytes → k.State → Outcome (HttpServer × k.State)
new_server k address port s =
    let (endpoint, s') = get_endpoint k af_inet true address port s in
    elim endpoint [
      | none ↦ fault null_dereference
      | some info ↦
          let (socket, s'') = get_socket k info true false s' in
          let (bound, s''') = bind_and_listen k socket info conn_backlog s'' in
          ok (record { socket = socket; status = pos 0 }, s''')
    ]

module _ (k : Kernel) (ps : Parser) {Handler : Type 0} where
  -- The branch of EPOLLIN in the closure of `listen`.
  unfoldable pub accept_one : Event → Handler → Handler → World k ps Handler → World k ps Handler
  accept_one ev cb err w =
      let (newfd, s') = accept_connection k ev.fd w.kernel in
      let w' : World k ps Handler = record w { kernel = s' } in
      if failed newfd
      then w'
      else (let (conn, w'') = new_connection k ps newfd cb err w' in
          (add_track k newfd accept_mask new_sock (handling conn cb err) w'').1)

-- The connections are used through their interface.
module _ (k : Kernel) (ps : Parser) {Handler : Type 0}
    (connection : ℕ → Connection (World k ps Handler) Handler) where
  -- What a call of a closure does.
  unfoldable pub run_closure :
      Callback Handler → Event → World k ps Handler → Outcome (World k ps Handler)
  run_closure (accepting cb err) ev w = ok (
      if has ev.events epollerr
      then w
      else (if has ev.events epollin then accept_one k ps ev cb err w else w))
  run_closure (handling conn success error) ev w = (connection conn).handle_event ev success error w

  -- `listen`, with a bound on the rounds of the event loop. It always returns 0.
  unfoldable pub listen_and_serve :
      (pq : EventQueue)
      → ℕ
      → HttpServer
      → Handler
      → Handler
      → World k ps Handler
      → Outcome (ℤ × HttpServer × World k ps Handler)
  listen_and_serve pq rounds server cb err w =
      let (status, w') = async_accept k server.socket (accepting cb err) w in
      let server' : HttpServer = record server { status = status } in
      if failed status
      then ok (pos 0, server', w')
      else (reactor_run k pq run_closure rounds pq.new w' >>= λ ended. ok (pos 0, server', ended.2))
