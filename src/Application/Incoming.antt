-- ===== src/Application/Incoming.antt =====
-- src/server.cpp over include/connection_types.h: a request comes in and is answered.
use async_event_loop.Application.Message.{IsBehind, Comes, last, piece}
use async_event_loop.Base.{
  int_eq, failed, false, ℕ, zero, suc, ◌≤◌, ◌≡◌, refl, ap, ◌∙◌, some, List, [], ◌∷◌, ◌++◌, Bytes,
  bytes_eq, arith, All,
}
use async_event_loop.Outcome.{ok}
use async_event_loop.Heap.{object, object-put_self, put-put}
use async_event_loop.Kernel.{Kernel, SendLaws, Received, received, end_of_stream, recv_error}
use async_event_loop.SocketUtilities.{modify_epoll_interest}
use async_event_loop.Http.{Headers}
use async_event_loop.Http.Callbacks.{ParserCall, message_complete, on_calls}
use async_event_loop.ThreadSafeMap.{insert}
use async_event_loop.Connection.{
  handling, serialize, Parser, Conn, write_mask, recv_buffer_size, load_live, store,
}
use async_event_loop.Connection.Handling.{execute_parser, recv_loop}
use async_event_loop.Connection.Receiving.{
  IsPart, with, at, loaded, recv_round, parser_calls_complete,
}
use async_event_loop.Application.{Handler, on_request, on_sent, on_send_error, call, bytes}
use async_event_loop.Application.Serving.{answer}
use async_event_loop.Application.Arrival.{W, IsSending}
use async_event_loop.Application.Requests.{
  answering, answered, answered_kernel, answered_callbacks, answered_reactor, request_sends,
}

module _ (k : Kernel) (sending : SendLaws k) (ps : Parser) (order : Headers → Headers) where
  -- The connection after a message has been answered on it.
  abbrev finished : ps.State → Conn k ps Handler → Conn k ps Handler
  finished parser c = record (answering k sending ps order c) { parser = parser }

  abbrev finished_world : ℕ → ps.State → Conn k ps Handler → W k ps order → W k ps order
  finished_world p parser c w = store k ps p (finished parser c) (answered k sending ps order p c w)

  execute_parser_complete :
      (p : ℕ) (bytes : Bytes) (parts : List ParserCall) (parser : ps.State) (c : Conn k ps Handler)
      (w : W k ps order)
      → object p w.app ≡ some c
      → c.cb ≡ on_request
      → c.sent_bytes ≡ 0
      → k.outgoing w.kernel c.socket ≡ []
      → ps.execute c.parser bytes ≡ ((parts ++ (message_complete ∷ []), 0), parser)
      → All IsPart parts
      → let c' : Conn k ps Handler = record c { request = on_calls parts c.request } in
        execute_parser k ps (call k ps order) p bytes w
        ≡ ok (0, finished_world p parser c' (at k ps (call k ps order) p c' w))
  unfolding execute_parser
  execute_parser_complete p bytes parts parser c w o cb zero_sent idle e h =
      let c' : Conn k ps Handler = record c { request = on_calls parts c.request } in
      let (ran, st) =
        request_sends k sending ps order p c' (at k ps (call k ps order) p c' w)
          (object-put_self p (some c') w.app o) zero_sent idle in
      let calls_done =
        parser_calls_complete k ps (call k ps order) p parts c w h o
        ∙ ap (λ x. call k ps order x p (at k ps (call k ps order) p c' w)) cb
        ∙ ran in
      rw (
        load_live k ps p w o,
        e,
        calls_done,
        load_live k ps p (answered k sending ps order p c' (at k ps (call k ps order) p c' w))
            st.live,
      )

  -- The world after the message has come, the application has answered in the state `s'` of the system
  -- and `recv` has had no more.
  pub record Answers (behind : Received) (p : ℕ) (c : Conn k ps Handler) (s' : k.State) (fuel : ℕ)
      (error : Handler) (w : W k ps order) : Type 0 where
    pub conn : Conn k ps Handler
    pub world : W k ps order
    pub ends : recv_loop k ps (call k ps order) fuel p error w ≡ ok (behind, world)
    pub same_socket : conn.socket ≡ c.socket
    pub none_sent : conn.sent_bytes ≡ 0
    pub sends : IsSending k sending ps order p conn (answer order) world
    pub system :
        world.kernel
        ≡ (k.recv c.socket recv_buffer_size
            (modify_epoll_interest k w.epollfd_ c.socket write_mask s').1).1
    pub callbacks :
        failed (modify_epoll_interest k w.epollfd_ c.socket write_mask s').0 ≡ false
        → world.event_callback_
          ≡ insert c.socket (handling p on_sent on_send_error) w.event_callback_
    pub same_epoll : world.epollfd_ ≡ w.epollfd_
    pub same_max : world.max_events_ ≡ w.max_events_

  recv_stops :
      (fuel p : ℕ) (error : Handler) (w : W k ps order) {c : Conn k ps Handler} (behind : Received)
      → object p w.app ≡ some c
      → (k.recv c.socket recv_buffer_size w.kernel).0 ≡ behind
      → IsBehind behind
      → recv_loop k ps (call k ps order) (suc fuel) p error w
        ≡ ok (behind, record w { kernel = (k.recv c.socket recv_buffer_size w.kernel).1 })
  unfolding recv_loop
  recv_stops fuel p error w (received b bs) o e stop = absurd stop
  recv_stops fuel p error w end_of_stream o e stop = rw (load_live k ps p w o, e)
  recv_stops fuel p error w (recv_error errno) o e stop = rw (load_live k ps p w o, e)

  last_round :
      (fuel p : ℕ) (error : Handler) (b : ℕ) (bs : Bytes) (parts : List ParserCall)
      (parser : ps.State) (behind : Received) (c : Conn k ps Handler) (s : k.State)
      (w : W k ps order) {old : Conn k ps Handler}
      → object p w.app ≡ some old
      → c.cb ≡ on_request
      → c.sent_bytes ≡ 0
      → k.outgoing s c.socket ≡ []
      → (k.recv c.socket recv_buffer_size s).0 ≡ received b bs
      → ps.execute c.parser (b ∷ bs) ≡ ((parts ++ (message_complete ∷ []), 0), parser)
      → All IsPart parts
      → (k.recv c.socket recv_buffer_size
          (modify_epoll_interest k w.epollfd_ c.socket write_mask
            (k.recv c.socket recv_buffer_size s).1).1).0
        ≡ behind
      → IsBehind behind
      → Answers behind p c
          (k.recv c.socket recv_buffer_size s).1
          (suc (suc fuel))
          error
          (with k ps (call k ps order) p c s w)
  unfolding recv_loop serialize store
  last_round fuel p error b bs parts parser behind c s w live cb zero_sent idle r e h quiet stop =
      record {
        conn = finished parser c';
        world = record done { kernel = (k.recv c.socket recv_buffer_size done.kernel).1 };
        ends = rw (
          loaded k ps (call k ps order) p w live c s,
          r,
          executed,
          recv_stops fuel p error done behind stored no_more stop,
        );
        same_socket = refl;
        none_sent = zero_sent;
        sends = record {
          live = stored;
          buffer = st.buffer;
          part = st.part;
          out = sending.recv_sends_nothing c.socket c.socket recv_buffer_size done.kernel ∙ st.out;
        };
        system =
            ap (λ t. (k.recv c.socket recv_buffer_size t).1)
              (answered_kernel k sending ps order p c' (with k ps (call k ps order) p c' s1 w));
        callbacks =
            answered_callbacks k sending ps order p c' (with k ps (call k ps order) p c' s1 w);
        same_epoll =
            (answered_reactor k sending ps order p c' (with k ps (call k ps order) p c' s1 w)).0;
        same_max =
            (answered_reactor k sending ps order p c' (with k ps (call k ps order) p c' s1 w)).1;
      }
    where
      c' : Conn k ps Handler
      c' = record c { request = on_calls parts c.request }

      s1 : k.State
      s1 = (k.recv c.socket recv_buffer_size s).1

      still_idle : k.outgoing s1 c.socket ≡ []
      still_idle = sending.recv_sends_nothing c.socket c.socket recv_buffer_size s ∙ idle

      done : W k ps order
      done = finished_world p parser c' (with k ps (call k ps order) p c' s1 w)

      st :
          IsSending k sending ps order p
            (answering k sending ps order c')
            (answer order)
            (answered k sending ps order p c' (with k ps (call k ps order) p c' s1 w))
      st =
          (request_sends k sending ps order p c' (with k ps (call k ps order) p c' s1 w)
            (object-put_self p (some c') w.app live) zero_sent still_idle).1

      stored : object p done.app ≡ some (finished parser c')
      stored = object-put_self p (some (finished parser c')) _ st.live

      executed :
          execute_parser k ps (call k ps order) p (b ∷ bs) (with k ps (call k ps order) p c s1 w)
          ≡ ok (0, done)
      executed =
          execute_parser_complete p (b ∷ bs) parts parser c (with k ps (call k ps order) p c s1 w)
            (object-put_self p (some c) w.app live) cb zero_sent still_idle e h
          ∙ ap (λ a. ok (0, finished_world p parser c' (record w { kernel = s1; app = a })))
              (put-put p (some c) (some c') w.app)

      no_more : (k.recv c.socket recv_buffer_size done.kernel).0 ≡ behind
      no_more =
          rw (answered_kernel k sending ps order p c' (with k ps (call k ps order) p c' s1 w)) quiet

  pub come-Answers :
      (behind : Received) (p : ℕ) (error : Handler) (w : W k ps order) {old : Conn k ps Handler}
      (live : object p w.app ≡ some old) {n : ℕ} {c c' : Conn k ps Handler} {s s' : k.State}
      {parser : ps.State}
      → Comes k ps w.epollfd_ behind n c s c' s' parser
      → c.cb ≡ on_request
      → c.sent_bytes ≡ 0
      → k.outgoing s c.socket ≡ []
      → (fuel : ℕ) → suc n ≤ fuel
      → Answers behind p c s' fuel error (with k ps (call k ps order) p c s w)
  come-Answers behind p error w live (last {c} {s} b bs parts parser r e h quiet stop) cb zero_sent
        idle (suc (suc fuel)) le =
      last_round fuel p error b bs parts parser behind c s w live cb zero_sent idle r e h quiet stop
  come-Answers behind p error w live (last b bs parts parser r e h quiet stop) cb zero_sent idle
        (suc zero) le =
      absurd (omega arith)
  come-Answers behind p error w live (last b bs parts parser r e h quiet stop) cb zero_sent idle
        zero le =
      absurd (omega arith)
  come-Answers behind p error w live (piece b bs calls parser r e h rest) cb zero_sent idle zero
        le =
      absurd (omega arith)
  come-Answers behind p error w live (piece {c} {s} b bs calls parser r e h rest) cb zero_sent idle
        (suc fuel) le =
      let later =
        come-Answers behind p error w live rest cb zero_sent
          (sending.recv_sends_nothing c.socket c.socket recv_buffer_size s ∙ idle) fuel
          (omega arith) in
      record {
        conn = later.conn;
        world = later.world;
        ends =
            recv_round k ps (call k ps order) p w live fuel error c s b bs calls parser r e h
            ∙ later.ends;
        same_socket = later.same_socket;
        none_sent = later.none_sent;
        sends = later.sends;
        system = later.system;
        callbacks = later.callbacks;
        same_epoll = later.same_epoll;
        same_max = later.same_max;
      }
