-- ===== src/Application/Events.antt =====
-- src/server.cpp over include/connection_types.h: `handleEvent` on a connection that is live.
use async_event_loop.Base.{int_eq, ℕ, zero, suc, ℤ, ◌≡◌, refl, some, List, [], ◌∷◌, Bytes}
use async_event_loop.Outcome.{ok, ◌>>=◌, Safe, Safe-bind}
use async_event_loop.Heap.{object}
use async_event_loop.Kernel.{
  Kernel, Received, received, end_of_stream, recv_error, EpollLaws, InterestLaws,
}
use async_event_loop.Http.{Headers}
use async_event_loop.Http.Callbacks.{
  ParserCall, message_begin, headers_complete, header_value_complete, message_complete, method, url,
  version, header_field, header_value, body,
}
use async_event_loop.Connection.{Parser, Conn, World, recv_buffer_size, load, load_live, store}
use async_event_loop.Connection.Handling.{
  on_message_complete, parser_call, parser_calls, execute_parser, recv_loop, receive,
}
use async_event_loop.Connection.Receiving.{IsPart, noted, parser_call_part}
use async_event_loop.Application.{Handler, call}
use async_event_loop.Application.Serving.{Owns, Serves, store-Live}
use async_event_loop.Application.Serving.Steps.{kernel-Serves, store-Serves}
use async_event_loop.Application.Safety.{At, request-At, call-Safe}

module _ (k : Kernel) (epoll : EpollLaws k) (laws : InterestLaws k) (ps : Parser)
    (order : Headers → Headers) (least : ℕ) (due : ℤ → Type 0) where
  abbrev W : Type 0
  W = World k ps Handler

  pub store-At :
      (p : ℕ) (d : ℤ) (c c' : Conn k ps Handler) (w : W)
      → object p w.app ≡ some c
      → ((e : ℤ) → Owns k ps order e c → Owns k ps order e c')
      → At k ps order laws least due p d w
      → At k ps order laws least due p d (store k ps p c' w)
  store-At p d c c' w o own (s, l, done) = (
    store-Serves k ps order laws p c c' w o own s,
    store-Live k ps order p p d c c' w o (own d) l,
    done,
  )

  part-At :
      (p : ℕ) (d : ℤ) (pc : ParserCall) (w : W)
      → IsPart pc
      → At k ps order laws least due p d w
      → Safe (At k ps order laws least due p d) (parser_call k ps (call k ps order) p pc w)
  part-At p d pc w h (s, (c, o, own), done) =
      rw (parser_call_part k ps (call k ps order) p pc c w h o)
        (store-At p d c (noted k ps (call k ps order) pc c) w o (λ e x. x) (s, (c, o, own), done))

  parser_call-At :
      (p : ℕ) (d : ℤ) (pc : ParserCall) (w : W)
      → At k ps order laws least due p d w
      → Safe (At k ps order laws least due p d) (parser_call k ps (call k ps order) p pc w)
  unfolding parser_call on_message_complete
  parser_call-At p d message_complete w (s, (c, o, (on, cb, fits)), done) =
      rw (load_live k ps p w o, cb)
        (request-At k epoll laws ps order least due p d w (s, (c, o, (on, cb, fits)), done))
  parser_call-At p d message_begin w a = part-At p d message_begin w tt a
  parser_call-At p d headers_complete w a = part-At p d headers_complete w tt a
  parser_call-At p d header_value_complete w a = part-At p d header_value_complete w tt a
  parser_call-At p d (method x) w a = part-At p d (method x) w tt a
  parser_call-At p d (url x) w a = part-At p d (url x) w tt a
  parser_call-At p d (version x) w a = part-At p d (version x) w tt a
  parser_call-At p d (header_field x) w a = part-At p d (header_field x) w tt a
  parser_call-At p d (header_value x) w a = part-At p d (header_value x) w tt a
  parser_call-At p d (body x) w a = part-At p d (body x) w tt a

  parser_calls-At :
      (p : ℕ) (d : ℤ) (calls : List ParserCall) (w : W)
      → At k ps order laws least due p d w
      → Safe (At k ps order laws least due p d) (parser_calls k ps (call k ps order) p calls w)
  unfolding parser_calls
  parser_calls-At p d [] w a = a
  parser_calls-At p d (pc ∷ calls) w a =
      Safe-bind (At k ps order laws least due p d) (At k ps order laws least due p d)
        (parser_call k ps (call k ps order) p pc w) _ (parser_call-At p d pc w a)
        (λ w' b. parser_calls-At p d calls w' b)

  -- A parser that reports no error.
  module _ (content : (st : ps.State) (bs : Bytes) → (ps.execute st bs).0.1 ≡ 0) where
    abbrev Parsed : ℕ → ℤ → ℕ × W → Type 0
    Parsed p d (llerror, w) = (llerror ≡ 0) × At k ps order laws least due p d w

    after_parse :
        (p : ℕ) (d : ℤ) (llerror : ℕ) (parser : ps.State) (w : W)
        → llerror ≡ 0
        → At k ps order laws least due p d w
        → Safe
            (Parsed p d)
            (load k ps p w >>= (λ c'. ok (llerror, store k ps p (record c' { parser = parser }) w)))
    after_parse p d llerror parser w e (s, (c, o, own), done) =
        rw (load_live k ps p w o)
          (e, store-At p d c (record c { parser = parser }) w o (λ e x. x) (s, (c, o, own), done))

    execute_parser-At :
        (p : ℕ) (d : ℤ) (bs : Bytes) (w : W)
        → At k ps order laws least due p d w
        → Safe (Parsed p d) (execute_parser k ps (call k ps order) p bs w)
    unfolding execute_parser
    execute_parser-At p d bs w (s, (c, o, own), done) = rw (load_live k ps p w o) (
        Safe-bind (At k ps order laws least due p d) (Parsed p d)
          (parser_calls k ps (call k ps order) p (ps.execute c.parser bs).0.0 w) _
          (parser_calls-At p d (ps.execute c.parser bs).0.0 w (s, (c, o, own), done))
          (λ w' b. after_parse p d _ _ w' (content c.parser bs) b))

    abbrev Received-At : ℕ → ℤ → Received × W → Type 0
    Received-At p d (r, w) = At k ps order laws least due p d w

    -- A round of the loop, where the rounds after it are safe.
    recv_round :
        (fuel p : ℕ) (d : ℤ) (error : Handler) (w : W) (c : Conn k ps Handler) (x : Received)
        → ((w' : W)
            → At k ps order laws least due p d w'
            → Safe (Received-At p d) (recv_loop k ps (call k ps order) fuel p error w'))
        → object p w.app ≡ some c
        → (k.recv c.socket recv_buffer_size w.kernel).0 ≡ x
        → At k ps order laws least due p d
            (record w { kernel = (k.recv c.socket recv_buffer_size w.kernel).1 })
        → Safe (Received-At p d) (recv_loop k ps (call k ps order) (suc fuel) p error w)
    unfolding recv_loop
    recv_round fuel p d error w c (received b bs) again o e a =
        rw (load_live k ps p w o, e, recv_loop)
          (Safe-bind (Parsed p d) (Received-At p d)
            (execute_parser k ps (call k ps order) p (b ∷ bs)
              (record w { kernel = (k.recv c.socket recv_buffer_size w.kernel).1 }))
            _ (execute_parser-At p d (b ∷ bs) _ a) (λ parsed (good, b). rw good (again parsed.1 b)))
    recv_round fuel p d error w c end_of_stream again o e a =
        rw (load_live k ps p w o, e, recv_loop) a
    recv_round fuel p d error w c (recv_error x) again o e a =
        rw (load_live k ps p w o, e, recv_loop) a

    no_round :
        (p : ℕ) (d : ℤ) (error : Handler) (w : W)
        → Safe (Received-At p d) (recv_loop k ps (call k ps order) zero p error w)
    unfolding recv_loop
    no_round p d error w = tt

    recv_loop-At :
        (fuel p : ℕ) (d : ℤ) (error : Handler) (w : W)
        → At k ps order laws least due p d w
        → Safe (Received-At p d) (recv_loop k ps (call k ps order) fuel p error w)
    recv_loop-At zero p d error w a = no_round p d error w
    recv_loop-At (suc fuel) p d error w (s, (c, o, own), done) =
        recv_round fuel p d error w c _ (λ w' a. recv_loop-At fuel p d error w' a) o refl
          (
            kernel-Serves k ps order laws w (k.recv c.socket recv_buffer_size w.kernel).1
                (λ e. laws.recv_keeps w.epollfd_ c.socket e recv_buffer_size w.kernel) s,
            (c, o, own),
            done,
          )

    pub receive-Safe :
        (fuel p : ℕ) (d : ℤ) (error : Handler) (w : W)
        → At k ps order laws least due p d w
        → Safe (Serves k ps order laws least due) (receive k ps (call k ps order) fuel p error w)
    unfolding receive
    receive-Safe fuel p d error w a =
        Safe-bind (Received-At p d) (Serves k ps order laws least due)
          (recv_loop k ps (call k ps order) fuel p error w) _ (recv_loop-At fuel p d error w a)
          (λ (r, w') b. ended r w' b)
      where
        ended :
            (r : Received) (w' : W)
            → At k ps order laws least due p d w'
            → Safe (Serves k ps order laws least due) (elim r [
              | end_of_stream ↦ call k ps order error p w'
              | received b bs ↦ ok w'
              | recv_error errno ↦ ok w'
            ])
        ended end_of_stream w' b = call-Safe k epoll laws ps order least due error p d w' b
        ended (received x xs) w' b = b.0
        ended (recv_error x) w' b = b.0
