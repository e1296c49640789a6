-- ===== src/Application/Arrival.antt =====
-- src/server.cpp over include/connection_types.h: an answer arrives.
use async_event_loop.Base.{
  int_eq, ℕ, ℤ, suc, ◌+◌, ◌<◌, ◌≡◌, refl, sym, ◌∙◌, some, none, [], ◌++◌, Bytes, bytes_eq, take,
  take-add, take-append-drop, length,
}
use async_event_loop.Outcome.{Outcome, ok}
use async_event_loop.Heap.{object, put, object-put_self}
use async_event_loop.Kernel.{Kernel, SendLaws}
use async_event_loop.SocketUtilities.{close_connection}
use async_event_loop.Http.{Headers}
use async_event_loop.Connection.{Parser, Conn, World, store}
use async_event_loop.Connection.Handling.{transmit}
use async_event_loop.Connection.Sending.{unsent}
use async_event_loop.Application.Delivery.{deleted_after}
use async_event_loop.Application.{Handler, on_sent, on_send_error, call}

module _ (k : Kernel) (ps : Parser) (order : Headers → Headers) where
  abbrev pub W : Type 0
  W = World k ps Handler

  -- The connection at `p`, on the socket `d`, has sent `bs` and is closed and gone.
  pub record Arrives (p : ℕ) (d : ℤ) (bs : Bytes) (m : Outcome W) : Type 0 where
    pub world : W
    pub kernel : k.State
    pub ends : m ≡ ok world
    pub gone : object p world.app ≡ none
    pub closed : world.kernel ≡ (close_connection k d kernel).1
    pub out : k.outgoing kernel d ≡ bs

module _ (k : Kernel) (sending : SendLaws k) (ps : Parser) (order : Headers → Headers) where
  -- The connection `c` at `p` has sent as much of `bs` as it counts, and not all.
  pub record IsSending (p : ℕ) (c : Conn k ps Handler) (bs : Bytes) (w : World k ps Handler)
      : Type 0 where
    pub live : object p w.app ≡ some c
    pub buffer : c.send_buffer ≡ bs
    pub part : c.sent_bytes < length bs
    pub out : k.outgoing w.kernel c.socket ≡ take c.sent_bytes bs

  -- Another world with the same connection and the same stream.
  pub kept-IsSending :
      (p : ℕ) (c : Conn k ps Handler) (w w' : W k ps order) (bs : Bytes)
      → object p w'.app ≡ object p w.app
      → k.outgoing w'.kernel c.socket ≡ k.outgoing w.kernel c.socket
      → IsSending p c bs w
      → IsSending p c bs w'
  kept-IsSending p c w w' bs same same_stream st = record {
    live = same ∙ st.live;
    buffer = st.buffer;
    part = st.part;
    out = same_stream ∙ st.out;
  }

  -- The last byte has been sent: the application deletes the connection.
  pub sent-Arrives :
      (p : ℕ) (c : Conn k ps Handler) (w : W k ps order) (bs : Bytes)
      → IsSending p c bs w
      → (s' : k.State)
      → transmit k ps (call k ps order) p on_sent on_send_error w
        ≡ call k ps order on_sent p (
            store k ps p (record c { send_buffer = []; sent_bytes = 0 }) (record w { kernel = s' }))
      → k.outgoing s' c.socket ≡ k.outgoing w.kernel c.socket ++ unsent k ps c
      → Arrives k ps order p c.socket bs (transmit k ps (call k ps order) p on_sent on_send_error w)
  unfolding call
  sent-Arrives p c w bs st s' ran out = record {
    world = record w { kernel = (close_connection k c.socket s').1; app = put p none w.app };
    kernel = s';
    ends =
        ran
        ∙ deleted_after k ps p c (record c { send_buffer = []; sent_bytes = 0 }) w s' st.live refl;
    gone = object-put_self p none w.app st.live;
    closed = refl;
    out = out ∙ rw (st.out, st.buffer) (take-append-drop c.sent_bytes bs);
  }

  -- Some bytes more have been sent.
  pub part-IsSending :
      (p n : ℕ) (c : Conn k ps Handler) (w : W k ps order) (bs : Bytes) (s' : k.State)
      → IsSending p c bs w
      → c.sent_bytes + suc n < length c.send_buffer
      → k.outgoing s' c.socket ≡ k.outgoing w.kernel c.socket ++ take (suc n) (unsent k ps c)
      → IsSending p
          (record c { sent_bytes = c.sent_bytes + suc n })
          bs
          (store k ps p (record c { sent_bytes = c.sent_bytes + suc n }) (record w { kernel = s' }))
  unfolding store
  part-IsSending p n c w bs s' st less out = record {
    live = object-put_self p _ w.app st.live;
    buffer = st.buffer;
    part = rw (← st.buffer) less;
    out = out ∙ rw (st.out, st.buffer) (sym (take-add c.sent_bytes (suc n) bs));
  }
