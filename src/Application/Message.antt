-- ===== src/Application/Message.antt =====
-- include/connection_types.h: how a whole message comes in on a connection.
use async_event_loop.Base.{int_eq, ℕ, suc, ℤ, ◌≡◌, List, [], ◌∷◌, ◌++◌, Bytes, bytes_eq, All}
use async_event_loop.Kernel.{Kernel, Received, received, end_of_stream, recv_error}
use async_event_loop.SocketUtilities.{modify_epoll_interest}
use async_event_loop.Http.Callbacks.{ParserCall, message_complete, on_calls}
use async_event_loop.Connection.{Parser, Conn, write_mask, recv_buffer_size}
use async_event_loop.Connection.Receiving.{IsPart}
use async_event_loop.Application.{Handler}

-- What `recv` may say behind a message: that there is no more for now, or that there will be none.
abbrev pub IsBehind : Received → Type 0
IsBehind (received b bs) = ⊥
IsBehind end_of_stream = Unit
IsBehind (recv_error errno) = Unit

module _ (k : Kernel) (ps : Parser) (epollfd : ℤ) (behind : Received) where
  -- The answers of `recv` while a message comes in, the end of which is the end of a piece, up to
  -- `behind`: from the connection and the system before to those at the end of the message, in so many
  -- pieces, and the parser after it.
  pub data Comes
      : ℕ → Conn k ps Handler → k.State → Conn k ps Handler → k.State → ps.State → Type 0 where
    last :
        {c : Conn k ps Handler} {s : k.State} (b : ℕ) (bs : Bytes) (parts : List ParserCall)
        (parser : ps.State)
        → (k.recv c.socket recv_buffer_size s).0 ≡ received b bs
        → ps.execute c.parser (b ∷ bs) ≡ ((parts ++ (message_complete ∷ []), 0), parser)
        → All IsPart parts
        → (k.recv c.socket recv_buffer_size
            (modify_epoll_interest k epollfd c.socket write_mask
              (k.recv c.socket recv_buffer_size s).1).1).0
          ≡ behind
        → IsBehind behind
        → Comes 1 c s
            (record c { request = on_calls parts c.request })
            (k.recv c.socket recv_buffer_size s).1
            parser
    piece :
        {n : ℕ} {c c' : Conn k ps Handler} {s s' : k.State} {parser' : ps.State} (b : ℕ)
        (bs : Bytes) (calls : List ParserCall) (parser : ps.State)
        → (k.recv c.socket recv_buffer_size s).0 ≡ received b bs
        → ps.execute c.parser (b ∷ bs) ≡ ((calls, 0), parser)
        → All IsPart calls
        → Comes n
            (record c { request = on_calls calls c.request; parser = parser })
            (k.recv c.socket recv_buffer_size s).1
            c'
            s'
            parser'
        → Comes (suc n) c s c' s' parser'
