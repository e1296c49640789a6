-- ===== src/Application/Delivery.antt =====
-- src/server.cpp over include/connection_types.h: a connection is deleted after its last byte.
use async_event_loop.Base.{ℕ, ◌≡◌, some, none, bytes_eq}
use async_event_loop.Outcome.{ok}
use async_event_loop.Heap.{object, put, object-put_self, put-put}
use async_event_loop.Kernel.{Kernel}
use async_event_loop.SocketUtilities.{close_connection}
use async_event_loop.Connection.{Parser, Conn, World, load_live, store, delete_connection}
use async_event_loop.Application.{Handler}

module _ (k : Kernel) (ps : Parser) where
  pub deleted_after :
      (p : ℕ) (c after : Conn k ps Handler) (w : World k ps Handler) (s' : k.State)
      → object p w.app ≡ some c
      → after.socket ≡ c.socket
      → delete_connection k ps p (store k ps p after (record w { kernel = s' }))
        ≡ ok (record w { kernel = (close_connection k c.socket s').1; app = put p none w.app })
  unfolding delete_connection store
  deleted_after p c after w s' o same = rw (
    load_live k ps p (store k ps p after (record w { kernel = s' }))
        (object-put_self p (some after) w.app o),
    put-put p (some after) none w.app,
    same,
  )
