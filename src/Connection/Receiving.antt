-- ===== src/Connection/Receiving.antt =====
-- include/connection_types.h, the branch of EPOLLIN: what becomes of the bytes that arrive.
use async_event_loop.Base.{
  ℕ, zero, suc, ◌≤◌, ◌≡◌, ◌++◌, refl, sym, ap, ◌∙◌, some, List, [], ◌∷◌, Bytes, arith, All,
}
use async_event_loop.Outcome.{Outcome, ok, fault, ◌>>=◌}
use async_event_loop.Heap.{object, put, object-put_self, put_same, put-put}
use async_event_loop.Kernel.{Kernel, received, recv_error}
use async_event_loop.Http.Callbacks.{
  ParserCall, message_begin, headers_complete, header_value_complete, message_complete, method, url,
  version, header_field, header_value, body, on_call, on_calls,
}
use async_event_loop.Connection.{Parser, Conn, World, recv_buffer_size, load, load_live, store}
use async_event_loop.Connection.Handling.{
  on_message_complete, parser_call, parser_calls, execute_parser, recv_loop, receive,
}

-- Any callback but that of the end of a message.
abbrev pub IsPart : ParserCall → Type 0
IsPart message_complete = ⊥
IsPart message_begin = Unit
IsPart _ = Unit

bind_ok {ℓ} : {A : Type ℓ} (m : Outcome A) → (m >>= (λ a. ok a)) ≡ m
bind_ok (ok a) = refl
bind_ok (fault x) = refl

module _ (k : Kernel) (ps : Parser) {Handler : Type 0}
    (call : Handler → ℕ → World k ps Handler → Outcome (World k ps Handler)) where
  abbrev pub noted : ParserCall → Conn k ps Handler → Conn k ps Handler
  noted pc c = record c { request = on_call pc c.request }

  pub parser_call_part :
      (p : ℕ) (pc : ParserCall) (c : Conn k ps Handler) (w : World k ps Handler)
      → IsPart pc
      → object p w.app ≡ some c
      → parser_call k ps call p pc w ≡ ok (store k ps p (noted pc c) w)
  unfolding parser_call
  parser_call_part p message_complete c w h o = absurd h
  parser_call_part p message_begin c w h o = rw (load_live k ps p w o)
  parser_call_part p headers_complete c w h o = rw (load_live k ps p w o)
  parser_call_part p header_value_complete c w h o = rw (load_live k ps p w o)
  parser_call_part p (method s) c w h o = rw (load_live k ps p w o)
  parser_call_part p (url s) c w h o = rw (load_live k ps p w o)
  parser_call_part p (version s) c w h o = rw (load_live k ps p w o)
  parser_call_part p (header_field s) c w h o = rw (load_live k ps p w o)
  parser_call_part p (header_value s) c w h o = rw (load_live k ps p w o)
  parser_call_part p (body s) c w h o = rw (load_live k ps p w o)

  -- The world with another connection at `p`.
  abbrev pub at : ℕ → Conn k ps Handler → World k ps Handler → World k ps Handler
  at p c w = record w { app = put p (some c) w.app }

  pub parser_calls_part :
      (p : ℕ) (calls : List ParserCall) (c : Conn k ps Handler) (w : World k ps Handler)
      → All IsPart calls
      → object p w.app ≡ some c
      → parser_calls k ps call p calls w
        ≡ ok (at p (record c { request = on_calls calls c.request }) w)
  unfolding parser_calls on_calls store
  parser_calls_part p [] c w h o = ap (λ a. ok (record w { app = a })) (sym (put_same p c w.app o))
  parser_calls_part p (pc ∷ calls) c w h o = rw (parser_call_part p pc c w h.0 o) (
      parser_calls_part p calls (noted pc c) _ h.1 (object-put_self p _ w.app o)
      ∙ ap (λ a. ok (record w { app = a })) (put-put p _ _ w.app))

  -- The end of a message behind its parts.
  pub parser_calls_complete :
      (p : ℕ) (calls : List ParserCall) (c : Conn k ps Handler) (w : World k ps Handler)
      → All IsPart calls
      → object p w.app ≡ some c
      → parser_calls k ps call p (calls ++ (message_complete ∷ [])) w
        ≡ call c.cb p (at p (record c { request = on_calls calls c.request }) w)
  unfolding parser_calls on_calls store parser_call on_message_complete
  parser_calls_complete p [] c w h o =
      let same : w ≡ at p c w = ap (λ a. record w { app = a }) (sym (put_same p c w.app o)) in
      rw (load_live k ps p w o) (bind_ok (call c.cb p w) ∙ ap (call c.cb p) same)
  parser_calls_complete p (pc ∷ calls) c w h o = rw (parser_call_part p pc c w h.0 o) (
      parser_calls_complete p calls (noted pc c) _ h.1 (object-put_self p _ w.app o)
      ∙ ap (λ a. call c.cb p (record w { app = a })) (put-put p _ _ w.app))

  -- The connection after the parser has gone through some bytes.
  abbrev pub parsed : List ParserCall → ps.State → Conn k ps Handler → Conn k ps Handler
  parsed calls parser c = record c { request = on_calls calls c.request; parser = parser }

  pub execute_parser_part :
      (p : ℕ) (bytes : Bytes) (calls : List ParserCall) (llerror : ℕ) (parser : ps.State)
      (c : Conn k ps Handler) (w : World k ps Handler)
      → object p w.app ≡ some c
      → ps.execute c.parser bytes ≡ ((calls, llerror), parser)
      → All IsPart calls
      → execute_parser k ps call p bytes w ≡ ok (llerror, at p (parsed calls parser c) w)
  unfolding execute_parser store
  execute_parser_part p bytes calls llerror parser c w o e h = rw (
    load_live k ps p w o,
    e,
    parser_calls_part p calls c w h o,
    load_live k ps p (at p (record c { request = on_calls calls c.request }) w)
        (object-put_self p _ w.app o),
    put-put p (some (record c { request = on_calls calls c.request }))
        (some (parsed calls parser c)) w.app,
  )

  -- The answers of `recv` while a message comes in that is not complete yet, up to an error such as
  -- EAGAIN: from the connection and the system before to those after, in so many calls.
  pub data Reads : ℕ → Conn k ps Handler → k.State → Conn k ps Handler → k.State → Type 0 where
    no_more :
        {c : Conn k ps Handler} {s : k.State} (errno : ℕ)
        → (k.recv c.socket recv_buffer_size s).0 ≡ recv_error errno
        → Reads 1 c s c (k.recv c.socket recv_buffer_size s).1
    chunk :
        {n : ℕ} {c c' : Conn k ps Handler} {s s' : k.State} (b : ℕ) (bs : Bytes)
        (calls : List ParserCall) (parser : ps.State)
        → (k.recv c.socket recv_buffer_size s).0 ≡ received b bs
        → ps.execute c.parser (b ∷ bs) ≡ ((calls, 0), parser)
        → All IsPart calls
        → Reads n (parsed calls parser c) (k.recv c.socket recv_buffer_size s).1 c' s'
        → Reads (suc n) c s c' s'

  -- The world with another connection at `p` and another state of the system.
  abbrev pub with : ℕ → Conn k ps Handler → k.State → World k ps Handler → World k ps Handler
  with p c s w = record w { kernel = s; app = put p (some c) w.app }

  module _ (p : ℕ) (w : World k ps Handler) {old : Conn k ps Handler}
      (live : object p w.app ≡ some old) where
    pub loaded : (c : Conn k ps Handler) (s : k.State) → load k ps p (with p c s w) ≡ ok c
    loaded c s = load_live k ps p (with p c s w) (object-put_self p (some c) w.app live)

    -- A round of the loop over `recv` in which the parser is content.
    pub recv_round :
        (fuel : ℕ) (error : Handler) (c : Conn k ps Handler) (s : k.State) (b : ℕ) (bs : Bytes)
        (calls : List ParserCall) (parser : ps.State)
        → (k.recv c.socket recv_buffer_size s).0 ≡ received b bs
        → ps.execute c.parser (b ∷ bs) ≡ ((calls, 0), parser)
        → All IsPart calls
        → recv_loop k ps call (suc fuel) p error (with p c s w)
          ≡ recv_loop k ps call fuel p error
              (with p (parsed calls parser c) (k.recv c.socket recv_buffer_size s).1 w)
    unfolding recv_loop
    recv_round fuel error c s b bs calls parser r e h = rw (
      loaded c s,
      r,
      execute_parser_part p (b ∷ bs) calls 0 parser c
          (with p c (k.recv c.socket recv_buffer_size s).1 w)
          (object-put_self p (some c) w.app live) e h,
      put-put p (some c) (some (parsed calls parser c)) w.app,
    )

    recv_stops :
        (fuel errno : ℕ) (error : Handler) (c : Conn k ps Handler) (s : k.State)
        → (k.recv c.socket recv_buffer_size s).0 ≡ recv_error errno
        → recv_loop k ps call (suc fuel) p error (with p c s w)
          ≡ ok (recv_error errno, with p c (k.recv c.socket recv_buffer_size s).1 w)
    unfolding recv_loop
    recv_stops fuel errno error c s e = rw (loaded c s, e)

    recv_loop-Reads :
        (error : Handler) {n : ℕ} {c c' : Conn k ps Handler} {s s' : k.State}
        → Reads n c s c' s'
        → (fuel : ℕ) → n ≤ fuel
        → (errno : ℕ) × (recv_loop k ps call fuel p error (with p c s w)
            ≡ ok (recv_error errno, with p c' s' w))
    recv_loop-Reads error (no_more errno e) zero h = elim h [ ]
    recv_loop-Reads error (no_more {c} {s} errno e) (suc fuel) h =
        (errno, recv_stops fuel errno error c s e)
    recv_loop-Reads error (chunk b bs calls parser r e q rest) zero h = elim h [ ]
    recv_loop-Reads error (chunk {c} {s} b bs calls parser r e q rest) (suc fuel) h =
        let (errno, done) = recv_loop-Reads error rest fuel (omega arith) in
        (errno, recv_round fuel error c s b bs calls parser r e q ∙ done)

  -- While a message arrives that is not complete, in however many pieces, the branch of EPOLLIN calls
  -- nobody: every piece goes through the parser into the request, and the connection waits for the
  -- next event. As many rounds as there are calls of `recv` are enough.
  pub receive-Reads :
      (p : ℕ) (error : Handler) (w : World k ps Handler) {n : ℕ} {c c' : Conn k ps Handler}
      {s' : k.State}
      → object p w.app ≡ some c
      → Reads n c w.kernel c' s'
      → (fuel : ℕ) → n ≤ fuel
      → receive k ps call fuel p error w ≡ ok (with p c' s' w)
  unfolding receive
  receive-Reads p error w {c} {c'} {s'} live r fuel h =
      let (errno, done) = recv_loop-Reads p w live error r fuel h in
      let start : with p c w.kernel w ≡ w =
        ap (λ a. record w { app = a }) (put_same p c w.app live) in
      rw (← start, done, put-put p (some c) (some c') w.app)
