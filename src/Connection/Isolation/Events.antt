-- ===== src/Connection/Isolation/Events.antt =====
-- include/connection_types.h, `handleEvent`: it leaves the other connections alone if the application's
-- functions do.
use async_event_loop.Connection.Isolation.Sending.{Sends, send_loop-Sends}
use async_event_loop.Base.{
  int_eq, ℕ, zero, suc, ℤ, ◌≡◌, ◌≢◌, ◌∙◌, refl, sym, inl, inr, Bool-cases, some, List, [], ◌∷◌,
  Bytes, ◌⊎◌, if◌then◌else◌, ◌||◌, ◌==◌, length,
}
use async_event_loop.Outcome.{Outcome, ok, ◌>>=◌, Returns, Returns-bind}
use async_event_loop.Heap.{object}
use async_event_loop.Kernel.{
  Kernel, Event, Received, received, end_of_stream, recv_error, sent, send_error, SendLaws,
  StreamLaws,
}
use async_event_loop.Kernel.Flags.{epollin, epollout, epollerr, has, eagain, ewouldblock}
use async_event_loop.Http.Callbacks.{
  ParserCall, on_call, message_begin, headers_complete, header_value_complete, message_complete,
  method, url, version, header_field, header_value, body,
}
use async_event_loop.Connection.{
  Parser, Conn, World, SendEnd, all_sent, stopped, load, store, send_loop, recv_buffer_size,
}
use async_event_loop.Connection.Handling.{
  on_message_complete, parser_call, parser_calls, execute_parser, recv_loop, receive, transmit,
  handle_event,
}
use async_event_loop.Connection.Isolation.{Others, kernel-Others, store-Others, load-Returns}

Received-cases :
    (r : Received)
    → ((b : ℕ) × (bs : Bytes) × (r ≡ received b bs))
      ⊎ (r ≡ end_of_stream)
      ⊎ ((errno : ℕ) × (r ≡ recv_error errno))
Received-cases (received b bs) = inl (b, bs, refl)
Received-cases end_of_stream = inr (inl refl)
Received-cases (recv_error errno) = inr (inr (errno, refl))

module _ (k : Kernel) (sending : SendLaws k) (streams : StreamLaws k) (ps : Parser)
    {Handler : Type 0} (call : Handler → ℕ → World k ps Handler → Outcome (World k ps Handler))
    (p : ℕ) (d : ℤ) (w0 : World k ps Handler)
    (calls : (h : Handler) (w : World k ps Handler)
      → Others k ps p d w0 w
      → Returns (Others k ps p d w0) (call h p w)) where
  abbrev W : Type 0
  W = World k ps Handler

  abbrev Kept : W → Type 0
  Kept = Others k ps p d w0

  on_call-Others :
      (part : ParserCall) (w : W)
      → Kept w
      → Returns Kept (
          load k ps p w
          >>= (λ c. ok (store k ps p (record c { request = on_call part c.request }) w)))
  on_call-Others part w o = load-Returns k ps p d w0 Kept w _ λ c live.
      store-Others k ps p d w0 (record c { request = on_call part c.request }) w live (o.own c live)
        o

  parser_call-Others :
      (c : ParserCall) (w : W) → Kept w → Returns Kept (parser_call k ps call p c w)
  unfolding parser_call on_message_complete
  parser_call-Others message_complete w o =
      load-Returns k ps p d w0 Kept w _ λ c live. calls c.cb w o
  parser_call-Others message_begin w o = on_call-Others message_begin w o
  parser_call-Others headers_complete w o = on_call-Others headers_complete w o
  parser_call-Others header_value_complete w o = on_call-Others header_value_complete w o
  parser_call-Others (method bs) w o = on_call-Others (method bs) w o
  parser_call-Others (url bs) w o = on_call-Others (url bs) w o
  parser_call-Others (version bs) w o = on_call-Others (version bs) w o
  parser_call-Others (header_field bs) w o = on_call-Others (header_field bs) w o
  parser_call-Others (header_value bs) w o = on_call-Others (header_value bs) w o
  parser_call-Others (body bs) w o = on_call-Others (body bs) w o

  parser_calls-Others :
      (cs : List ParserCall) (w : W) → Kept w → Returns Kept (parser_calls k ps call p cs w)
  unfolding parser_calls
  parser_calls-Others [] w o = o
  parser_calls-Others (c ∷ cs) w o =
      Returns-bind Kept Kept (parser_call k ps call p c w) _ (parser_call-Others c w o)
        (parser_calls-Others cs)

  execute_parser-Others :
      (bs : Bytes) (w : W) → Kept w → Returns (λ r. Kept r.1) (execute_parser k ps call p bs w)
  unfolding execute_parser
  execute_parser-Others bs w o =
      load-Returns k ps p d w0 (λ r. Kept r.1) w _
        λ c live.
          Returns-bind Kept (λ r. Kept r.1)
            (parser_calls k ps call p (ps.execute c.parser bs).0.0 w) _
            (parser_calls-Others (ps.execute c.parser bs).0.0 w o)
            λ w' o'.
              load-Returns k ps p d w0 (λ r. Kept r.1) w' _
                λ c' live'. store-Others k ps p d w0 _ w' live' (o'.own c' live') o'

  recv-Others :
      (size : ℕ) (w : W) (c : ℤ) → Kept w → Kept (record w { kernel = (k.recv c size w.kernel).1 })
  recv-Others size w c =
      kernel-Others k ps p d w0 w _ (λ e other. sending.recv_sends_nothing c e size w.kernel)

  if_fails :
      (error : Handler) (done : ℕ × W)
      → Kept done.1
      → Returns Kept (if done.0 == 0 then ok done.1 else call error p done.1)
  if_fails error (llerror, w) o = elim (Bool-cases (llerror == 0)) [
    | inl fine ↦ rw fine o
    | inr bad ↦ rw bad (calls error w o)
  ]

  -- A round of the loop over `recv`, of which `rest` are the others.
  after_piece :
      (fuel : ℕ) (error : Handler)
      → ((w : W) → Kept w → Returns (λ r. Kept r.1) (recv_loop k ps call fuel p error w))
      → (bs : Bytes) (w : W) → Kept w
      → Returns
          (λ r. Kept r.1)
          (execute_parser k ps call p bs w >>= (λ done.
            (if done.0 == 0 then ok done.1 else call error p done.1)
            >>= recv_loop k ps call fuel p error))
  after_piece fuel error rest bs w o =
      Returns-bind (λ r. Kept r.1) (λ r. Kept r.1) (execute_parser k ps call p bs w) _
        (execute_parser-Others bs w o)
        λ done o'.
          Returns-bind Kept (λ r. Kept r.1) (if done.0 == 0 then ok done.1 else call error p done.1)
            _ (if_fails error done o') rest

  recv_loop-Others :
      (fuel : ℕ) (error : Handler) (w : W)
      → Kept w
      → Returns (λ r. Kept r.1) (recv_loop k ps call fuel p error w)
  unfolding recv_loop
  recv_loop-Others zero error w o = tt
  recv_loop-Others (suc fuel) error w o =
      load-Returns k ps p d w0 (λ r. Kept r.1) w _
        λ c live.
          let again = after_piece fuel error (recv_loop-Others fuel error) in
          elim (Received-cases (k.recv c.socket recv_buffer_size w.kernel).0) [
            | inl (b, bs, e) ↦ rw e (again (b ∷ bs) _ (recv-Others recv_buffer_size w c.socket o))
            | inr (inl e) ↦ rw e (recv-Others recv_buffer_size w c.socket o)
            | inr (inr (errno, e)) ↦ rw e (recv-Others recv_buffer_size w c.socket o)
          ]

  receive-Others :
      (fuel : ℕ) (error : Handler) (w : W)
      → Kept w
      → Returns Kept (receive k ps call fuel p error w)
  unfolding receive
  receive-Others fuel error w o =
      Returns-bind (λ r. Kept r.1) Kept (recv_loop k ps call fuel p error w) _
        (recv_loop-Others fuel error w o) after_loop
    where
      after_loop :
          (r : Received × W)
          → Kept r.1
          → Returns Kept (elim r.0 [
            | end_of_stream ↦ call error p r.1
            | received b bs ↦ ok r.1
            | recv_error errno ↦ ok r.1
          ])
      after_loop (end_of_stream, w') o' = calls error w' o'
      after_loop (received b bs, w') o' = o'
      after_loop (recv_error errno, w') o' = o'

  sent-Others :
      (c c' : Conn k ps Handler) (s' : k.State) (w : W)
      → object p w.app ≡ some c
      → Kept w
      → c'.socket ≡ c.socket
      → ((e : ℤ) → c.socket ≢ e → k.outgoing s' e ≡ k.outgoing w.kernel e)
      → Kept (store k ps p c' (record w { kernel = s' }))
  sent-Others c c' s' w live o same alone =
      let on : c.socket ≡ d = o.own c live in
      store-Others k ps p d w0 c' (record w { kernel = s' }) live (same ∙ on)
        (kernel-Others k ps p d w0 w s' (λ e other. alone e (λ eq. other (sym on ∙ eq))) o)

  transmit-Others :
      (success error : Handler) (w : W)
      → Kept w
      → Returns Kept (transmit k ps call p success error w)
  unfolding transmit
  transmit-Others success error w o = load-Returns k ps p d w0 Kept w _ λ c live.
      Returns-bind (Sends k sending streams ps c w.kernel) Kept
        (send_loop k ps (suc (length c.send_buffer)) c w.kernel) _
        (send_loop-Sends k sending streams ps (suc (length c.send_buffer)) c w.kernel)
        (after_loop c live)
    where
      after_loop :
          (c : Conn k ps Handler)
          → object p w.app ≡ some c
          → (r : SendEnd × Conn k ps Handler × k.State) → Sends k sending streams ps c w.kernel r
          → let w' : W = store k ps p r.1 (record w { kernel = r.2 }) in
            Returns Kept (elim r.0 [
              | all_sent ↦ call success p w'
              | stopped (sent n) ↦ ok w'
              | stopped (send_error errno) ↦
                  if errno == eagain || errno == ewouldblock then ok w' else call error p w'
            ])
      after_loop c live (all_sent, c', s') (same, alone) =
          calls success _ (sent-Others c c' s' w live o same alone)
      after_loop c live (stopped (sent n), c', s') (same, alone) =
          sent-Others c c' s' w live o same alone
      after_loop c live (stopped (send_error errno), c', s') (same, alone) =
          elim (Bool-cases (errno == eagain || errno == ewouldblock)) [
            | inl calm ↦ rw calm (sent-Others c c' s' w live o same alone)
            | inr bad ↦ rw bad (calls error _ (sent-Others c c' s' w live o same alone))
          ]

  pub handle_event-Others :
      (fuel : ℕ) (ev : Event) (success error : Handler) (w : W)
      → Kept w
      → Returns Kept (handle_event k ps call fuel p ev success error w)
  unfolding handle_event
  handle_event-Others fuel ev success error w o = load-Returns k ps p d w0 Kept w _ λ c live.
      elim (Bool-cases (has ev.events epollerr)) [
        | inl err ↦ rw err (calls error w o)
        | inr no_err ↦ elim (Bool-cases (has ev.events epollin)) [
          | inl in_ev ↦ rw (no_err, in_ev) (receive-Others fuel error w o)
          | inr no_in ↦ elim (Bool-cases (has ev.events epollout)) [
            | inl out ↦ rw (no_err, no_in, out) (transmit-Others success error w o)
            | inr no_out ↦ rw (no_err, no_in, no_out) o
          ]
        ]
      ]
