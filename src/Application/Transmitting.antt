-- ===== src/Application/Transmitting.antt =====
-- src/server.cpp over include/connection_types.h: the branch of EPOLLOUT on a connection that is live.
use async_event_loop.Base.{
  int_eq, ℕ, zero, suc, ℤ, ◌≡◌, ◌≤◌, refl, ◌∙◌, Bool-cases, inl, inr, leb, length, ◌+◌, drop, ◌==◌,
  if◌then◌else◌, ◌||◌, arith,
}
use async_event_loop.Outcome.{Outcome, ok, fault, Safe, Safe-bind, Safe-weaken}
use async_event_loop.Kernel.{Kernel, Sent, sent, send_error, EpollLaws, InterestLaws, SendLaws}
use async_event_loop.Kernel.Flags.{eagain, ewouldblock}
use async_event_loop.Http.{Headers}
use async_event_loop.Connection.{
  Parser, Conn, World, SendEnd, all_sent, stopped, load_live, store, send_loop,
}
use async_event_loop.Connection.Handling.{transmit}
use async_event_loop.Connection.Sending.{Transmits, send_loop-Transmits}
use async_event_loop.Application.{Handler, call}
use async_event_loop.Application.Serving.{Fits, Fits-le, Owns, Serves}
use async_event_loop.Application.Serving.Steps.{kernel-Serves}
use async_event_loop.Application.Safety.{At, call-Safe}
use async_event_loop.Application.Events.{store-At}

module _ (k : Kernel) (laws : InterestLaws k) (ps : Parser) where
  abbrev C : Type 0
  C = Conn k ps Handler

  -- The loop over `send` leaves the interest list alone.
  abbrev Same : k.State → SendEnd × C × k.State → Type 0
  Same s (end, c', s') = (e d : ℤ) → k.interest s' e d ≡ k.interest s e d

  sent_round :
      (fuel : ℕ) (c : C) (s : k.State) (x : Sent)
      → (k.send c.socket (drop c.sent_bytes c.send_buffer) s).0 ≡ x
      → ((c' : C) (s' : k.State) → Safe (Same s') (send_loop k ps fuel c' s'))
      → Safe (Same s) (send_loop k ps (suc fuel) c s)
  unfolding send_loop
  sent_round fuel c s (sent zero) e again =
      rw (e, send_loop) (λ f d. laws.send_keeps f c.socket d (drop c.sent_bytes c.send_buffer) s)
  sent_round fuel c s (send_error x) e again =
      rw (e, send_loop) (λ f d. laws.send_keeps f c.socket d (drop c.sent_bytes c.send_buffer) s)
  sent_round fuel c s (sent (suc n)) e again =
      elim (Bool-cases (leb (length c.send_buffer) (c.sent_bytes + suc n))) [
        | inl full ↦
            rw (e, full, send_loop)
              (λ f d. laws.send_keeps f c.socket d (drop c.sent_bytes c.send_buffer) s)
        | inr part ↦
            rw (e, part, send_loop)
              (Safe-weaken (Same s') (Same s) (send_loop k ps fuel c' s') (again c' s')
                (λ (end, c'', s'') i f d.
                  i f d ∙ laws.send_keeps f c.socket d (drop c.sent_bytes c.send_buffer) s))
      ]
    where
      c' : C
      c' = record c { sent_bytes = c.sent_bytes + suc n }

      s' : k.State
      s' = (k.send c.socket (drop c.sent_bytes c.send_buffer) s).1

  send_loop-Same : (fuel : ℕ) (c : C) (s : k.State) → Safe (Same s) (send_loop k ps fuel c s)
  unfolding send_loop
  send_loop-Same zero c s = tt
  send_loop-Same (suc fuel) c s =
      sent_round fuel c s (k.send c.socket (drop c.sent_bytes c.send_buffer) s).0 refl
        (λ c' s'. send_loop-Same fuel c' s')

module _ (k : Kernel) (epoll : EpollLaws k) (laws : InterestLaws k) (sending : SendLaws k)
    (ps : Parser) (order : Headers → Headers) (least : ℕ) (due : ℤ → Type 0) where
  abbrev W : Type 0
  W = World k ps Handler

  part-Fits :
      (n : ℕ) (c : Conn k ps Handler)
      → c.sent_bytes + n ≤ length c.send_buffer
      → Fits k ps order c
      → Fits k ps order (record c { sent_bytes = c.sent_bytes + n })
  part-Fits n c le (inl (empty, none_sent)) =
      let length_0 : length c.send_buffer ≡ 0 = rw empty in inl (empty, omega arith)
  part-Fits n c le (inr (full, _)) = inr (full, rw (← full) le)

  -- The loop over `send` ends, and what it leaves of the connection is in order.
  abbrev Transmitted : Conn k ps Handler → k.State → SendEnd × Conn k ps Handler × k.State → Type 0
  Transmitted c s (end, c', s') =
      ((d : ℤ) → Owns k ps order d c → Owns k ps order d c')
      × ((e d : ℤ) → k.interest s' e d ≡ k.interest s e d)

  loop_end :
      (c : Conn k ps Handler) (s : k.State) (r : Outcome (SendEnd × Conn k ps Handler × k.State))
      → Transmits k ps c s r
      → Safe (Same k laws ps s) r
      → Safe (Transmitted c s) r
  loop_end c s (ok (all_sent, c', s')) (e, _) i =
      (λ d (on, cb, fits). rw e (on, cb, inl (refl, refl)), i)
  loop_end c s (ok (stopped r, c', s')) (n, e, le, _) i =
      (λ d (on, cb, fits). rw e (on, cb, part-Fits n c le fits), i)
  loop_end c s (fault x) t i = absurd t

  sent-Safe :
      (p : ℕ) (d : ℤ) (success error : Handler) (end : SendEnd) (w : W)
      → At k ps order laws least due p d w
      → Safe (Serves k ps order laws least due) (elim end [
        | all_sent ↦ call k ps order success p w
        | stopped (sent n) ↦ ok w
        | stopped (send_error errno) ↦
            if errno == eagain || errno == ewouldblock then ok w else call k ps order error p w
      ])
  sent-Safe p d success error all_sent w a =
      call-Safe k epoll laws ps order least due success p d w a
  sent-Safe p d success error (stopped (sent n)) w a = a.0
  sent-Safe p d success error (stopped (send_error errno)) w a =
      elim (Bool-cases (errno == eagain || errno == ewouldblock)) [
        | inl later ↦ rw later a.0
        | inr broken ↦ rw broken (call-Safe k epoll laws ps order least due error p d w a)
      ]

  pub transmit-Safe :
      (p : ℕ) (d : ℤ) (success error : Handler) (w : W)
      → At k ps order laws least due p d w
      → Safe (Serves k ps order laws least due) (transmit k ps (call k ps order) p success error w)
  unfolding transmit
  transmit-Safe p d success error w (s, (c, o, own), done) = rw (load_live k ps p w o) (
      Safe-bind (Transmitted c w.kernel) (Serves k ps order laws least due)
        (send_loop k ps (suc (length c.send_buffer)) c w.kernel) _
        (loop_end c w.kernel _
          (send_loop-Transmits k sending ps (suc (length c.send_buffer)) c w.kernel
            (Fits-le k ps order c own.2) (omega arith))
          (send_loop-Same k laws ps (suc (length c.send_buffer)) c w.kernel))
        (λ (end, c', s') (owned, i).
          sent-Safe p d success error end (store k ps p c' (record w { kernel = s' })) (
            store-At k epoll laws ps order least due p d c c' (record w { kernel = s' }) o owned
              (kernel-Serves k ps order laws w s' (λ f. i w.epollfd_ f) s, (c, o, own), done))))
