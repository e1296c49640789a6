-- ===== src/Connection/Sending.antt =====
-- include/connection_types.h, the branch of EPOLLOUT: what becomes of the bytes in `sendBuffer`.
use async_event_loop.Base.{
  ℕ, zero, suc, ◌+◌, ◌-◌, ◌<◌, ◌≤◌, ◌≡◌, refl, sym, ap, ◌∙◌, ◌⊎◌, inl, inr, Bool-cases, true, false,
  leb→le, [], ◌++◌, append_assoc, Bytes, arith, leb, length, take, drop, length-drop, drop-add,
  take-add, take_all, ◌==◌, ◌||◌, if◌then◌else◌, append-nil, take-append-drop,
}
use native.Mathlib.Nat.{add-zero, add_assoc}
use async_event_loop.Outcome.{Outcome, ok, fault}
use async_event_loop.Kernel.{Kernel, Sent, sent, send_error, SendLaws}
use async_event_loop.Connection.{Parser, Conn, SendEnd, all_sent, stopped, send_loop, World, store}
use async_event_loop.Connection.Handling.{transmit}
use async_event_loop.Kernel.Flags.{eagain, ewouldblock}

pub Sent-cases :
    (r : Sent) → (r ≡ sent 0) ⊎ ((n : ℕ) × (r ≡ sent (suc n))) ⊎ ((e : ℕ) × (r ≡ send_error e))
Sent-cases (sent zero) = inl refl
Sent-cases (sent (suc n)) = inr (inl (n, refl))
Sent-cases (send_error e) = inr (inr (e, refl))

module _ (k : Kernel) (ps : Parser) {Handler : Type 0} where
  -- the bytes that are still to be sent
  abbrev pub unsent : Conn k ps Handler → Bytes
  unsent c = drop c.sent_bytes c.send_buffer

  -- What the loop did to a connection `c` in the state `s` of the system, by how it ended.
  abbrev pub Transmits :
      Conn k ps Handler → k.State → Outcome (SendEnd × Conn k ps Handler × k.State) → Type 0
  Transmits c s (fault _) = ⊥
  Transmits c s (ok (all_sent, c', s')) =
      (c' ≡ record c { send_buffer = []; sent_bytes = 0 })
      × (k.outgoing s' c.socket ≡ k.outgoing s c.socket ++ unsent c)
  Transmits c s (ok (stopped r, c', s')) =
      (n : ℕ) × (c' ≡ record c { sent_bytes = c.sent_bytes + n })
      × (c.sent_bytes + n ≤ length c.send_buffer)
      × (k.outgoing s' c.socket ≡ k.outgoing s c.socket ++ take n (unsent c))

  -- A loop that stopped did so at the answer `r` of a call of `send` on all that was left.
  abbrev pub StoppedBy : Sent → Conn k ps Handler → k.State → Type 0
  StoppedBy r c s' = (s : k.State) × (k.send c.socket (unsent c) s ≡ (r, s'))

  abbrev pub Ends : Outcome (SendEnd × Conn k ps Handler × k.State) → Type 0
  Ends (fault _) = Unit
  Ends (ok (all_sent, c, s')) = Unit
  Ends (ok (stopped (sent (suc n)), c, s')) = ⊥
  Ends (ok (stopped (sent zero), c, s')) = StoppedBy (sent 0) c s'
  Ends (ok (stopped (send_error errno), c, s')) = StoppedBy (send_error errno) c s'

module _ (k : Kernel) (laws : SendLaws k) (ps : Parser) {Handler : Type 0} where
  stopped-Transmits :
      (c : Conn k ps Handler) (s s' : k.State) (r : Sent)
      → c.sent_bytes ≤ length c.send_buffer
      → k.outgoing s' c.socket ≡ k.outgoing s c.socket
      → Transmits k ps c s (ok (stopped r, c, s'))
  stopped-Transmits c s s' r h same =
      (0, ground (arith, add-zero c.sent_bytes), omega arith, same ∙ sym (append-nil _))

  -- A round in front of a run of the loop.
  after_round :
      (n : ℕ) (c : Conn k ps Handler) (s s' : k.State)
      (r : Outcome (SendEnd × Conn k ps Handler × k.State))
      → k.outgoing s' c.socket ≡ k.outgoing s c.socket ++ take n (unsent k ps c)
      → Transmits k ps (record c { sent_bytes = c.sent_bytes + n }) s' r
      → Transmits k ps c s r
  after_round n c s s' (ok (all_sent, c', s'')) e (same, out) = (
    same,
    out
        ∙ rw (e, drop-add c.sent_bytes n c.send_buffer)
            (append_assoc (k.outgoing s c.socket) (take n (unsent k ps c)) (drop n (unsent k ps c))
              ∙ ap (λ xs. k.outgoing s c.socket ++ xs) (take-append-drop n (unsent k ps c))),
  )
  after_round n c s s' (ok (stopped r, c', s'')) e (m, same, fits, out) = (
    n + m,
    same ∙ ground (arith, add_assoc c.sent_bytes n m),
    omega arith,
    out
        ∙ rw (e, drop-add c.sent_bytes n c.send_buffer)
            (append_assoc (k.outgoing s c.socket) (take n (unsent k ps c))
                (take m (drop n (unsent k ps c)))
              ∙ ap (λ xs. k.outgoing s c.socket ++ xs) (sym (take-add n m (unsent k ps c)))),
  )
  after_round n c s s' (fault x) e t = absurd t

  -- The rounds of the loop, by the result of `send`.
  abbrev pub taken : Conn k ps Handler → k.State → Sent × k.State
  taken c s = k.send c.socket (unsent k ps c) s

  pub round_stopped :
      (fuel : ℕ) (c : Conn k ps Handler) (s : k.State) (r : Sent)
      → (r ≡ sent 0) ⊎ ((e : ℕ) × (r ≡ send_error e))
      → (taken c s).0 ≡ r
      → send_loop k ps (suc fuel) c s ≡ ok (stopped r, c, (taken c s).1)
  unfolding send_loop
  round_stopped fuel c s r (inl z) e = rw (e, z, send_loop)
  round_stopped fuel c s r (inr (x, z)) e = rw (e, z, send_loop)

  pub round_full :
      (fuel n : ℕ) (c : Conn k ps Handler) (s : k.State)
      → (taken c s).0 ≡ sent (suc n)
      → leb (length c.send_buffer) (c.sent_bytes + suc n) ≡ true
      → send_loop k ps (suc fuel) c s
        ≡ ok (all_sent, record c { send_buffer = []; sent_bytes = 0 }, (taken c s).1)
  unfolding send_loop
  round_full fuel n c s e full = rw (e, full, send_loop)

  pub round_part :
      (fuel n : ℕ) (c : Conn k ps Handler) (s : k.State)
      → (taken c s).0 ≡ sent (suc n)
      → leb (length c.send_buffer) (c.sent_bytes + suc n) ≡ false
      → send_loop k ps (suc fuel) c s
        ≡ send_loop k ps fuel (record c { sent_bytes = c.sent_bytes + suc n }) (taken c s).1
  unfolding send_loop
  round_part fuel n c s e part = rw (e, part, send_loop)

  full-Transmits :
      (n : ℕ) (c : Conn k ps Handler) (s : k.State)
      → (taken c s).0 ≡ sent (suc n)
      → length c.send_buffer ≤ c.sent_bytes + suc n
      → Transmits k ps c s
          (ok (all_sent, record c { send_buffer = []; sent_bytes = 0 }, (taken c s).1))
  full-Transmits n c s e h = (
    refl,
    (laws.send_takes c.socket (unsent k ps c) s (suc n) e).1
        ∙ ap (λ xs. k.outgoing s c.socket ++ xs)
            (take_all (suc n) (unsent k ps c)
              (omega (arith, length-drop c.sent_bytes c.send_buffer))),
  )

  pub send_loop-Transmits :
      (fuel : ℕ) (c : Conn k ps Handler) (s : k.State)
      → c.sent_bytes ≤ length c.send_buffer
      → length c.send_buffer - c.sent_bytes < fuel
      → Transmits k ps c s (send_loop k ps fuel c s)
  send_loop-Transmits zero c s h f = elim f [ ]
  send_loop-Transmits (suc fuel) c s h f = elim (Sent-cases (taken c s).0) [
    | inl e ↦
        rw (round_stopped fuel c s (sent 0) (inl refl) e)
          (stopped-Transmits c s _ (sent 0) h (idle e))
    | inr (inl (n, e)) ↦ elim (Bool-cases (leb (length c.send_buffer) (c.sent_bytes + suc n))) [
      | inl full ↦ rw (round_full fuel n c s e full) (full-Transmits n c s e (leb→le _ _ full))
      | inr part ↦ rw (round_part fuel n c s e part) (
          after_round (suc n) c s (taken c s).1 _
            (laws.send_takes c.socket (unsent k ps c) s (suc n) e).1
            (send_loop-Transmits fuel _ _ (ground arith) (ground arith)))
    ]
    | inr (inr (x, e)) ↦
        rw (round_stopped fuel c s (send_error x) (inr (x, refl)) e) (
          stopped-Transmits c s _ (send_error x) h (laws.send_fails c.socket (unsent k ps c) s x e))
  ]
    where
      idle : (taken c s).0 ≡ sent 0 → k.outgoing (taken c s).1 c.socket ≡ k.outgoing s c.socket
      idle e = (laws.send_takes c.socket (unsent k ps c) s 0 e).1 ∙ append-nil _

module _ (k : Kernel) (ps : Parser) {Handler : Type 0}
    (call : Handler → ℕ → World k ps Handler → Outcome (World k ps Handler)) where
  -- What a loop that stopped at the answer `r` leads to: nothing more where `send` took no byte or
  -- failed for a while, and `error` where it failed for good.
  abbrev pub Handles :
      ℕ → Handler → World k ps Handler → Sent → Outcome (World k ps Handler) → Type 0
  Handles p error w (sent zero) m = m ≡ ok w
  Handles p error w (sent (suc n)) m = ⊥
  Handles p error w (send_error errno) m =
      m ≡ (if errno == eagain || errno == ewouldblock then ok w else call error p w)

  -- What the branch of EPOLLOUT came to for the connection `c` at `p`.
  pub record Delivers (p : ℕ) (c : Conn k ps Handler) (success error : Handler)
      (w : World k ps Handler) : Type 0 where
    pub after : Conn k ps Handler
    pub kernel : k.State
    -- the world in which a handler is called, or that is left
    pub how :
        let w' = store k ps p after (record w { kernel = kernel }) in
        ((transmit k ps call p success error w ≡ call success p w')
          × (after ≡ record c { send_buffer = []; sent_bytes = 0 })
          × (k.outgoing kernel c.socket ≡ k.outgoing w.kernel c.socket ++ unsent k ps c))
        ⊎ (((r : Sent) × StoppedBy k ps r after kernel
              × Handles p error w' r (transmit k ps call p success error w))
            × ((n : ℕ) × (after ≡ record c { sent_bytes = c.sent_bytes + n })
                × (c.sent_bytes + n ≤ length c.send_buffer)
                × (k.outgoing kernel c.socket
                    ≡ k.outgoing w.kernel c.socket ++ take n (unsent k ps c))))
