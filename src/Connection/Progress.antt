-- ===== src/Connection/Progress.antt =====
-- include/connection_types.h, the branch of EPOLLOUT: how far the loop over `send` gets.
use mathlib.Core.Path.{subst}
use async_event_loop.Base.{
  ℕ, zero, suc, ◌+◌, ◌<◌, ◌≤◌, ◌≡◌, refl, ap, ◌∙◌, ◌⊎◌, inl, inr, Bool-cases, true, leb, Bytes,
  arith, length, take, some, ◌==◌, ◌||◌, [], ◌++◌,
}
use async_event_loop.Outcome.{Outcome, ok, fault}
use async_event_loop.Kernel.{Kernel, Sent, sent, send_error, SendLaws}
use async_event_loop.Kernel.Flags.{eagain, ewouldblock}
use async_event_loop.Heap.{object}
use async_event_loop.Connection.{
  Parser, Conn, SendEnd, all_sent, stopped, send_loop, World, store, load_live,
}
use async_event_loop.Connection.Handling.{transmit}
use async_event_loop.Connection.Sending.{
  unsent, Transmits, taken, Sent-cases, round_stopped, round_full, round_part, send_loop-Transmits,
}

-- A result of `send` after which the connection waits for the next event.
abbrev pub Waits : Sent → Type 0
Waits (sent n) = Unit
Waits (send_error e) = (e == eagain || e == ewouldblock) ≡ true

module _ (k : Kernel) (ps : Parser) {Handler : Type 0} where
  -- `send` on the socket of the connection fails only for a while.
  abbrev pub IsCalm : Conn k ps Handler → Type 0
  IsCalm c = (bs : Bytes) (s : k.State) → Waits (k.send c.socket bs s).0

  -- Where the loop stops before the end, at least `m` bytes are counted as sent, and not all.
  abbrev pub Reaches :
      Conn k ps Handler → ℕ → Outcome (SendEnd × Conn k ps Handler × k.State) → Type 0
  Reaches c m (fault x) = Unit
  Reaches c m (ok (all_sent, c', s')) = Unit
  Reaches c m (ok (stopped r, c', s')) =
      (m ≤ c'.sent_bytes) × (c'.sent_bytes < length c.send_buffer) × Waits r

module _ (k : Kernel) (laws : SendLaws k) (ps : Parser) {Handler : Type 0} where
  Reaches-less :
      (c : Conn k ps Handler) (m n : ℕ) (r : Outcome (SendEnd × Conn k ps Handler × k.State))
      → m ≤ n
      → Reaches k ps (record c { sent_bytes = n }) n r
      → Reaches k ps c m r
  Reaches-less c m n (fault x) h t = tt
  Reaches-less c m n (ok (all_sent, c', s')) h t = tt
  Reaches-less c m n (ok (stopped r, c', s')) h (a, b, w) = (omega arith, b, w)

  send_loop-Reaches :
      (fuel : ℕ) (c : Conn k ps Handler) (s : k.State)
      → IsCalm k ps c
      → c.sent_bytes < length c.send_buffer
      → Reaches k ps c c.sent_bytes (send_loop k ps fuel c s)
  unfolding send_loop
  send_loop-Reaches zero c s calm h = tt
  send_loop-Reaches (suc fuel) c s calm h = elim (Sent-cases (taken k laws ps c s).0) [
    | inl e ↦ rw (round_stopped k laws ps fuel c s (sent 0) (inl refl) e) (omega arith, h, tt)
    | inr (inl (n, e)) ↦ elim (Bool-cases (leb (length c.send_buffer) (c.sent_bytes + suc n))) [
      | inl full ↦ rw (round_full k laws ps fuel n c s e full) tt
      | inr part ↦ rw (round_part k laws ps fuel n c s e part) (
          Reaches-less c c.sent_bytes (c.sent_bytes + suc n) _ (omega arith)
            (send_loop-Reaches fuel _ (taken k laws ps c s).1 calm (ground arith)))
    ]
    | inr (inr (x, e)) ↦
        rw (round_stopped k laws ps fuel c s (send_error x) (inr (x, refl)) e)
          (omega arith, h, subst Waits e (calm (unsent k ps c) s))
  ]

  -- The first `send` takes a byte at least.
  first_byte-Reaches :
      (fuel n : ℕ) (c : Conn k ps Handler) (s : k.State)
      → IsCalm k ps c
      → c.sent_bytes < length c.send_buffer
      → (taken k laws ps c s).0 ≡ sent (suc n)
      → Reaches k ps c (suc c.sent_bytes) (send_loop k ps (suc fuel) c s)
  first_byte-Reaches fuel n c s calm h e =
      elim (Bool-cases (leb (length c.send_buffer) (c.sent_bytes + suc n))) [
        | inl full ↦ rw (round_full k laws ps fuel n c s e full) tt
        | inr part ↦ rw (round_part k laws ps fuel n c s e part) (
            Reaches-less c (suc c.sent_bytes) (c.sent_bytes + suc n) _ (omega arith)
              (send_loop-Reaches fuel _ (taken k laws ps c s).1 calm (ground arith)))
      ]

module _ (k : Kernel) (laws : SendLaws k) (ps : Parser) {Handler : Type 0}
    (call : Handler → ℕ → World k ps Handler → Outcome (World k ps Handler)) where
  -- How the branch of EPOLLOUT gets on for the connection `c` at `p`: it comes to the end, or some bytes
  -- more are sent and the connection waits.
  pub record Advances (p : ℕ) (c : Conn k ps Handler) (success error : Handler)
      (w : World k ps Handler) : Type 0 where
    pub kernel : k.State
    pub how :
        let w' : World k ps Handler = record w { kernel = kernel } in
        ((transmit k ps call p success error w
            ≡ call success p (store k ps p (record c { send_buffer = []; sent_bytes = 0 }) w'))
          × (k.outgoing kernel c.socket ≡ k.outgoing w.kernel c.socket ++ unsent k ps c))
        ⊎ ((n : ℕ) × (transmit k ps call p success error w
              ≡ ok (store k ps p (record c { sent_bytes = c.sent_bytes + suc n }) w'))
            × (c.sent_bytes + suc n < length c.send_buffer)
            × (k.outgoing kernel c.socket
                ≡ k.outgoing w.kernel c.socket ++ take (suc n) (unsent k ps c)))

  stopped-Waits :
      (p : ℕ) (c c' : Conn k ps Handler) (success error : Handler) (w : World k ps Handler)
      (r : Sent) (s' : k.State)
      → object p w.app ≡ some c
      → send_loop k ps (suc (length c.send_buffer)) c w.kernel ≡ ok (stopped r, c', s')
      → Waits r
      → transmit k ps call p success error w ≡ ok (store k ps p c' (record w { kernel = s' }))
  unfolding transmit
  stopped-Waits p c c' success error w (sent n) s' o e calm = rw (load_live k ps p w o, e)
  stopped-Waits p c c' success error w (send_error x) s' o e calm =
      rw (load_live k ps p w o, e, calm)

  advance :
      (p : ℕ) (c : Conn k ps Handler) (success error : Handler) (w : World k ps Handler)
      (r : Outcome (SendEnd × Conn k ps Handler × k.State))
      → object p w.app ≡ some c
      → send_loop k ps (suc (length c.send_buffer)) c w.kernel ≡ r
      → Transmits k ps c w.kernel r
      → Reaches k ps c (suc c.sent_bytes) r
      → Advances p c success error w
  unfolding transmit
  advance p c success error w (fault x) o e t a = absurd t
  advance p c success error w (ok (all_sent, c', s')) o e (same, out) a = record {
    kernel = s';
    how = inl (rw (load_live k ps p w o, e, same), out);
  }
  advance p c success error w (ok (stopped r, c', s')) o e (zero, same, fits, out)
        (more, less, calm) =
      let sent_same : c'.sent_bytes ≡ c.sent_bytes + 0 = ap (λ x. x.sent_bytes) same in
      absurd (omega arith)
  advance p c success error w (ok (stopped r, c', s')) o e (suc n, same, fits, out)
        (more, less, calm) =
      let counted : c'.sent_bytes ≡ c.sent_bytes + suc n = ap (λ x. x.sent_bytes) same in
      record {
        kernel = s';
        how = inr (
          n,
          stopped-Waits p c c' success error w r s' o e calm
              ∙ ap (λ x. ok (store k ps p x (record w { kernel = s' }))) same,
          omega arith,
          out,
        );
      }

  -- An event at which `send` takes a byte at least, and fails only for a while.
  pub transmit-Advances :
      (p n : ℕ) (c : Conn k ps Handler) (success error : Handler) (w : World k ps Handler)
      → object p w.app ≡ some c
      → IsCalm k ps c
      → c.sent_bytes < length c.send_buffer
      → (k.send c.socket (unsent k ps c) w.kernel).0 ≡ sent (suc n)
      → Advances p c success error w
  transmit-Advances p n c success error w o calm h e =
      advance p c success error w _ o refl
        (send_loop-Transmits k laws ps (suc (length c.send_buffer)) c w.kernel (omega arith)
          (omega arith))
        (first_byte-Reaches k laws ps (length c.send_buffer) n c w.kernel calm h e)
