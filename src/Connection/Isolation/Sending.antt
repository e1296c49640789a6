-- ===== src/Connection/Isolation/Sending.antt =====
-- include/connection_types.h, the loop of `handleEvent` over `send`: what it leaves alone.
use async_event_loop.Base.{
  int_eq, ℕ, zero, suc, ℤ, ◌≡◌, ◌≢◌, ◌∙◌, refl, inl, inr, Bool-cases, leb, ◌+◌, length,
}
use async_event_loop.Outcome.{Returns, Returns-map}
use async_event_loop.Kernel.{Kernel, sent, send_error, SendLaws, StreamLaws}
use async_event_loop.Connection.{Parser, Conn, SendEnd, send_loop}
use async_event_loop.Connection.Sending.{
  unsent, taken, Sent-cases, round_stopped, round_full, round_part,
}

module _ (k : Kernel) (sending : SendLaws k) (streams : StreamLaws k) (ps : Parser)
    {Handler : Type 0} where
  -- What the loop over `send` leaves alone.
  abbrev pub Sends : Conn k ps Handler → k.State → SendEnd × Conn k ps Handler × k.State → Type 0
  Sends c s (end, c', s') =
      (c'.socket ≡ c.socket) × ((e : ℤ) → c.socket ≢ e → k.outgoing s' e ≡ k.outgoing s e)

  pub send_loop-Sends :
      (fuel : ℕ) (c : Conn k ps Handler) (s : k.State)
      → Returns (Sends c s) (send_loop k ps fuel c s)
  unfolding send_loop
  send_loop-Sends zero c s = tt
  send_loop-Sends (suc fuel) c s = elim (Sent-cases (taken k sending ps c s).0) [
    | inl e ↦ rw (round_stopped k sending ps fuel c s (sent 0) (inl refl) e) (refl, alone)
    | inr (inl (n, e)) ↦ elim (Bool-cases (leb (length c.send_buffer) (c.sent_bytes + suc n))) [
      | inl full ↦ rw (round_full k sending ps fuel n c s e full) (refl, alone)
      | inr part ↦ rw (round_part k sending ps fuel n c s e part) (
          Returns-map _ (Sends c s)
            (send_loop k ps fuel (record c { sent_bytes = c.sent_bytes + suc n })
              (taken k sending ps c s).1)
            (λ done (same, rest). (same, λ e other. rest e other ∙ alone e other))
            (send_loop-Sends fuel (record c { sent_bytes = c.sent_bytes + suc n })
              (taken k sending ps c s).1))
    ]
    | inr (inr (x, e)) ↦
        rw (round_stopped k sending ps fuel c s (send_error x) (inr (x, refl)) e) (refl, alone)
  ]
    where
      alone : (e : ℤ) → c.socket ≢ e → k.outgoing (taken k sending ps c s).1 e ≡ k.outgoing s e
      alone e other = streams.send_alone c.socket e (unsent k ps c) s other
