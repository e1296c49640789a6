-- ===== src/Client/Sending.antt =====
-- src/client.cpp: what the client has sent when it ends.
use async_event_loop.Base.{
  int_tests, int_eqb_iff, ℤ, pos, failed, ◌≡◌, ◌≢◌, ◌⊎◌, inl, inr, Bool-cases, refl, false, some,
  List, [], ◌∷◌, ◌++◌, Bytes, arith, All, take, length, ◌≤◌, true,
}
use async_event_loop.Outcome.{ok}
use async_event_loop.Kernel.{Kernel, AddrInfo, Sent, sent, send_error, SendLaws}
use async_event_loop.Kernel.Flags.{af_inet}
use async_event_loop.Standalone.{returned, exited}
use async_event_loop.Client.{first_address, request, client_hints, talk, client_main}

first_address-some :
    (before after : List AddrInfo) (info : AddrInfo)
    → All (λ i. i.ai_family ≢ af_inet) before
    → info.ai_family ≡ af_inet
    → first_address (before ++ (info ∷ after)) ≡ some info
unfolding first_address
first_address-some [] after info h e = grind int_tests
first_address-some (i ∷ before) after info h e =
    ground (arith, int_eqb_iff i.ai_family af_inet, first_address-some before after info h.1 e, h.0)

module _ (k : Kernel) where
  -- What one `send` of the request on the socket `d` in the state `s` has put on its stream.
  abbrev pub Took : ℤ → k.State → Sent × k.State → Type 0
  Took d s (sent n, s') =
      (n ≤ length request) × (k.outgoing s' d ≡ k.outgoing s d ++ take n request)
  Took d s (send_error errno, s') = k.outgoing s' d ≡ k.outgoing s d

module _ (k : Kernel) (laws : SendLaws k) where
  send-Took :
      (d : ℤ) (s : k.State) (r : Sent)
      → (k.send d request s).0 ≡ r
      → Took k d s (r, (k.send d request s).1)
  send-Took d s (sent n) e = laws.send_takes d request s n e
  send-Took d s (send_error x) e = laws.send_fails d request s x e

  talk-cases :
      (info : AddrInfo) (s : k.State)
      → let (sockfd, s1) = k.socket info.ai_family info.ai_socktype info.ai_protocol s in
        let (connected, s2) = k.connect sockfd info.ai_addr s1 in
        ((ok (talk k info s) ≡ ok (exited 1, s1)) × (failed sockfd ≡ true))
        ⊎ ((ok (talk k info s) ≡ ok (exited 1, s2))
            × (failed sockfd ≡ false)
            × (failed connected ≡ true))
        ⊎ ((ok (talk k info s) ≡ ok (returned (pos 0), (k.send sockfd request s2).1))
            × (failed sockfd ≡ false)
            × (failed connected ≡ false)
            × Took k sockfd s2 (k.send sockfd request s2))
  unfolding talk
  talk-cases info s = elim (Bool-cases (failed opened.0)) [
    | inl unopened ↦ inl (rw (unopened, talk), unopened)
    | inr open_ok ↦ elim (Bool-cases (failed linked.0)) [
      | inl unlinked ↦ inr (inl (rw (open_ok, unlinked, talk), open_ok, unlinked))
      | inr linked_ok ↦ inr (
          inr
            (rw (open_ok, linked_ok, talk), open_ok, linked_ok, send-Took opened.0 linked.1 _ refl))
    ]
  ]
    where
      opened : ℤ × k.State
      opened = k.socket info.ai_family info.ai_socktype info.ai_protocol s

      linked : ℤ × k.State
      linked = k.connect opened.0 info.ai_addr opened.1

  -- Where an address of IPv4 is found, the client takes the first. It exits with 1 without a further
  -- call if it gets no socket for that address or no connection to it; if it gets both it calls `send`
  -- once on the socket and returns 0. The socket's stream then ends in as many bytes of the request as
  -- `send` says, and in none if it fails: a short `send` is not repeated, and a failed one is not
  -- reported.
  pub client_sends :
      (program address port : Bytes) (rest : List Bytes) (s : k.State)
      (before after : List AddrInfo) (info : AddrInfo)
      → (k.getaddrinfo (some address) port client_hints s).0 ≡ (pos 0, before ++ (info ∷ after))
      → All (λ i. i.ai_family ≢ af_inet) before
      → info.ai_family ≡ af_inet
      → let (sockfd, s1) =
          k.socket info.ai_family info.ai_socktype info.ai_protocol
            (k.getaddrinfo (some address) port client_hints s).1 in
        let (connected, s2) = k.connect sockfd info.ai_addr s1 in
        ((client_main k (program ∷ address ∷ port ∷ rest) s ≡ ok (exited 1, s1))
          × (failed sockfd ≡ true))
        ⊎ ((client_main k (program ∷ address ∷ port ∷ rest) s ≡ ok (exited 1, s2))
            × (failed sockfd ≡ false)
            × (failed connected ≡ true))
        ⊎ ((client_main k (program ∷ address ∷ port ∷ rest) s
              ≡ ok (returned (pos 0), (k.send sockfd request s2).1))
            × (failed sockfd ≡ false)
            × (failed connected ≡ false)
            × Took k sockfd s2 (k.send sockfd request s2))
  unfolding client_main talk
  client_sends program address port rest s before after info e h i =
      rw (e, first_address-some before after info h i, client_main)
        (talk-cases info (k.getaddrinfo (some address) port client_hints s).1)
