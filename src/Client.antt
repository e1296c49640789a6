-- ===== src/Client.antt =====
-- src/client.cpp: a client that connects to the first address of IPv4 and sends one request.
pub mod Sending
use async_event_loop.Base.{
  int_eqb, ℤ, pos, failed, ◌≡◌, Option, none, some, List, [], ◌∷◌, ◌++◌, Bytes, if◌then◌else◌,
}
use async_event_loop.Outcome.{Outcome, ok, fault, null_dereference}
use async_event_loop.Kernel.{Kernel, AddrInfo, Hints}
use async_event_loop.Kernel.Flags.{af_unspec, af_inet, sock_stream}
use async_event_loop.Http.Response.{crlf}
use async_event_loop.Application.{bytes}
use async_event_loop.Standalone.{Ended, returned, exited}

-- The loop over the addresses, which breaks at the first of IPv4; `none` is its end.
unfoldable pub first_address : List AddrInfo → Option AddrInfo
first_address [] = none
first_address (info ∷ rest) =
    if int_eqb info.ai_family af_inet then some info else first_address rest

abbrev pub request : Bytes
request = bytes "GET / HTTP/1.1" ++ crlf ++ crlf

abbrev pub client_hints : Hints
client_hints = record { hint_family = af_unspec; hint_socktype = sock_stream; hint_flags = pos 0 }

module _ (k : Kernel) where
  -- From `socket` to `send`, whose result is only printed.
  unfoldable pub talk : AddrInfo → k.State → Ended × k.State
  talk info s =
      let (sockfd, s1) = k.socket info.ai_family info.ai_socktype info.ai_protocol s in
      if failed sockfd
      then (exited 1, s1)
      else (let (connected, s2) = k.connect sockfd info.ai_addr s1 in
          if failed connected
          then (exited 1, s2)
          else (returned (pos 0), (k.send sockfd request s2).1))

  -- `main` on the arguments of the program. The members of the address are read even where the loop
  -- has found none.
  unfoldable pub client_main : List Bytes → k.State → Outcome (Ended × k.State)
  client_main (program ∷ address ∷ port ∷ rest) s =
      let ((status, servlist), s1) = k.getaddrinfo (some address) port client_hints s in
      if int_eqb status (pos 0)
      then (elim (first_address servlist) [
        | none ↦ fault null_dereference
        | some info ↦ ok (talk info s1)
      ])
      else ok (exited 1, s1)
  client_main (program ∷ address ∷ []) s = ok (exited 1, s)
  client_main (program ∷ []) s = ok (exited 1, s)
  client_main [] s = ok (exited 1, s)
