-- ===== src/Tests/Bystanding.antt =====
-- A client of which nothing is reported, at a concrete input.
use mathlib.Core.List.{mem-singleton}
use async_event_loop.Base.{
  int_eq, int_eqb_iff, ℤ, pos, ◌≡◌, ◌⊎◌, inl, inr, refl, none, some, [], ◌∷◌, arith, length, sym,
}
use async_event_loop.UnorderedMap.{find}
use async_event_loop.Outcome.{Safe}
use async_event_loop.Heap.{object}
use async_event_loop.Kernel.{received, IsDescriptor}
use async_event_loop.Kernel.Flags.{epollin}
use async_event_loop.Reactor.{new_sock, enqueue, drain}
use async_event_loop.Reactor.Loop.{woken}
use async_event_loop.Connection.{Conn, World, handling}
use async_event_loop.Server.{run_closure}
use async_event_loop.Application.{clients, Handler, on_request, on_client_error}
use async_event_loop.Application.Serving.{IsServing, IsServed}
use async_event_loop.Application.Bystanders.{drain-Fine}
use async_event_loop.Tests.Queue.{list_queue}
use async_event_loop.Tests.Simulation.{sim, start, update}
use async_event_loop.Tests.Simulation.Laws.{
  sim_epoll, sim_interest, sim_interest_lem, sim_sending, sim_streams, sim_waiting,
}
use async_event_loop.Tests.Service.{whole, same_order, client, readable}

abbrev bystander : Conn sim whole Handler
bystander = record client { socket = pos 7 }

-- The client on the descriptor 6 has sent something, and that on 7 has not.
abbrev crowded : World sim whole Handler
crowded = record {
  kernel = record start {
    inbox = received 65 [] ∷ [];
    watching = update (update (λ d. none) (pos 6) (some epollin)) (pos 7) (some epollin);
    waits = (readable ∷ []) ∷ [];
  };
  epollfd_ = pos 4;
  max_events_ = 10;
  event_callback_ = record {
    map_ =
        (pos 6, handling 1 on_request on_client_error)
        ∷ (pos 7, handling 0 on_request on_client_error)
        ∷ [];
  };
  event_priority_ = record { map_ = (pos 6, new_sock) ∷ (pos 7, new_sock) ∷ [] };
  app = some bystander ∷ some client ∷ [];
}

crowded-IsServing : IsServing sim whole same_order sim_interest 1 crowded
unfolding find object
crowded-IsServing = record {
  watched = λ d mask e. served d (ground (arith, int_eqb_iff (pos 6) d, int_eqb_iff (pos 7) d));
  queued = λ d x. absurd x;
  unique = (refl, (refl, tt));
  descriptors = λ d cb f. known d (ground (arith, int_eqb_iff (pos 6) d, int_eqb_iff (pos 7) d));
  enough = omega arith;
}
  where
    served : (d : ℤ) → (pos 6 ≡ d) ⊎ (pos 7 ≡ d) → IsServed sim whole same_order d crowded
    served d (inl e) = rw (← e) (
      handling 1 on_request on_client_error,
      refl,
      (client, refl, (refl, refl, inl (refl, refl))),
    )
    served d (inr e) = rw (← e) (
      handling 0 on_request on_client_error,
      refl,
      (bystander, refl, (refl, refl, inl (refl, refl))),
    )

    known : (d : ℤ) → (pos 6 ≡ d) ⊎ (pos 7 ≡ d) → IsDescriptor sim_interest.limit d
    known d (inl e) = (6, sym e, omega (arith, sim_interest_lem))
    known d (inr e) = (7, sym e, omega (arith, sim_interest_lem))

ℤ-set : IsSet ℤ
ℤ-set = hlevel

drain-Fine_example :
    let run = run_closure sim whole (clients sim whole same_order 3) in
    let woke = woken sim list_queue run crowded in
    let filled = enqueue sim list_queue run woke (readable ∷ []) [] in
    Safe
      (λ done.
        IsServing sim whole same_order sim_interest 1 done.1
        × (object 0 done.1.app ≡ some bystander))
      (drain sim list_queue run (length filled) filled woke)
unfolding object
drain-Fine_example =
    drain-Fine sim sim_epoll sim_interest sim_sending sim_streams whole same_order list_queue
      (λ s bs. refl) 3 sim_waiting 0 bystander [] crowded (readable ∷ []) refl crowded-IsServing
      refl refl (λ m. apart ((mem-singleton ℤ-set).0 m))
  where
    apart : pos 7 ≡ pos 6 → ⊥
    apart e = cc
