-- ===== src/Application/Serving.antt =====
-- src/server.cpp over include/reactor.h and include/connection_types.h: where an event may lead.
pub mod Steps
use async_event_loop.Base.{
  int_tests, int_eq, int_eqb, int_eqb_iff, ℕ, ℤ, ◌≤◌, ◌≡◌, ◌⊎◌, refl, pos, true, sym, ap, ◌∙◌, inl,
  inr, Bool-cases, false, none, some, [], ◌∷◌, ◌++◌, Bytes, arith, ◌==◌, length,
}
use mathlib.Core.Path.{subst}
use async_event_loop.UnorderedMap.{find, HasUniqueKeys}
use async_event_loop.ThreadSafeMap.{insert}
use async_event_loop.Heap.{object, put, object-put_self, object-put_ne, object-old}
use async_event_loop.Kernel.{Kernel, InterestLaws}
use async_event_loop.Reactor.Capacity.{HasDescriptors}
use async_event_loop.SocketUtilities.{close_connection}
use async_event_loop.Reactor.Capacity.{HasDescriptors}
use async_event_loop.SocketUtilities.Interest.{Watches}
use async_event_loop.Http.{Headers, new_request}
use async_event_loop.Http.Response.{response_bytes}
use async_event_loop.Reactor.{EventPriority, finish_track}
use async_event_loop.Connection.{Parser, Conn, World, Callback, accepting, handling, store}
use async_event_loop.Application.{Handler, on_request, response_of}

-- The bytes of the response, which is the same to every request.
abbrev pub answer : (Headers → Headers) → Bytes
answer order = response_bytes order (response_of new_request)

module _ (k : Kernel) (ps : Parser) (order : Headers → Headers) where
  -- The send buffer is empty, or it holds the response, of which no more is counted as sent than there
  -- is.
  abbrev pub Fits : Conn k ps Handler → Type 0
  Fits c =
      ((c.send_buffer ≡ []) × (c.sent_bytes ≡ 0))
      ⊎ ((c.send_buffer ≡ answer order) × (c.sent_bytes ≤ length (answer order)))

  pub Fits-le : (c : Conn k ps Handler) → Fits c → c.sent_bytes ≤ length c.send_buffer
  Fits-le c (inl (empty, zero)) = omega arith
  Fits-le c (inr (full, le)) = rw full le

  -- A connection on the descriptor `d` that gives its requests to the application.
  abbrev pub Owns : ℤ → Conn k ps Handler → Type 0
  Owns d c = (c.socket ≡ d) × (c.cb ≡ on_request) × Fits c

  -- `p` points to a connection that is live, on the descriptor `d`.
  abbrev pub Live : ℕ → ℤ → World k ps Handler → Type 0
  Live p d w = (c : Conn k ps Handler) × (object p w.app ≡ some c) × Owns d c

  -- Where a closure of the descriptor leads: to new clients, or to its own connection.
  abbrev pub Leads : ℤ → Callback Handler → World k ps Handler → Type 0
  Leads d (accepting cb err) w = cb ≡ on_request
  Leads d (handling p success error) w = Live p d w

  -- The descriptor has a closure that leads somewhere.
  abbrev pub IsServed : ℤ → World k ps Handler → Type 0
  IsServed d w = (cb : Callback Handler) × (find d w.event_callback_.map_ ≡ some cb) × Leads d cb w

  pub Leads-map :
      (d : ℤ) (cb : Callback Handler) (w w' : World k ps Handler)
      → ((p : ℕ) → Live p d w → Live p d w')
      → Leads d cb w
      → Leads d cb w'
  Leads-map d (accepting cb err) w w' f l = l
  Leads-map d (handling p success error) w w' f l = f p l

  -- Another system, other connections or both, and the same closures.
  pub IsServed-map :
      (d : ℤ) (w w' : World k ps Handler)
      → w'.event_callback_ ≡ w.event_callback_
      → ((p : ℕ) → Live p d w → Live p d w')
      → IsServed d w
      → IsServed d w'
  IsServed-map d w w' same f (cb, found, l) =
      (cb, ap (λ m. find d m.map_) same ∙ found, Leads-map d cb w w' f l)

  -- Another connection in the place of one.
  pub store-Live :
      (p q : ℕ) (d : ℤ) (c c' : Conn k ps Handler) (w : World k ps Handler)
      → object p w.app ≡ some c
      → (Owns d c → Owns d c')
      → Live q d w
      → Live q d (store k ps p c' w)
  unfolding store
  store-Live p q d c c' w o own (b, ob, ow) = elim (Bool-cases (p == q)) [
    | inl eq ↦
        let e : p ≡ q = ground arith in
        let bc : some b ≡ some c = sym ob ∙ rw (← e) o in
        let b_eq : b ≡ c = cc in
        (c', rw (← e) (object-put_self p (some c') w.app o), own (subst (λ x. Owns d x) b_eq ow))
    | inr ne ↦ (b, object-put_ne p q (some c') w.app (ground arith) ∙ ob, ow)
  ]

  pub delete-Live :
      (p q : ℕ) (d : ℤ) (c : Conn k ps Handler) (w : World k ps Handler) (s' : k.State)
      → object p w.app ≡ some c
      → int_eqb c.socket d ≡ false
      → Live q d w
      → Live q d (record w { kernel = s'; app = put p none w.app })
  delete-Live p q d c w s' o other (b, ob, (on, cb, fits)) = elim (Bool-cases (p == q)) [
    | inl eq ↦
        let e : p ≡ q = ground arith in
        let bc : some b ≡ some c = sym ob ∙ rw (← e) o in
        let b_eq : b ≡ c = cc in
        let on_c : c.socket ≡ d = rw (← b_eq) on in absurd (grind int_tests)
    | inr ne ↦ (b, object-put_ne p q none w.app (ground arith) ∙ ob, (on, cb, fits))
  ]

module _ (k : Kernel) (ps : Parser) (order : Headers → Headers) (laws : InterestLaws k)
    (least : ℕ) where
  -- Every descriptor that epoll watches is served, and so is every descriptor that is due: that of an
  -- event that waits in the queue. The map of the closures has one entry for a descriptor, no entry for
  -- what is not one, and `least` entries at least.
  pub record Serves (due : ℤ → Type 0) (w : World k ps Handler) : Type 0 where
    pub watched :
        (d : ℤ) (mask : ℕ) → k.interest w.kernel w.epollfd_ d ≡ some mask → IsServed k ps order d w
    pub queued : (d : ℤ) → due d → IsServed k ps order d w
    pub unique : HasUniqueKeys w.event_callback_.map_
    pub descriptors : HasDescriptors laws.limit w.event_callback_.map_
    pub enough : least ≤ length w.event_callback_.map_

  -- The server is in order while no event waits in the queue.
  abbrev pub IsServing : World k ps Handler → Type 0
  IsServing w = Serves (λ d. ⊥) w
