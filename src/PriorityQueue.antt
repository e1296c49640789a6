-- ===== src/PriorityQueue.antt =====
-- `std::priority_queue<E, std::vector<E>, Compare>` as an interface, with what its documentation
-- says of it. Which of several greatest elements `top` shows is left open.
use async_event_loop.Base.{◌≡◌, ◌⊎◌, Bool, false, List, [], ◌∷◌, Option, none, some}
use mathlib.Core.List.{Perm, Mem}

pub record PriorityQueue (E : Type 0) (compare : E → E → Bool) : Type 1 where
  pub Queue : Type 0
  -- the elements, in the order in which the container holds them
  pub items : Queue → List E
  pub new : Queue
  pub push : Queue → E → Queue
  -- `top()`, with `none` on an empty queue
  pub top : Queue → Option E
  pub pop : Queue → Queue
  pub items-new : items new ≡ []
  pub items-push : (q : Queue) (e : E) → Perm (items (push q e)) (e ∷ items q)
  -- `top` is an element that compares less than no other, and `pop` removes it.
  pub top-cases :
      (q : Queue)
      → ((items q ≡ []) × (top q ≡ none))
        ⊎ ((e : E) × (top q ≡ some e)
            × Perm (items q) (e ∷ items (pop q))
            × ((d : E) → Mem d (items q) → compare e d ≡ false))
