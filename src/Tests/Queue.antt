-- ===== src/Tests/Queue.antt =====
-- A priority queue of events as a list that is searched for its first greatest element.
use mathlib.Core.List.{Perm, Mem, mem-cons, not-mem-nil}
use mathlib.Core.List.Perm
use mathlib.Core.Logic.Or
use native.Mathlib.Bridge.{le_prop}
use async_event_loop.Base.{
  ◌≤◌, ◌≡◌, refl, ◌⊎◌, inl, inr, Bool-cases, false, Option, none, some, List, [], ◌∷◌, arith, ltb,
  ltb→lt, if◌then◌else◌,
}
use async_event_loop.Reactor.{Entry, EventQueue, rank, pq_comparator}

abbrev pub pick : Entry → Entry × List Entry → List Entry → Entry × List Entry
pick x (m, rest) xs = if ltb (rank m.0) (rank x.0) then (m, x ∷ rest) else (x, xs)

abbrev pub extract : Entry → List Entry → Entry × List Entry
extract x [] = (x, [])
extract x (y ∷ ys) = pick x (extract y ys) (y ∷ ys)

abbrev Extracts : List Entry → Entry × List Entry → Type 0
Extracts xs r = Perm xs (r.0 ∷ r.1) × ((d : Entry) → Mem d xs → rank r.0.0 ≤ rank d.0)

pick-Extracts :
    (x : Entry) (xs : List Entry) (r : Entry × List Entry)
    → Extracts xs r
    → Extracts (x ∷ xs) (pick x r xs)
pick-Extracts x xs (m, rest) (p, best) = elim (Bool-cases (ltb (rank m.0) (rank x.0))) [
  | inl less ↦ rw less (
    Perm.trans (Perm.cons x p) (Perm.swap m x rest),
    λ d i.
        Or.elim le_prop (mem-cons.0 i)
          (λ e. rw e (omega (arith, ltb→lt (rank m.0) (rank x.0) less))) (best d),
  )
  | inr not_less ↦ rw not_less (
    Perm.refl (x ∷ xs),
    λ d i. Or.elim le_prop (mem-cons.0 i) (λ e. rw e (omega arith)) (λ j. least d j not_less),
  )
]
  where
    least : (d : Entry) → Mem d xs → ltb (rank m.0) (rank x.0) ≡ false → rank x.0 ≤ rank d.0
    least d j e = ground (arith, best d j)

extract-Extracts : (x : Entry) (xs : List Entry) → Extracts (x ∷ xs) (extract x xs)
extract-Extracts x [] = (
  Perm.refl (x ∷ []),
  λ d i. Or.elim le_prop (mem-cons.0 i) (λ e. rw e (omega arith)) (λ j. absurd (not-mem-nil j)),
)
extract-Extracts x (y ∷ ys) = pick-Extracts x (y ∷ ys) (extract y ys) (extract-Extracts y ys)

abbrev pub list_top : List Entry → Option Entry
list_top [] = none
list_top (x ∷ xs) = some (extract x xs).0

abbrev pub list_pop : List Entry → List Entry
list_pop [] = []
list_pop (x ∷ xs) = (extract x xs).1

not_greater : (e d : Entry) → rank e.0 ≤ rank d.0 → pq_comparator e d ≡ false
unfolding pq_comparator
not_greater e d h = ground arith

pub list_top-cases :
    (q : List Entry)
    → ((q ≡ []) × (list_top q ≡ none))
      ⊎ ((e : Entry) × (list_top q ≡ some e)
          × Perm q (e ∷ list_pop q)
          × ((d : Entry) → Mem d q → pq_comparator e d ≡ false))
list_top-cases [] = inl (refl, refl)
list_top-cases (x ∷ xs) =
    let found : Extracts (x ∷ xs) (extract x xs) = extract-Extracts x xs in
    inr ((extract x xs).0, refl, found.0, λ d m. not_greater (extract x xs).0 d (found.1 d m))

abbrev pub list_queue : EventQueue
list_queue = record {
  Queue = List Entry;
  items = λ q. q;
  new = [];
  push = λ q e. e ∷ q;
  top = list_top;
  pop = list_pop;
  items-new = refl;
  items-push = λ q e. Perm.refl (e ∷ q);
  top-cases = list_top-cases;
}
