-- ===== src/Reactor/Capacity.antt =====
-- include/reactor.h and include/thread_safe_map.h: how many entries a map of descriptors has.
use mathlib.Core.Path.{subst}
use async_event_loop.Base.{
  int_tests, int_eq, int_eqb, int_eqb_iff, ℕ, zero, suc, ℤ, pos, ◌<◌, ◌≤◌, ◌≡◌, inl, inr,
  Bool-cases, some, [], ◌∷◌, arith, length, ◌^◌, false, none, sym, ◌∙◌,
}
use async_event_loop.UnorderedMap.{
  lookups, UnorderedMap, find, erase, HasUniqueKeys, find-erase_self, erase-HasUniqueKeys,
}
use async_event_loop.ThreadSafeMap.{ThreadSafeMap, get_size}
use async_event_loop.Kernel.{IsDescriptor}

lower :
    (limit : ℕ) (d : ℤ)
    → IsDescriptor (suc limit) d
    → int_eqb (pos limit) d ≡ false
    → IsDescriptor limit d
lower limit d (n, e, less) other =
    let apart : int_eqb (pos limit) (pos n) ≡ false =
      subst (λ x. int_eqb (pos limit) x ≡ false) e other in
    (n, e, ground arith)

module _ {κ} {V : Type κ} where
  -- Every key is a descriptor below the limit.
  abbrev pub HasDescriptors : ℕ → UnorderedMap ℤ V → Type κ
  HasDescriptors limit m = (d : ℤ) (v : V) → find d m ≡ some v → IsDescriptor limit d

  erase-HasDescriptors :
      (limit : ℕ) (m : UnorderedMap ℤ V)
      → HasUniqueKeys m
      → HasDescriptors (suc limit) m
      → HasDescriptors limit (erase (pos limit) m)
  erase-HasDescriptors limit m unique h d v f = elim (Bool-cases (int_eqb (pos limit) d)) [
    | inl same ↦
        let e : pos limit ≡ d = (int_eqb_iff (pos limit) d).0 same in
        let gone : find d (erase (pos limit) m) ≡ none =
          rw (← e) (find-erase_self (pos limit) m unique) in
        let c : none ≡ some v = sym gone ∙ f in cc
    | inr other ↦ lower limit d (h d v (grind lookups)) other
  ]

  -- There are no more entries than descriptors.
  pub length-HasDescriptors :
      (limit : ℕ) (m : UnorderedMap ℤ V)
      → HasUniqueKeys m
      → HasDescriptors limit m
      → length m ≤ limit
  unfolding find
  length-HasDescriptors limit [] unique h = omega arith
  length-HasDescriptors zero ((d, v) ∷ m) unique h =
      let (n, _, less) = h d v (grind int_tests) in omega arith
  length-HasDescriptors (suc limit) ((d, v) ∷ m) unique h =
      let fewer =
        length-HasDescriptors limit (erase (pos limit) ((d, v) ∷ m))
          (erase-HasUniqueKeys (pos limit) ((d, v) ∷ m) unique)
          (erase-HasDescriptors limit ((d, v) ∷ m) unique h) in
      grind lookups

  pub get_size_bound :
      (limit : ℕ) (m : ThreadSafeMap ℤ V)
      → limit < 2 ^ 31
      → HasUniqueKeys m.map_
      → HasDescriptors limit m.map_
      → (get_size m ≡ pos (length m.map_)) × (length m.map_ ≤ limit)
  unfolding get_size
  get_size_bound limit m small unique h =
      let fits = length-HasDescriptors limit m.map_ unique h in (ground (arith, fits), fits)
