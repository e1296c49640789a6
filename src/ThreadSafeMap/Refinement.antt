-- ===== src/ThreadSafeMap/Refinement.antt =====
-- include/thread_safe_map.h against a partial function from keys to values.
use async_event_loop.Base.{
  is_some, value_or, pos, ◌+◌, ◌-◌, ◌<◌, ◌^◌, ◌≡◌, refl, ap, Bool, Option, none, some, List, [],
  ◌∷◌, arith, Eq, length, if◌then◌else◌,
}
use async_event_loop.UnorderedMap.{
  lookups, find, HasUniqueKeys, find-assign, find-erase_ne, find-erase_self, assign-HasUniqueKeys,
  erase-HasUniqueKeys,
}
use async_event_loop.ThreadSafeMap.{ThreadSafeMap, empty_map, insert, remove, get, get_size}

-- A call of a method, and what its caller sees.
pub data Call {ℓ κ} (K : Type ℓ) (V : Type κ) : Type (ℓ ⊔ κ) where
  inserts : K → V → Call K V
  removes : K → Call K V
  gets : K → V → Call K V

pub data Reply {κ} (V : Type κ) : Type κ where
  done : Reply V
  removed : Bool → Reply V
  got : Bool → V → Reply V

module _ {ℓ κ} {K : Type ℓ} {V : Type κ} ⦃e : Eq K⦄ where
  -- The calls in the order in which they get the lock.
  pub run : List (Call K V) → ThreadSafeMap K V → List (Reply V)
  run [] m = []
  run (inserts k v ∷ cs) m = done ∷ run cs (insert k v m)
  run (removes k ∷ cs) m = let (b, m') = remove k m in removed b ∷ run cs m'
  run (gets k d ∷ cs) m = let (b, v) = get k d m in got b v ∷ run cs m

  -- The specification: a partial function, with no representation.
  pub spec : List (Call K V) → (K → Option V) → List (Reply V)
  spec [] f = []
  spec (inserts k v ∷ cs) f = done ∷ spec cs (λ j. if e.beq k j then some v else f j)
  spec (removes k ∷ cs) f = removed (is_some (f k)) ∷ spec cs (λ j. if e.beq k j then none else f j)
  spec (gets k d ∷ cs) f = got (is_some (f k)) (value_or (f k) d) ∷ spec cs f

  abbrev Represents : ThreadSafeMap K V → (K → Option V) → Type (ℓ ⊔ κ)
  Represents m f = HasUniqueKeys m.map_ × ((k : K) → find k m.map_ ≡ f k)

  insert-Represents :
      (k : K) (v : V) (m : ThreadSafeMap K V) (f : K → Option V)
      → Represents m f
      → Represents (insert k v m) (λ j. if e.beq k j then some v else f j)
  unfolding insert
  insert-Represents k v m f r =
      (assign-HasUniqueKeys k v m.map_ r.0, λ j. ground (arith, find-assign k j v m.map_, r.1 j))

  remove-Represents :
      (k : K) (m : ThreadSafeMap K V) (f : K → Option V)
      → Represents m f
      → Represents (remove k m).1 (λ j. if e.beq k j then none else f j)
  unfolding remove
  remove-Represents k m f r = (
    ground (arith, erase-HasUniqueKeys k m.map_ r.0),
    λ j. ground (
      arith,
      e.beq_iff k j,
      find-erase_ne k j m.map_,
      find-erase_self k m.map_ r.0,
      r.1 j,
      r.1 k,
    ),
  )

  removed-is_some : (k : K) (m : ThreadSafeMap K V) → (remove k m).0 ≡ is_some (find k m.map_)
  unfolding remove
  removed-is_some k m = ground arith

  get_lem :
      (k : K) (d : V) (m : ThreadSafeMap K V)
      → get k d m ≡ (is_some (find k m.map_), value_or (find k m.map_) d)
  unfolding get
  get_lem k d m = ground arith

  run-eq-spec :
      (cs : List (Call K V)) (m : ThreadSafeMap K V) (f : K → Option V)
      → Represents m f
      → run cs m ≡ spec cs f
  unfolding run spec
  run-eq-spec [] m f r = refl
  run-eq-spec (inserts k v ∷ cs) m f r =
      ap (◌∷◌ done) (run-eq-spec cs (insert k v m) _ (insert-Represents k v m f r))
  run-eq-spec (removes k ∷ cs) m f r = ground (
    arith,
    r.1 k,
    removed-is_some k m,
    run-eq-spec cs (remove k m).1 _ (remove-Represents k m f r),
  )
  run-eq-spec (gets k d ∷ cs) m f r = ground (arith, r.1 k, get_lem k d m, run-eq-spec cs m f r)

-- For every sequence of calls, in the order in which they hold the lock, the callers see what they
-- would see of a partial function from keys to values that starts out empty.
pub run-refines-spec {ℓ κ} :
    {K : Type ℓ} {V : Type κ} ⦃e : Eq K⦄ (cs : List (Call K V))
    → run cs empty_map ≡ spec cs (λ _. none)
unfolding find
run-refines-spec cs = run-eq-spec cs empty_map (λ _. none) (tt, λ k. refl)

-- `getSize` is the number of entries, as long as that is below 2^31 - 1: an insertion of a new key
-- raises it by one and one of an old key leaves it, a removal of a key that is there lowers it by one
-- and one of another key leaves it.
pub get_size_counts {ℓ κ} :
    {K : Type ℓ} {V : Type κ} ⦃e : Eq K⦄ (k : K) (v : V) (m : ThreadSafeMap K V)
    → length m.map_ + 1 < 2 ^ 31
    → (get_size m ≡ pos (length m.map_))
      × (get_size (insert k v m)
          ≡ (if is_some (find k m.map_) then get_size m else pos (length m.map_ + 1)))
      × (get_size (remove k m).1
          ≡ (if is_some (find k m.map_) then pos (length m.map_ - 1) else get_size m))
unfolding get_size insert remove
get_size_counts k v m h = grind lookups
