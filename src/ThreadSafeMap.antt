-- ===== src/ThreadSafeMap.antt =====
-- include/thread_safe_map.h: `class ThreadSafeMap`, a hash map behind a `std::shared_mutex`.
-- Every method holds the lock from its first line to its return, so that a call is one atomic step
-- on `map_`; the lock itself is the standard library's and has no state here.
pub mod Refinement
use async_event_loop.Base.{
  ℤ, ◌≡◌, refl, Bool, true, false, not, Option, none, some, List, [], arith, Eq, length, to_int,
  if◌then◌else◌,
}
use async_event_loop.UnorderedMap.{UnorderedMap, find, assign, erase, HasUniqueKeys}

pub record ThreadSafeMap {ℓ κ} (K : Type ℓ) (V : Type κ) : Type (ℓ ⊔ κ) where
  pub map_ : UnorderedMap K V

abbrev pub empty_map {ℓ κ} : {K : Type ℓ} {V : Type κ} → ThreadSafeMap K V
empty_map = record { map_ = [] }

module _ {ℓ κ} {K : Type ℓ} {V : Type κ} ⦃e : Eq K⦄ where
  unfoldable pub insert : K → V → ThreadSafeMap K V → ThreadSafeMap K V
  insert key val m = record { map_ = assign key val m.map_ }

  -- The result of the method, and the map after it.
  unfoldable pub remove : K → ThreadSafeMap K V → Bool × ThreadSafeMap K V
  remove key m = elim (find key m.map_) [
    | some _ ↦ (true, record { map_ = erase key m.map_ })
    | none ↦ (false, m)
  ]

  -- The result of the method, and the argument `value` after it: on a missing key it keeps what the
  -- caller put there.
  unfoldable pub get : K → V → ThreadSafeMap K V → Bool × V
  get key value m = elim (find key m.map_) [ some v ↦ (true, v) | none ↦ (false, value) ]

  -- `get` into a variable that the caller does not read where the result is false.
  unfoldable pub get? : K → ThreadSafeMap K V → Option V
  get? key m = find key m.map_

-- `int getSize()`, which converts a `size_t`
unfoldable pub get_size {ℓ κ} : {K : Type ℓ} {V : Type κ} → ThreadSafeMap K V → ℤ
get_size m = to_int (length m.map_)
