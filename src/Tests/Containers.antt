-- ===== src/Tests/Containers.antt =====
-- The theorems on maps at concrete inputs.
use async_event_loop.Base.{
  is_some, ℕ, ℤ, pos, int_eq, ◌≡◌, none, List, [], ◌∷◌, arith, if◌then◌else◌,
}
use async_event_loop.UnorderedMap.{find}
use async_event_loop.ThreadSafeMap.{ThreadSafeMap, empty_map, insert, remove, get_size}
use async_event_loop.ThreadSafeMap.Refinement.{
  Call, inserts, removes, gets, run, spec, run-refines-spec, get_size_counts,
}

abbrev script : List (Call ℤ ℕ)
script =
    inserts (pos 4) 10
    ∷ inserts (pos 5) 11
    ∷ inserts (pos 4) 12
    ∷ gets (pos 4) 0
    ∷ removes (pos 4)
    ∷ removes (pos 4)
    ∷ gets (pos 4) 7
    ∷ []

run-refines-spec_example : run script empty_map ≡ spec script (λ _. none)
run-refines-spec_example = run-refines-spec script

abbrev one_key : ThreadSafeMap ℤ ℕ
one_key = record { map_ = (pos 4, 10) ∷ [] }

get_size_counts_example :
    (get_size one_key ≡ pos 1)
    × (get_size (insert (pos 4) 3 one_key)
        ≡ (if is_some (find (pos 4) one_key.map_) then get_size one_key else pos 2))
    × (get_size (remove (pos 4) one_key).1
        ≡ (if is_some (find (pos 4) one_key.map_) then pos 0 else get_size one_key))
get_size_counts_example = get_size_counts (pos 4) 3 one_key (omega arith)
