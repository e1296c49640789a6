-- ===== src/UnorderedMap.antt =====
-- `std::unordered_map`, as far as the program uses it: an association list. Lookup, assignment,
-- erasure and size do not depend on the order of the entries; iteration is not modelled here.
use async_event_loop.Base.{
  ◌+◌, ◌<◌, length, ◌≡◌, refl, false, Option, none, some, List, [], ◌∷◌, ◌++◌, arith, Eq,
  if◌then◌else◌,
}

abbrev pub UnorderedMap {ℓ κ} : Type ℓ → Type κ → Type (ℓ ⊔ κ)
UnorderedMap K V = List (K × V)

module _ {ℓ κ} {K : Type ℓ} {V : Type κ} ⦃e : Eq K⦄ where
  -- `find(key)`, with `none` for `end()`
  unfoldable pub find : K → UnorderedMap K V → Option V
  find k [] = none
  find k ((j, v) ∷ m) = if e.beq j k then some v else find k m

  -- `map_[key] = val`
  unfoldable pub assign : K → V → UnorderedMap K V → UnorderedMap K V
  assign k v [] = (k, v) ∷ []
  assign k v ((j, w) ∷ m) = if e.beq j k then (j, v) ∷ m else (j, w) ∷ assign k v m

  -- `erase(find(key))`
  unfoldable pub erase : K → UnorderedMap K V → UnorderedMap K V
  erase k [] = []
  erase k ((j, w) ∷ m) = if e.beq j k then m else (j, w) ∷ erase k m

  -- No key has two entries.
  abbrev pub HasUniqueKeys : UnorderedMap K V → Type κ
  HasUniqueKeys [] = Unit
  HasUniqueKeys ((j, v) ∷ m) = (find j m ≡ none) × HasUniqueKeys m

  pub find-assign :
      (k j : K) (v : V) (m : UnorderedMap K V)
      → find j (assign k v m) ≡ (if e.beq k j then some v else find j m)
  unfolding find assign
  find-assign k j v [] = refl
  find-assign k j v ((i, w) ∷ m) =
      ground (arith, e.beq_iff i k, e.beq_iff i j, e.beq_iff k j, find-assign k j v m)

  pub find-erase_ne :
      (k j : K) (m : UnorderedMap K V) → e.beq k j ≡ false → find j (erase k m) ≡ find j m
  unfolding find erase
  find-erase_ne k j [] h = refl
  find-erase_ne k j ((i, w) ∷ m) h =
      ground (arith, e.beq_iff i k, e.beq_iff i j, e.beq_iff k j, find-erase_ne k j m)

  pub find-erase_self : (k : K) (m : UnorderedMap K V) → HasUniqueKeys m → find k (erase k m) ≡ none
  unfolding find erase
  find-erase_self k [] h = refl
  find-erase_self k ((i, w) ∷ m) h = ground (arith, e.beq_iff i k, find-erase_self k m)

  pub assign-HasUniqueKeys :
      (k : K) (v : V) (m : UnorderedMap K V) → HasUniqueKeys m → HasUniqueKeys (assign k v m)
  unfolding find assign
  assign-HasUniqueKeys k v [] h = (refl, tt)
  assign-HasUniqueKeys k v ((i, w) ∷ m) h =
      ground
        (arith, e.beq_iff i k, e.beq_iff k i, find-assign k i v m, assign-HasUniqueKeys k v m h.1)

  pub erase-HasUniqueKeys :
      (k : K) (m : UnorderedMap K V) → HasUniqueKeys m → HasUniqueKeys (erase k m)
  unfolding find erase
  erase-HasUniqueKeys k [] h = tt
  erase-HasUniqueKeys k ((i, w) ∷ m) h =
      ground (arith, e.beq_iff i k, e.beq_iff k i, find-erase_ne k i m, erase-HasUniqueKeys k m h.1)

  -- An assignment adds an entry exactly if the key had none.
  pub length-assign :
      (k : K) (v : V) (m : UnorderedMap K V)
      → length (assign k v m) ≡ elim (find k m) [ none ↦ length m + 1 | some _ ↦ length m ]
  unfolding find assign
  length-assign k v [] = omega arith
  length-assign k v ((i, w) ∷ m) = ground (arith, length-assign k v m)

  -- An erasure removes one entry exactly if the key had one.
  pub length-erase :
      (k : K) (m : UnorderedMap K V)
      → length (erase k m) + elim (find k m) [ none ↦ 0 | some _ ↦ 1 ] ≡ length m
  unfolding find erase
  length-erase k [] = omega arith
  length-erase k ((i, w) ∷ m) = ground (arith, length-erase k m)

  pub find-nonempty : (k : K) (m : UnorderedMap K V) {v : V} → find k m ≡ some v → 0 < length m
  unfolding find
  find-nonempty k [] h = cc
  find-nonempty k (x ∷ m) h = omega arith

  -- A new entry behind the others.
  pub find-append :
      (k j : K) (v : V) (m : UnorderedMap K V)
      → find k m ≡ none
      → find j (m ++ ((k, v) ∷ [])) ≡ (if e.beq k j then some v else find j m)
  unfolding find
  find-append k j v [] h = refl
  find-append k j v ((i, w) ∷ m) h =
      ground (arith, e.beq_iff i k, e.beq_iff i j, e.beq_iff k j, find-append k j v m)

-- For goals on what is found, and how much there is, after an assignment or an erasure.
pub ruleset lookups = (arith, find-assign, find-erase_ne, length-assign, length-erase)
