-- ===== src/Heap.antt =====
-- Objects made by `new` and freed by `delete`: a pointer is an index, a freed object leaves `none`
-- behind, and a pointer is never given out twice. (An allocator may reuse the address of a freed
-- object; a use of the old pointer is undefined behaviour all the same.)
use async_event_loop.Base.{
  ap, sym, ℕ, zero, suc, ◌≡◌, ◌≢◌, ◌<◌, refl, Option, none, some, List, [], ◌∷◌, ◌++◌, arith,
  length,
}

abbrev pub Heap {ℓ} : Type ℓ → Type ℓ
Heap A = List (Option A)

module _ {ℓ} {A : Type ℓ} where
  -- The object, or `none` if it was freed or never made.
  unfoldable pub object : ℕ → Heap A → Option A
  object p [] = none
  object zero (o ∷ os) = o
  object (suc p) (o ∷ os) = object p os

  unfoldable pub put : ℕ → Option A → Heap A → Heap A
  put p v [] = []
  put zero v (o ∷ os) = v ∷ os
  put (suc p) v (o ∷ os) = o ∷ put p v os

  pub object-put_self :
      (p : ℕ) (v : Option A) (h : Heap A) {a : A} → object p h ≡ some a → object p (put p v h) ≡ v
  unfolding object put
  object-put_self p v [] e = cc
  object-put_self zero v (o ∷ os) e = refl
  object-put_self (suc p) v (o ∷ os) e = object-put_self p v os e

  pub object-put_ne :
      (p q : ℕ) (v : Option A) (h : Heap A) → p ≢ q → object q (put p v h) ≡ object q h
  unfolding object put
  object-put_ne p q v [] n = refl
  object-put_ne zero zero v (o ∷ os) n = absurd (n refl)
  object-put_ne zero (suc q) v (o ∷ os) n = refl
  object-put_ne (suc p) zero v (o ∷ os) n = refl
  object-put_ne (suc p) (suc q) v (o ∷ os) n = object-put_ne p q v os (omega arith)

  pub object-new : (a : A) (h : Heap A) → object (length h) (h ++ (some a ∷ [])) ≡ some a
  unfolding object
  object-new a [] = refl
  object-new a (o ∷ os) = object-new a os

  pub object-old :
      (p : ℕ) (a : A) (h : Heap A) {b : A}
      → object p h ≡ some b
      → object p (h ++ (some a ∷ [])) ≡ some b
  unfolding object
  object-old p a [] e = cc
  object-old zero a (o ∷ os) e = e
  object-old (suc p) a (o ∷ os) e = object-old p a os e

module _ {ℓ} {A : Type ℓ} where
  pub put_same : (p : ℕ) (a : A) (h : Heap A) → object p h ≡ some a → put p (some a) h ≡ h
  unfolding object put
  put_same p a [] e = refl
  put_same zero a (o ∷ os) e = ap (λ v. v ∷ os) (sym e)
  put_same (suc p) a (o ∷ os) e = ap (◌∷◌ o) (put_same p a os e)

  pub put-put : (p : ℕ) (v v' : Option A) (h : Heap A) → put p v' (put p v h) ≡ put p v' h
  unfolding put
  put-put p v v' [] = refl
  put-put zero v v' (o ∷ os) = refl
  put-put (suc p) v v' (o ∷ os) = ap (◌∷◌ o) (put-put p v v' os)

  pub object-bound : (p : ℕ) (h : Heap A) {a : A} → object p h ≡ some a → p < length h
  unfolding object
  object-bound p [] e = cc
  object-bound zero (o ∷ os) e = omega arith
  object-bound (suc p) (o ∷ os) e = omega (arith, object-bound p os e)

  pub length-put : (p : ℕ) (v : Option A) (h : Heap A) → length (put p v h) ≡ length h
  unfolding put
  length-put p v [] = refl
  length-put zero v (o ∷ os) = refl
  length-put (suc p) v (o ∷ os) = ap suc (length-put p v os)

  pub object-append : (p : ℕ) (h t : Heap A) → p < length h → object p (h ++ t) ≡ object p h
  unfolding object
  object-append p [] t l = absurd (omega arith)
  object-append zero (o ∷ os) t l = refl
  object-append (suc p) (o ∷ os) t l = object-append p os t (omega arith)
