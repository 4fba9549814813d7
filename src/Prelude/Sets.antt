-- ===== src/Prelude/Sets.antt =====
-- Python's `set` of identifiers, as the lists that it is built from: `in`, `issubset`,
-- `isdisjoint` and `len(set(xs)) == len(xs)`.
use mathlib.Core.Path.{◌≡◌, refl}
use mathlib.Core.Bool.{Bool, true, false, not, ◌&&◌, ◌||◌}
use mathlib.Core.List.{List, [], ◌∷◌, ◌++◌}
use native.Mathlib.Omega.{arith}
use mtbank_ai_call_analytics.Prelude.Tests.{Eq, ◌==◌, beq_refl}

module _ {ℓ} {A : Type ℓ} ⦃e : Eq A⦄ where
  -- a in xs
  unfoldable pub contains : List A → A → Bool
  contains [] a = false
  contains (x ∷ xs) a = (a == x) || contains xs a

  -- set(xs).issubset(ys)
  unfoldable pub subset : List A → List A → Bool
  subset [] ys = true
  subset (x ∷ xs) ys = contains ys x && subset xs ys

  -- set(xs).isdisjoint(ys)
  unfoldable pub disjoint : List A → List A → Bool
  disjoint [] ys = true
  disjoint (x ∷ xs) ys = not (contains ys x) && disjoint xs ys

  -- len(set(xs)) == len(xs)
  unfoldable pub is_unique : List A → Bool
  is_unique [] = true
  is_unique (x ∷ xs) = not (contains xs x) && is_unique xs

  pub contains-append :
      (xs ys : List A) (a : A) → contains (xs ++ ys) a ≡ (contains xs a || contains ys a)
  unfolding contains
  contains-append [] ys a = refl
  contains-append (x ∷ xs) ys a = ground (arith, contains-append xs ys a)

  pub contains_of_subset :
      (xs ys : List A) (a : A) → subset xs ys ≡ true → contains xs a ≡ true → contains ys a ≡ true
  unfolding contains subset
  contains_of_subset [] ys a s m = cc
  contains_of_subset (x ∷ xs) ys a s m = ground (arith, contains_of_subset xs ys a, e.beq_iff a x)

  pub subset-append : (xs ys zs : List A) → subset (xs ++ ys) zs ≡ (subset xs zs && subset ys zs)
  unfolding subset
  subset-append [] ys zs = refl
  subset-append (x ∷ xs) ys zs = ground (arith, subset-append xs ys zs)

  pub subset_both :
      (xs ys zs : List A) → subset xs zs ≡ true → subset ys zs ≡ true → subset (xs ++ ys) zs ≡ true
  subset_both xs ys zs p q = ground (arith, subset-append xs ys zs)

  pub subset_trans :
      (xs ys zs : List A) → subset xs ys ≡ true → subset ys zs ≡ true → subset xs zs ≡ true
  unfolding subset
  subset_trans [] ys zs p q = refl
  subset_trans (x ∷ xs) ys zs p q =
      ground (arith, contains_of_subset ys zs x, subset_trans xs ys zs)

  pub contains_self : (x : A) (xs : List A) → contains (x ∷ xs) x ≡ true
  unfolding contains
  contains_self x xs = ground (arith, beq_refl x)

  pub subset_weaken : (xs ys : List A) (y : A) → subset xs ys ≡ true → subset xs (y ∷ ys) ≡ true
  unfolding subset contains
  subset_weaken [] ys y h = refl
  subset_weaken (x ∷ xs) ys y h = ground (arith, subset_weaken xs ys y)

  pub subset_refl : (xs : List A) → subset xs xs ≡ true
  unfolding subset
  subset_refl [] = refl
  subset_refl (x ∷ xs) = ground (arith, contains_self x xs, subset_weaken xs xs x (subset_refl xs))

  pub is_unique-append :
      (xs ys : List A)
      → is_unique xs ≡ true
      → is_unique ys ≡ true
      → disjoint xs ys ≡ true
      → is_unique (xs ++ ys) ≡ true
  unfolding is_unique disjoint
  is_unique-append [] ys u v d = v
  is_unique-append (x ∷ xs) ys u v d =
      ground (arith, contains-append xs ys x, is_unique-append xs ys)
