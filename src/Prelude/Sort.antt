-- ===== src/Prelude/Sort.antt =====
-- Python's stable sort, for a test `le x y` that says whether `x` may stand before `y`.
use Prim.Native.Nat.{suc}
use mathlib.Core.Path.{◌≡◌, refl}
use mathlib.Core.Logic.{inl, inr}
use mathlib.Core.Bool.{Bool, true, false}
use mathlib.Core.List.{List, [], ◌∷◌, Perm}
use mathlib.Core.List.Perm
use native.Mathlib.Omega.{arith}
use cat_forked.Prelude.Tests.{if◌then◌else◌, Bool-cases}
use cat_forked.Prelude.Lists.{length, filter_by}

module _ {ℓ} {A : Type ℓ} (le : A → A → Bool) where
  -- `x` goes before the first element that it may precede, so equal elements keep their order.
  abbrev pub insert_sorted : A → List A → List A
  insert_sorted x [] = x ∷ []
  insert_sorted x (y ∷ ys) = if le x y then x ∷ y ∷ ys else y ∷ insert_sorted x ys

  abbrev pub sort_by : List A → List A
  sort_by [] = []
  sort_by (x ∷ xs) = insert_sorted x (sort_by xs)

  abbrev pub AllAfter : A → List A → Type 0
  AllAfter x [] = Unit
  AllAfter x (y ∷ ys) = (le x y ≡ true) × AllAfter x ys

  -- Every element may precede all that come later.
  abbrev pub IsSorted : List A → Type 0
  IsSorted [] = Unit
  IsSorted (x ∷ xs) = AllAfter x xs × IsSorted xs

  pub insert_sorted-perm : (x : A) (l : List A) → Perm (insert_sorted x l) (x ∷ l)
  insert_sorted-perm x [] = Perm.refl (x ∷ [])
  insert_sorted-perm x (y ∷ ys) = elim (Bool-cases (le x y)) [
    | inl h ↦ rw h (Perm.refl (x ∷ y ∷ ys))
    | inr h ↦ rw h (Perm.trans (Perm.cons y (insert_sorted-perm x ys)) (Perm.swap x y ys))
  ]

  pub sort_by-perm : (l : List A) → Perm (sort_by l) l
  sort_by-perm [] = Perm.refl []
  sort_by-perm (x ∷ xs) =
      Perm.trans (insert_sorted-perm x (sort_by xs)) (Perm.cons x (sort_by-perm xs))

  pub length-insert_sorted : (x : A) (l : List A) → length (insert_sorted x l) ≡ suc (length l)
  length-insert_sorted x [] = refl
  length-insert_sorted x (y ∷ ys) = ground (arith, length-insert_sorted x ys)

  pub length-sort_by : (l : List A) → length (sort_by l) ≡ length l
  length-sort_by [] = refl
  length-sort_by (x ∷ xs) = omega (arith, length-insert_sorted x (sort_by xs), length-sort_by xs)

  module _ (total : (x y : A) → le x y ≡ false → le y x ≡ true)
      (trans : (x y z : A) → le x y ≡ true → le y z ≡ true → le x z ≡ true) where
    AllAfter-trans : (x y : A) (l : List A) → le x y ≡ true → AllAfter y l → AllAfter x l
    AllAfter-trans x y [] h a = tt
    AllAfter-trans x y (z ∷ zs) h a = (trans x y z h a.0, AllAfter-trans x y zs h a.1)

    AllAfter-insert_sorted :
        (y x : A) (l : List A) → le y x ≡ true → AllAfter y l → AllAfter y (insert_sorted x l)
    AllAfter-insert_sorted y x [] h a = (h, tt)
    AllAfter-insert_sorted y x (z ∷ zs) h a = elim (Bool-cases (le x z)) [
      | inl e ↦ rw e (h, a)
      | inr e ↦ rw e (a.0, AllAfter-insert_sorted y x zs h a.1)
    ]

    insert_sorted-IsSorted : (x : A) (l : List A) → IsSorted l → IsSorted (insert_sorted x l)
    insert_sorted-IsSorted x [] s = (tt, tt)
    insert_sorted-IsSorted x (y ∷ ys) s = elim (Bool-cases (le x y)) [
      | inl e ↦ rw e ((e, AllAfter-trans x y ys e s.0), s)
      | inr e ↦
          rw e (AllAfter-insert_sorted y x ys (total x y e) s.0, insert_sorted-IsSorted x ys s.1)
    ]

    pub sort_by-IsSorted : (l : List A) → IsSorted (sort_by l)
    sort_by-IsSorted [] = tt
    sort_by-IsSorted (x ∷ xs) = insert_sorted-IsSorted x (sort_by xs) (sort_by-IsSorted xs)

  -- Stability: the elements that pass a test keep their order, where the test says of any two
  -- that pass that the earlier may stay before the later.
  filter_by-insert_sorted :
      (p : A → Bool) (keeps : (x y : A) → p x ≡ true → p y ≡ true → le x y ≡ true) (x : A)
      (l : List A)
      → filter_by p (insert_sorted x l) ≡ filter_by p (x ∷ l)
  filter_by-insert_sorted p keeps x [] = refl
  filter_by-insert_sorted p keeps x (y ∷ ys) =
      ground (arith, keeps x y, filter_by-insert_sorted p keeps x ys)

  pub filter_by-sort_by :
      (p : A → Bool) (keeps : (x y : A) → p x ≡ true → p y ≡ true → le x y ≡ true) (l : List A)
      → filter_by p (sort_by l) ≡ filter_by p l
  filter_by-sort_by p keeps [] = refl
  filter_by-sort_by p keeps (x ∷ xs) =
      ground (arith, filter_by-insert_sorted p keeps x (sort_by xs), filter_by-sort_by p keeps xs)
