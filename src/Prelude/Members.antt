-- ===== src/Prelude/Members.antt =====
-- Where an element stands in a sorted list, in a slice, and in a dictionary.
use Prim.Native.Nat.{ℕ, zero, suc}
use Prim.Native.String.{String}
use mathlib.Core.Path.{◌≡◌, ap}
use mathlib.Core.Logic.{◌⊎◌, inl, inr}
use mathlib.Core.Bool.{Bool, true, false}
use mathlib.Core.Option.{some}
use mathlib.Core.List.{List, [], ◌∷◌}
use native.Mathlib.Omega.{arith}
use text.Mathlib.Text.{◌==◌}
use text.Mathlib.TextEquality.{eq_iff}
use cat_forked.Prelude.Tests.{==_refl}
use cat_forked.Prelude.Lists.{In, take, drop}
use cat_forked.Prelude.Dicts.{Dict, lookup, contains, erase}
use cat_forked.Prelude.Sort.{insert_sorted, sort_by, AllAfter, IsSorted}

module _ {A : Type 0} where
  pub In-take-drop : (a : A) (n : ℕ) (xs : List A) → In a xs → In a (take n xs) ⊎ In a (drop n xs)
  In-take-drop a zero xs m = inr m
  In-take-drop a (suc n) [] m = absurd m
  In-take-drop a (suc n) (x ∷ xs) (inl e) = inl (inl e)
  In-take-drop a (suc n) (x ∷ xs) (inr m) = elim (In-take-drop a n xs m) [
    | inl early ↦ inl (inr early)
    | inr late ↦ inr late
  ]

module _ {A : Type 0} (le : A → A → Bool) where
  In-insert_sorted : (a x : A) (l : List A) → In a (insert_sorted le x l) → In a (x ∷ l)
  In-insert_sorted a x [] m = m
  In-insert_sorted a x (y ∷ ys) m = ground (arith, In-insert_sorted a x ys)

  pub In-sort_by : (a : A) (l : List A) → In a (sort_by le l) → In a l
  In-sort_by a [] m = m
  In-sort_by a (x ∷ xs) m = ground (arith, In-insert_sorted a x (sort_by le xs) m, In-sort_by a xs)

  insert_sorted-In : (a x : A) (l : List A) → In a (x ∷ l) → In a (insert_sorted le x l)
  insert_sorted-In a x [] m = m
  insert_sorted-In a x (y ∷ ys) m = ground (arith, insert_sorted-In a x ys)

  pub sort_by-In : (a : A) (l : List A) → In a l → In a (sort_by le l)
  sort_by-In a [] m = m
  sort_by-In a (x ∷ xs) m = ground (arith, insert_sorted-In a x (sort_by le xs), sort_by-In a xs)

  AllAfter-In : (x a : A) (l : List A) → AllAfter le x l → In a l → le x a ≡ true
  AllAfter-In x a [] h m = absurd m
  AllAfter-In x a (y ∷ ys) h (inl e) = rw e h.0
  AllAfter-In x a (y ∷ ys) h (inr m) = AllAfter-In x a ys h.1 m

  In-drop : (a : A) (n : ℕ) (xs : List A) → In a (drop n xs) → In a xs
  In-drop a zero xs m = m
  In-drop a (suc n) [] m = m
  In-drop a (suc n) (x ∷ xs) m = inr (In-drop a n xs m)

  -- In a sorted list what a slice takes may precede what it leaves.
  pub IsSorted-take-drop :
      (n : ℕ) (l : List A) (a b : A)
      → IsSorted le l
      → In a (take n l)
      → In b (drop n l)
      → le a b ≡ true
  IsSorted-take-drop zero l a b s m k = absurd m
  IsSorted-take-drop (suc n) [] a b s m k = absurd m
  IsSorted-take-drop (suc n) (x ∷ xs) a b s (inl e) k =
      rw e (AllAfter-In x b xs s.0 (In-drop b n xs k))
  IsSorted-take-drop (suc n) (x ∷ xs) a b s (inr m) k = IsSorted-take-drop n xs a b s.1 m k

module _ {V : Type 0} where
  pub In-contains : (p : String × V) (d : Dict V) → In p d → contains p.0 d ≡ true
  In-contains p [] m = absurd m
  In-contains p ((j, w) ∷ d) (inl e) = rw (ap (λ (q : String × V). q.0) e, ==_refl)
  In-contains p ((j, w) ∷ d) (inr m) = ground (arith, In-contains p d m)

  -- What is left after a deletion was there before, under another key.
  pub In-erase :
      (k : String) (p : String × V) (d : Dict V) → In p (erase k d) → In p d × ((k == p.0) ≡ false)
  In-erase k p [] m = absurd m
  In-erase k p ((j, w) ∷ d) m = ground (arith, In-erase k p d, eq_iff j k, eq_iff k p.0)

  -- No key stands twice, as in every Python dictionary.
  abbrev pub HasUniqueKeys : Dict V → Type 0
  HasUniqueKeys [] = Unit
  HasUniqueKeys ((k, v) ∷ d) = (contains k d ≡ false) × HasUniqueKeys d

  pub In-lookup :
      (k : String) (v : V) (d : Dict V) → HasUniqueKeys d → In (k, v) d → lookup k d ≡ some v
  In-lookup k v [] u m = absurd m
  In-lookup k v ((j, w) ∷ d) u m =
      ground (arith, In-lookup k v d u.1, In-contains (k, v) d, eq_iff j k)
