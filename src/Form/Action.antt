-- ===== src/Form/Action.antt =====
-- A method of an object that calls into the cat: it may raise, and what it wrote stays written.
use mathlib.Core.Path.{subst, sym}
use cat_forked.Prelude.{◌≡◌, refl, Option, none, some}

pub record Turn (S W : Type 0) : Type 0 where
  pub self : S
  pub cat : W

-- `none` is an exception.
abbrev pub Act : Type 0 → Type 0 → Type 0 → Type 0
Act S W A = Turn S W → Option A × Turn S W

module _ {S W A : Type 0} where
  abbrev pub pure : A → Act S W A
  pure a t = (some a, t)

  abbrev pub raise : Act S W A
  raise t = (none, t)

  abbrev pub gets : (S → A) → Act S W A
  gets f t = (some (f t.self), t)

  -- A call that changes only the cat.
  abbrev pub world : (W → Option A × W) → Act S W A
  world call t = let (r, w) = call t.cat in (r, record t { cat = w })

module _ {S W : Type 0} where
  abbrev pub modify : (S → S) → Act S W (Unit {0})
  modify f t = (some tt, record t { self = f t.self })

  infixl 5 ◌>>=◌ ◌>>◌
  abbrev pub ◌>>=◌ : {A B : Type 0} → Act S W A → (A → Act S W B) → Act S W B
  ◌>>=◌ m f t = let (r, t') = m t in elim r [ none ↦ (none, t') | some a ↦ f a t' ]

  abbrev pub ◌>>◌ : {A B : Type 0} → Act S W A → Act S W B → Act S W B
  m >> n = m >>= λ _. n

module _ {S W A B : Type 0} where
  bind_outcome :
      (out : Option A × Turn S W) (f : A → Act S W B) (P : Option B × Turn S W → Type 0)
      → (out.0 ≡ none → P (none, out.1))
      → ((a : A) → out.0 ≡ some a → P (f a out.1))
      → P (elim out.0 [ none ↦ (none, out.1) | some a ↦ f a out.1 ])
  bind_outcome (none, t) f P stop go = stop refl
  bind_outcome (some a, t) f P stop go = go a refl

  -- What holds after a first step that raised, and after each second step, holds after both.
  pub bind_rule :
      (m : Act S W A) (f : A → Act S W B) (t : Turn S W) (P : Option B × Turn S W → Type 0)
      → ((m t).0 ≡ none → P (none, (m t).1))
      → ((a : A) → (m t).0 ≡ some a → P (f a (m t).1))
      → P ((m >>= f) t)
  bind_rule m f t P stop go = bind_outcome (m t) f P stop go

  abbrev pub after_outcome : Option A × Turn S W → (A → Act S W B) → Option B × Turn S W
  after_outcome out f = elim out.0 [ none ↦ (none, out.1) | some a ↦ f a out.1 ]

  after_outcome-cong :
      (out : Option A × Turn S W) (f g : A → Act S W B)
      → ((a : A) (t : Turn S W) → f a t ≡ g a t)
      → after_outcome out f ≡ after_outcome out g
  after_outcome-cong (none, t) f g h = refl
  after_outcome-cong (some a, t) f g h = h a t

  after_outcome-some :
      (out : Option A × Turn S W) (f : A → Act S W B) (a : A)
      → out.0 ≡ some a
      → after_outcome out f ≡ f a out.1
  after_outcome-some (r, t) f a h = rw h refl

  -- After a first step that gives `a`.
  pub bind-some :
      (m : Act S W A) (f : A → Act S W B) (t : Turn S W) (a : A)
      → (m t).0 ≡ some a
      → (m >>= f) t ≡ f a (m t).1
  bind-some m f t a h = after_outcome-some (m t) f a h

  -- What holds after the second step holds after both.
  pub bind_known :
      (m : Act S W A) (f : A → Act S W B) (t : Turn S W) (a : A) (Q : Option B × Turn S W → Type 0)
      → (m t).0 ≡ some a
      → Q (f a (m t).1)
      → Q ((m >>= f) t)
  bind_known m f t a Q h q = subst Q (sym (bind-some m f t a h)) q

  pub bind-cong :
      (m : Act S W A) (f g : A → Act S W B)
      → ((a : A) (t : Turn S W) → f a t ≡ g a t)
      → (t : Turn S W) → (m >>= f) t ≡ (m >>= g) t
  bind-cong m f g h t = after_outcome-cong (m t) f g h

module _ {S W A B C : Type 0} where
  abbrev then_all : Option A × Turn S W → (A → Act S W B) → (B → Act S W C) → Option C × Turn S W
  then_all out f k = after_outcome (after_outcome out f) k

  then_all_assoc :
      (out : Option A × Turn S W) (f : A → Act S W B) (k : B → Act S W C)
      → then_all out f k ≡ after_outcome out (λ a. f a >>= k)
  then_all_assoc (none, t) f k = refl
  then_all_assoc (some a, t) f k = refl

  pub bind_assoc :
      (m : Act S W A) (f : A → Act S W B) (k : B → Act S W C) (t : Turn S W)
      → ((m >>= f) >>= k) t ≡ (m >>= λ a. f a >>= k) t
  bind_assoc m f k t = then_all_assoc (m t) f k
