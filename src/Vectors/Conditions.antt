-- ===== src/Vectors/Conditions.antt =====
-- core/cat/memory/vector_memory_collection.py: what a filter asks for. `Leaf key value c` says that a
-- walk from the key through the value ends at the condition `c`.
use cat_forked.Prelude.{
  ℕ, ◌+◌, String, Bool, true, false, ◌||◌, ◌≡◌, refl, sym, ap, ◌∙◌, length, length-append,
  if◌then◌else◌, Option, none, ◌⊎◌, inl, inr, ◌↔◌, some, List, [], ◌∷◌, ◌++◌, In, lookup, arith,
  eq_iff, ◌==◌, Bool-cases,
}
use mathlib.Core.Path.{subst}
use cat_forked.Vectors.{
  Scalar, Value, scalar, dict, list, Values, nil, cons, Fields, end, field, Metadata, Condition,
  condition, matched, extended, text, number, boolean, null, element_key, build_condition,
  build_fields, build_values, build_all,
}
use cat_forked.Vectors.Keys.{under, elements}

pub data HasField : String → Value → Fields → Type 0 where
  first_field : (k : String) (v : Value) (fs : Fields) → HasField k v (field k v fs)
  later_field :
      {k : String} {v : Value} (k' : String) (v' : Value) {fs : Fields}
      → HasField k v fs
      → HasField k v (field k' v' fs)

pub data HasElement : Value → Values → Type 0 where
  first_element : (v : Value) (vs : Values) → HasElement v (cons v vs)
  later_element :
      {v : Value} (v' : Value) {vs : Values} → HasElement v vs → HasElement v (cons v' vs)

abbrev pub is_dict : Value → Bool
is_dict (dict fs) = true
is_dict _ = false

pub data Leaf : String → Value → Condition → Type 0 where
  at_scalar : (key : String) (s : Scalar) → Leaf key (scalar s) (condition key s)
  in_dict :
      {key k : String} {v : Value} {fs : Fields} {c : Condition}
      → HasField k v fs
      → Leaf (under key k) v c
      → Leaf key (dict fs) c
  in_list :
      {key : String} {v : Value} {vs : Values} {c : Condition}
      → HasElement v vs
      → is_dict v ≡ false
      → Leaf key v c
      → Leaf key (list vs) c
  in_list_of_dicts :
      {key : String} {fs : Fields} {vs : Values} {c : Condition}
      → HasElement (dict fs) vs
      → Leaf (elements key) (dict fs) c
      → Leaf key (list vs) c

-- Where the walk goes on from an element of a list.
in_list_at :
    {key : String} {vs : Values} {c : Condition} (v : Value)
    → HasElement v vs
    → Leaf (element_key key v) v c
    → Leaf key (list vs) c
in_list_at (scalar s) there leaf = in_list there refl leaf
in_list_at (list ws) there leaf = in_list there refl leaf
in_list_at (dict fs) there leaf = in_list_of_dicts there leaf

element_key-plain : (key : String) (v : Value) → is_dict v ≡ false → element_key key v ≡ key
element_key-plain key (scalar s) h = refl
element_key-plain key (list vs) h = refl
element_key-plain key (dict fs) h = absurd (ground arith)

module _ {A : Type 0} where
  pub In-append : (a : A) (xs ys : List A) → In a (xs ++ ys) → In a xs ⊎ In a ys
  In-append a [] ys m = inr m
  In-append a (x ∷ xs) ys (inl e) = inl (inl e)
  In-append a (x ∷ xs) ys (inr m) = elim (In-append a xs ys m) [
    | inl l ↦ inl (inr l)
    | inr r ↦ inr r
  ]

  In-left : (a : A) (xs ys : List A) → In a xs → In a (xs ++ ys)
  In-left a [] ys m = absurd m
  In-left a (x ∷ xs) ys (inl e) = inl e
  In-left a (x ∷ xs) ys (inr m) = inr (In-left a xs ys m)

  In-right : (a : A) (xs ys : List A) → In a ys → In a (xs ++ ys)
  In-right a [] ys m = m
  In-right a (x ∷ xs) ys m = inr (In-right a xs ys m)

-- The conditions without the exceptions.
unfoldable mutual
  conditions_of : String → Value → List Condition
  conditions_of key (scalar value) = condition key value ∷ []
  conditions_of key (dict fields) = conditions_of_fields key fields
  conditions_of key (list values) = conditions_of_values key values

  conditions_of_fields : String → Fields → List Condition
  conditions_of_fields key end = []
  conditions_of_fields key (field k value later) =
      conditions_of (under key k) value ++ conditions_of_fields key later

  conditions_of_values : String → Values → List Condition
  conditions_of_values key nil = []
  conditions_of_values key (cons value later) =
      conditions_of (element_key key value) value ++ conditions_of_values key later

mutual
  unfolding conditions_of

  Leaf-of : (key : String) (v : Value) (c : Condition) → In c (conditions_of key v) → Leaf key v c
  Leaf-of key (scalar s) c (inl e) =
      subst (λ (d : Condition). Leaf key (scalar s) d) (sym e) (at_scalar key s)
  Leaf-of key (scalar s) c (inr m) = absurd m
  Leaf-of key (dict fs) c m = let (k, v, there, leaf) = HasField-of key fs c m in in_dict there leaf
  Leaf-of key (list vs) c m =
      let (v, there, leaf) = HasElement-of key vs c m in in_list_at v there leaf

  HasField-of :
      (key : String) (fs : Fields) (c : Condition)
      → In c (conditions_of_fields key fs)
      → (k : String) × (v : Value) × HasField k v fs × Leaf (under key k) v c
  HasField-of key end c m = absurd m
  HasField-of key (field k v fs) c m =
      elim (In-append c (conditions_of (under key k) v) (conditions_of_fields key fs) m) [
        | inl l ↦ (k, v, first_field k v fs, Leaf-of (under key k) v c l)
        | inr r ↦
            let (j, w, there, leaf) = HasField-of key fs c r in (j, w, later_field k v there, leaf)
      ]

  HasElement-of :
      (key : String) (vs : Values) (c : Condition)
      → In c (conditions_of_values key vs)
      → (v : Value) × HasElement v vs × Leaf (element_key key v) v c
  HasElement-of key nil c m = absurd m
  HasElement-of key (cons v vs) c m =
      elim (In-append c (conditions_of (element_key key v) v) (conditions_of_values key vs) m) [
        | inl l ↦ (v, first_element v vs, Leaf-of (element_key key v) v c l)
        | inr r ↦
            let (w, there, leaf) = HasElement-of key vs c r in (w, later_element v there, leaf)
      ]

In-fields :
    {k : String} {v : Value} {fs : Fields} (key : String) (c : Condition)
    → HasField k v fs
    → In c (conditions_of (under key k) v)
    → In c (conditions_of_fields key fs)
unfolding conditions_of
In-fields key c (first_field k v fs) m =
    In-left c (conditions_of (under key k) v) (conditions_of_fields key fs) m
In-fields key c (later_field k v {fs} there) m =
    In-right c (conditions_of (under key k) v) (conditions_of_fields key fs)
      (In-fields key c there m)

In-values :
    {v : Value} {vs : Values} (key : String) (c : Condition)
    → HasElement v vs
    → In c (conditions_of (element_key key v) v)
    → In c (conditions_of_values key vs)
unfolding conditions_of
In-values key c (first_element v vs) m =
    In-left c (conditions_of (element_key key v) v) (conditions_of_values key vs) m
In-values key c (later_element v {vs} there) m =
    In-right c (conditions_of (element_key key v) v) (conditions_of_values key vs)
      (In-values key c there m)

built : {key : String} {v : Value} {c : Condition} → Leaf key v c → In c (conditions_of key v)
unfolding conditions_of
built (at_scalar key s) = inl refl
built (in_dict {key = key} {c = c} there leaf) = In-fields key c there (built leaf)
built (in_list {key = key} {v = v} {c = c} there plain leaf) =
    In-values key c there (rw (element_key-plain key v plain) (built leaf))
built (in_list_of_dicts {key = key} {c = c} there leaf) = In-values key c there (built leaf)

-- How many texts, numbers, Booleans and nulls a value has, however deep, and whether one of them is a null,
-- which stands for a float too.
abbrev is_null : Scalar → Bool
is_null null = true
is_null (text s) = false
is_null (number n) = false
is_null (boolean b) = false

unfoldable mutual
  pub leaves : Value → ℕ
  leaves (scalar s) = 1
  leaves (dict fs) = leaves_of_fields fs
  leaves (list vs) = leaves_of_values vs

  leaves_of_fields : Fields → ℕ
  leaves_of_fields end = 0
  leaves_of_fields (field k v fs) = leaves v + leaves_of_fields fs

  leaves_of_values : Values → ℕ
  leaves_of_values nil = 0
  leaves_of_values (cons v vs) = leaves v + leaves_of_values vs

unfoldable mutual
  pub has_null : Value → Bool
  has_null (scalar s) = is_null s
  has_null (dict fs) = has_null_field fs
  has_null (list vs) = has_null_element vs

  has_null_field : Fields → Bool
  has_null_field end = false
  has_null_field (field k v fs) = has_null v || has_null_field fs

  has_null_element : Values → Bool
  has_null_element nil = false
  has_null_element (cons v vs) = has_null v || has_null_element vs

mutual
  unfolding leaves conditions_of

  length-conditions_of : (key : String) (v : Value) → length (conditions_of key v) ≡ leaves v
  length-conditions_of key (scalar s) = refl
  length-conditions_of key (dict fs) = length-conditions_of_fields key fs
  length-conditions_of key (list vs) = length-conditions_of_values key vs

  length-conditions_of_fields :
      (key : String) (fs : Fields) → length (conditions_of_fields key fs) ≡ leaves_of_fields fs
  length-conditions_of_fields key end = refl
  length-conditions_of_fields key (field k v fs) =
      let e = length-append (conditions_of (under key k) v) (conditions_of_fields key fs) in
      let e₁ = length-conditions_of (under key k) v in
      let e₂ = length-conditions_of_fields key fs in omega arith

  length-conditions_of_values :
      (key : String) (vs : Values) → length (conditions_of_values key vs) ≡ leaves_of_values vs
  length-conditions_of_values key nil = refl
  length-conditions_of_values key (cons v vs) =
      let e = length-append (conditions_of (element_key key v) v) (conditions_of_values key vs) in
      let e₁ = length-conditions_of (element_key key v) v in
      let e₂ = length-conditions_of_values key vs in omega arith

-- What is built where nothing raises.
abbrev unless : Bool → List Condition → Option (List Condition)
unless raises cs = if raises then none else some cs

extended-unless :
    (a b : Bool) (xs ys : List Condition)
    → extended (unless a xs) (unless b ys) ≡ unless (a || b) (xs ++ ys)
extended-unless true b xs ys = refl
extended-unless false true xs ys = refl
extended-unless false false xs ys = refl

matched-unless :
    (key : String) (s : Scalar) → matched key s ≡ unless (is_null s) (condition key s ∷ [])
matched-unless key null = refl
matched-unless key (text s) = refl
matched-unless key (number n) = refl
matched-unless key (boolean b) = refl

mutual
  unfolding build_condition conditions_of has_null

  build_condition-eq :
      (key : String) (v : Value) → build_condition key v ≡ unless (has_null v) (conditions_of key v)
  build_condition-eq key (scalar s) = matched-unless key s
  build_condition-eq key (dict fs) = build_fields-eq key fs
  build_condition-eq key (list vs) = build_values-eq key vs

  build_fields-eq :
      (key : String) (fs : Fields)
      → build_fields key fs ≡ unless (has_null_field fs) (conditions_of_fields key fs)
  build_fields-eq key end = refl
  build_fields-eq key (field k v fs) =
      ap (λ (o : Option (List Condition)). extended o (build_fields key fs))
        (build_condition-eq (under key k) v)
      ∙ ap
          (λ (o : Option (List Condition)).
            extended (unless (has_null v) (conditions_of (under key k) v)) o)
          (build_fields-eq key fs)
      ∙ extended-unless (has_null v) (has_null_field fs) (conditions_of (under key k) v)
          (conditions_of_fields key fs)

  build_values-eq :
      (key : String) (vs : Values)
      → build_values key vs ≡ unless (has_null_element vs) (conditions_of_values key vs)
  build_values-eq key nil = refl
  build_values-eq key (cons v vs) =
      ap (λ (o : Option (List Condition)). extended o (build_values key vs))
        (build_condition-eq (element_key key v) v)
      ∙ ap
          (λ (o : Option (List Condition)).
            extended (unless (has_null v) (conditions_of (element_key key v) v)) o)
          (build_values-eq key vs)
      ∙ extended-unless (has_null v) (has_null_element vs) (conditions_of (element_key key v) v)
          (conditions_of_values key vs)

-- What is built for a value under a key, with regard to a condition.
abbrev pub IsBuilt : String → Value → Condition → Option (List Condition) → Type 0
IsBuilt key v c none = has_null v ≡ true
IsBuilt key v c (some cs) = (has_null v ≡ false) × (length cs ≡ leaves v) × (In c cs ↔ Leaf key v c)

-- The building of conditions raises exactly where a null or a float stands in the value. Otherwise it gives as
-- many conditions as the value has texts, numbers and Booleans, however deep, and a condition is among
-- them exactly where a walk through the value ends at it: each stands under the key that names its place.
pub build_condition-IsBuilt :
    (key : String) (v : Value) (c : Condition) → IsBuilt key v c (build_condition key v)
build_condition-IsBuilt key v c = elim (Bool-cases (has_null v)) [
  | inl raises ↦ rw (build_condition-eq key v) (rw raises raises)
  | inr fine ↦
      rw (build_condition-eq key v)
        (rw fine (fine, length-conditions_of key v, (Leaf-of key v c, built)))
]

extended-some :
    {A : Type 0} (a b : Option (List A)) (out : List A)
    → extended a b ≡ some out
    → (xs : List A) × (ys : List A) × (a ≡ some xs) × (b ≡ some ys) × (out ≡ xs ++ ys)
extended-some none b out h = absurd (ground arith)
extended-some (some xs) none out h = absurd (ground arith)
extended-some (some xs) (some ys) out h = (xs, ys, refl, refl, ground arith)

In-matched :
    (key : String) (s : Scalar) (cs : List Condition)
    → matched key s ≡ some cs
    → In (condition key s) cs
In-matched key null cs h = absurd (ground arith)
In-matched key (text s) cs h =
    let e : condition key (text s) ∷ [] ≡ cs = ground arith in
    subst (λ (l : List Condition). In (condition key (text s)) l) e (inl refl)
In-matched key (number n) cs h =
    let e : condition key (number n) ∷ [] ≡ cs = ground arith in
    subst (λ (l : List Condition). In (condition key (number n)) l) e (inl refl)
In-matched key (boolean b) cs h =
    let e : condition key (boolean b) ∷ [] ≡ cs = ground arith in
    subst (λ (l : List Condition). In (condition key (boolean b)) l) e (inl refl)

-- A filter has the condition of each entry that is not nested.
pub build_all-lookup :
    (key : String) (s : Scalar) (metadata : Metadata) (cs : List Condition)
    → build_all metadata ≡ some cs
    → lookup key metadata ≡ some (scalar s)
    → In (condition key s) cs
unfolding build_all build_condition
build_all-lookup key s [] cs made h = absurd (ground arith)
build_all-lookup key s ((k, v) ∷ later) cs made h =
    let (xs, ys, first, rest, all) =
      extended-some (build_condition k v) (build_all later) cs made in
    rw all (elim (Bool-cases (k == key)) [
      | inl same ↦
          let e : v ≡ scalar s = ground (arith) in
          let e' : k ≡ key = (eq_iff k key).0 same in
          let f : matched key s ≡ some xs =
            ap (λ (x : String). matched x s) (sym e')
            ∙ ap (λ (x : Value). build_condition k x) (sym e)
            ∙ first in
          In-left (condition key s) xs ys (In-matched key s xs f)
      | inr other ↦
          In-right (condition key s) xs ys (build_all-lookup key s later ys rest (ground arith))
    ])
