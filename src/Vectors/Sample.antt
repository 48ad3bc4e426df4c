-- ===== src/Vectors/Sample.antt =====
-- A database of which the points are a function of the collection and the id, for the tests: a search and
-- the listing go through the points "1" and "2".
use cat_forked.Prelude.{
  ℕ, zero, suc, ◌≤◌, ◌≡◌, refl, sym, ap, ◌∙◌, String, Bool, true, false, not, ◌&&◌, ◌||◌, Option,
  none, some, List, [], ◌∷◌, ◌++◌, In, inl, inr, length, take, filter_by, all_of, mem_of, arith,
  ◌==◌, eq_iff, ==_refl, ==→≡, Bool-cases, if◌then◌else◌,
}
use mathlib.Core.Path.{subst}
use cat_forked.Vectors.{Scalar, text, scalar, Metadata, Condition, Point, Memory, Qdrant, to_list}
use cat_forked.Vectors.Keys.{in_metadata}
use cat_forked.Vectors.Conditions.{In-append}
use cat_forked.Vectors.Loading.{Collections, or_this}

pub record Db : Type 0 where
  pub points : String → String → Option (Point ℕ)
  pub names : List String
  pub sizes : String → ℕ
  pub aliases : String → Option String

abbrev is_text : String → Scalar → Bool
is_text s (text t) = s == t
is_text s _ = false

abbrev fulfils : Condition → Metadata → Bool
fulfils q [] = false
fulfils q ((k, scalar (text s)) ∷ later) =
    let rest = fulfils q later in ((in_metadata k == q.key) && is_text s q.value) || rest
fulfils q (_ ∷ later) = fulfils q later

abbrev passes : Option (List Condition) → Metadata → Bool
passes none metadata = true
passes (some conditions) metadata = all_of (λ q. fulfils q metadata) conditions

-- The points "1" and "2" are searched.
abbrev hit : String → Option (List Condition) → Option (Point ℕ) → List (Memory ℕ ℕ)
hit id f none = []
hit id f (some p) =
    if (p.id == id) && passes f p.metadata then record { point = p; score = 1 } ∷ [] else []

abbrev hits : String → Option (List Condition) → ℕ → Db → List (Memory ℕ ℕ)
hits c f k db = take k (hit "1" f (db.points c "1") ++ hit "2" f (db.points c "2"))

abbrev Found : Option (List Condition) → Option (Point ℕ) → String → Memory ℕ ℕ → Type 0
Found f o id m =
    (o ≡ some m.point) × ((m.point.id == id) ≡ true) × (passes f m.point.metadata ≡ true)

hit_sound :
    (id : String) (f : Option (List Condition)) (o : Option (Point ℕ)) (m : Memory ℕ ℕ)
    → In m (hit id f o)
    → Found f o id m
hit_sound id f none m h = absurd h
hit_sound id f (some p) m h = elim (Bool-cases ((p.id == id) && passes f p.metadata)) [
  | inr misses ↦
      absurd (
        subst (λ (b : Bool). In m (if b then record { point = p; score = 1 } ∷ [] else [])) misses
          h)
  | inl fits ↦
      let one =
        subst (λ (b : Bool). In m (if b then record { point = p; score = 1 } ∷ [] else [])) fits
          h in
      elim one [
        | inr nothing ↦ absurd nothing
        | inl e ↦ subst (Found f (some p) id) (sym e) (refl, ground arith, ground arith)
      ]
]

In-take : {A : Type 0} (a : A) (n : ℕ) (xs : List A) → In a (take n xs) → In a xs
In-take a zero xs h = absurd h
In-take a (suc n) [] h = absurd h
In-take a (suc n) (x ∷ xs) (inl e) = inl e
In-take a (suc n) (x ∷ xs) (inr h) = inr (In-take a n xs h)

pub length-take : {A : Type 0} (n : ℕ) (xs : List A) → length (take n xs) ≤ n
length-take zero xs = omega arith
length-take (suc n) [] = omega arith
length-take (suc n) (x ∷ xs) = omega (arith, length-take n xs)

pub hits_sound :
    (c : String) (f : Option (List Condition)) (k : ℕ) (db : Db) (m : Memory ℕ ℕ)
    → In m (hits c f k db)
    → Found f (db.points c m.point.id) m.point.id m
hits_sound c f k db m h =
    elim (In-append m (hit "1" f (db.points c "1")) (hit "2" f (db.points c "2"))
      (In-take m k (hit "1" f (db.points c "1") ++ hit "2" f (db.points c "2")) h)) [
        | inl l ↦
            let (e, same, p) = hit_sound "1" f (db.points c "1") m l in
            (ap (db.points c) (==→≡ same) ∙ e, ==_refl m.point.id, p)
        | inr r ↦
            let (e, same, p) = hit_sound "2" f (db.points c "2") m r in
            (ap (db.points c) (==→≡ same) ∙ e, ==_refl m.point.id, p)
      ]

pub not_failed : {A : Type 0} → true ≡ false → A
not_failed h = absurd (ground arith)

abbrev pub qdrant : Qdrant ℕ ℕ
qdrant = record {
  Store = Db;
  point_of = λ c id db. db.points c id;
  normalized = λ v. v;
  holds = fulfils;
  upsert = λ c p db. (
    true,
    record db { points = λ d id. if (c == d) && (p.id == id) then some p else db.points d id },
  );
  retrieve = λ c ids db. elim ids [ [] ↦ [] | id ∷ later ↦ to_list (db.points c id) ];
  delete = λ c ids db. record db {
    points = λ d id. if (c == d) && mem_of id ids then none else db.points d id;
  };
  delete_where = λ c f db. (true, db);
  search = λ c v f k t db. hits c f k db;
  scroll = λ c offset limit db. (to_list (db.points c "1") ++ to_list (db.points c "2"), none);
  retrieve_lem = λ c id db. refl;
  point_of-upsert = λ c d id p db h. refl;
  upsert_fails = λ c p db h. not_failed h;
  point_of-delete = λ c d ids id db. refl;
  search-stored = λ c v f k t db m h. (hits_sound c f k db m h).0;
  search-holds = λ c v f k t db m h. (hits_sound c (some f) k db m h).2;
  search-limit =
      λ c v f k t db. length-take k (hit "1" f (db.points c "1") ++ hit "2" f (db.points c "2"));
}

pub names_without :
    (c d : String) (names : List String)
    → mem_of d (filter_by (λ n. not (c == n)) names) ≡ (not (c == d) && mem_of d names)
names_without c d [] = ground arith
names_without c d (n ∷ names) =
    ground (arith, names_without c d names, eq_iff c n, eq_iff n d, eq_iff c d)

abbrev pub db_of : Collections qdrant
db_of = record {
  names = λ db. db.names;
  size = λ c db. db.sizes c;
  alias = λ c db. db.aliases c;
  points_count = λ c db. 0;
  delete_collection = λ c db. (
    true,
    record db {
      names = filter_by (λ n. not (c == n)) db.names;
      points = λ d id. if c == d then none else db.points d id;
    },
  );
  recreate_collection = λ c n db. record db {
    names = c ∷ db.names;
    sizes = λ d. if c == d then n else db.sizes d;
    aliases = λ d. if c == d then none else db.aliases d;
    points = λ d id. if c == d then none else db.points d id;
  };
  create_alias = λ c a db. record db {
    aliases = λ d. if c == d then some (or_this (db.aliases d) a) else db.aliases d;
  };
  names-delete = λ c d db. names_without c d db.names;
  names-recreate = λ c d n db. refl;
  names-alias = λ c a db. refl;
  size-delete = λ c d db h. refl;
  size-recreate = λ c d n db. refl;
  size-alias = λ c d a db. refl;
  alias-recreate = λ c n db. rw (==_refl c) refl;
  alias-alias = λ c a db. rw (==_refl c) refl;
  point_of-delete_collection = λ c d id db. refl;
  point_of-recreate = λ c d id n db. refl;
  point_of-alias = λ c d a id db. refl;
}
