-- ===== src/Procedures/Tests.antt =====
-- Runs on a procedural memory with a trigger of a tool that is gone.
use cat_forked.Prelude.{
  ℕ, zero, suc, ◌+◌, ◌⊎◌, ◌∙◌, ap, count, Bool-cases, ◌≡◌, refl, sym, String, Bool, true, false,
  Option, none, some, List, [], ◌∷◌, inl, inr, arith, ◌==◌, ==→≡, if◌then◌else◌,
}
use cat_forked.Vectors.{text, Value, scalar, Point, get_all_points, delete_points}
use cat_forked.Vectors.Sample.{Db, qdrant}
use cat_forked.Procedures.{
  Procedure, build_active_procedures_hashes, hash_of_point, build_embedded_procedures_hashes,
  embed_procedures,
}
use cat_forked.Procedures.Stale.{IsListed, IsActive, embed_procedures-IsActive}
use cat_forked.Procedures.Embedded.{HasHash, IsThere, AreFresh, embed_procedures-HasHash}

abbrev stale : Point ℕ
stale = record {
  id = "1";
  page_content = "old: an old tool";
  metadata = ("source", scalar (text "old")) ∷ ("trigger_type", scalar (text "description")) ∷ [];
  vector = [];
}

abbrev kept : Point ℕ
kept = record {
  id = "2";
  page_content = "clock: the time";
  metadata = ("source", scalar (text "clock")) ∷ ("trigger_type", scalar (text "description")) ∷ [];
  vector = [];
}

abbrev db : Db
db = record {
  points = λ c id.
      if c == "procedural"
      then (if id == "1" then some stale else if id == "2" then some kept else none)
      else none;
  names = [];
  sizes = λ c. 1;
  aliases = λ c. none;
}

abbrev clock : Procedure
clock = record {
  name = "clock";
  procedure_type = "tool";
  triggers_map =
      ("description", "clock: the time" ∷ []) ∷ ("start_example", "what time is it" ∷ []) ∷ [];
}

abbrev show : Value → String
show v = "?"

abbrev embed : String → Option (List ℕ)
embed s = some []

abbrev unordered : List String → List String
unordered hs = hs

abbrev new_id : ℕ → String
new_id zero = "id"
new_id (suc n) = String.◌∷◌ "x" (new_id n)

count-new_id : (n : ℕ) → count (new_id n) ≡ n + 2
count-new_id zero = refl
count-new_id (suc n) = omega (arith, count-new_id n)

not_short : (n : ℕ) (s : String) → count s ≡ 1 → (new_id n == s) ≡ false
not_short n s one = elim (Bool-cases (new_id n == s)) [
  | inr other ↦ other
  | inl same ↦ let e = ap count (==→≡ same) in absurd (omega (arith, count-new_id n))
]

ids-AreFresh : AreFresh qdrant show new_id db
ids-AreFresh = (
  λ m n e. let e' = ap count e in omega (arith, count-new_id m, count-new_id n),
  λ n. rw (not_short n "1" refl) (rw (not_short n "2" refl) refl),
)

abbrev after : Db
after = (embed_procedures qdrant show unordered embed 5 new_id (clock ∷ []) db).1

the_stale_one_goes :
    (qdrant.point_of "procedural" "1" after ≡ none)
    × (qdrant.point_of "procedural" "2" after ≡ some kept)
unfolding embed_procedures build_embedded_procedures_hashes get_all_points
    build_active_procedures_hashes delete_points
the_stale_one_goes = (refl, refl)

there_at :
    (id : String) (p : Point ℕ)
    → qdrant.point_of "procedural" id db ≡ some p
    → ((id == "1") ≡ true) × (p ≡ stale) ⊎ ((id == "2") ≡ true) × (p ≡ kept)
there_at id p there = ground arith

abbrev is_old : Option String → Bool
is_old none = false
is_old (some h) = h == "old.description.old: an old tool"

different_hashes : hash_of_point show stale ≡ hash_of_point show kept → ⊥
different_hashes e = let f : true ≡ false = ap is_old e in absurd (ground arith)

same_id :
    (p q : Point ℕ)
    → (p ≡ stale) ⊎ (p ≡ kept) ⊎ ⊥
    → (q ≡ stale) ⊎ (q ≡ kept) ⊎ ⊥
    → hash_of_point show p ≡ hash_of_point show q
    → p.id ≡ q.id
same_id p q (inl e) (inl f) h = ap (λ (x : Point ℕ). x.id) (e ∙ sym f)
same_id p q (inr (inl e)) (inr (inl f)) h = ap (λ (x : Point ℕ). x.id) (e ∙ sym f)
same_id p q (inl e) (inr (inl f)) h =
    absurd (different_hashes (sym (ap (hash_of_point show) e) ∙ h ∙ ap (hash_of_point show) f))
same_id p q (inr (inl e)) (inl f) h =
    absurd (different_hashes (sym (ap (hash_of_point show) f) ∙ sym h ∙ ap (hash_of_point show) e))
same_id p q (inr (inr e)) m h = absurd e
same_id p q m (inr (inr f)) h = absurd f

all-IsListed : IsListed qdrant show db
unfolding get_all_points
all-IsListed = record {
  complete = λ id p there. elim (there_at id p there) [
    | inl (i, e) ↦ (inl e, ap (λ (q : Point ℕ). q.id) e ∙ sym (==→≡ i))
    | inr (i, e) ↦ (inr (inl e), ap (λ (q : Point ℕ). q.id) e ∙ sym (==→≡ i))
  ];
  unique = λ p q h mp mq hp hq. same_id p q mp mq (hp ∙ sym hq);
}

embed_procedures-IsActive_example : IsActive qdrant show (clock ∷ []) kept
unfolding embed_procedures build_embedded_procedures_hashes get_all_points
    build_active_procedures_hashes delete_points
embed_procedures-IsActive_example =
    embed_procedures-IsActive qdrant show unordered embed 5 new_id (λ h hs m. m) (clock ∷ []) db "2"
      kept all-IsListed refl refl

listed-IsThere : IsThere qdrant show db
unfolding get_all_points
listed-IsThere p (inl e) = rw e refl
listed-IsThere p (inr (inl e)) = rw e refl
listed-IsThere p (inr (inr e)) = absurd e

embed_procedures-HasHash_example : HasHash qdrant show "clock.start_example.what time is it" after
unfolding embed_procedures build_embedded_procedures_hashes get_all_points
    build_active_procedures_hashes delete_points
embed_procedures-HasHash_example =
    embed_procedures-HasHash qdrant show unordered embed 5 new_id (λ p d. refl) (clock ∷ []) db
      "clock.start_example.what time is it" (λ k hs. (λ m. m, λ m. m)) listed-IsThere ids-AreFresh
      refl
      (
        clock,
        inl refl,
        "start_example",
        "what time is it",
        ("what time is it" ∷ [], inr (inl refl), inl refl),
        refl,
      )
