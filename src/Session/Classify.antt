-- ===== src/Session/Classify.antt =====
-- core/cat/looking_glass/stray_cat.py: `classify`, and the messages other than the answer. Scores are in
-- thousandths. The language model and the distance are parameters; the prompt is kept as its parts.
use cat_forked.Prelude.{
  ℕ, ◌≤◌, ◌<◌, ◌≡◌, inl, inr, sym, ap, ◌∙◌, String, Option, none, some, List, [], ◌∷◌, In, Dict,
  keys, ltb, leb, arith, if◌then◌else◌, Bool-cases, Option-cases, leb→le,
}
use mathlib.Core.Path.{subst}

-- A list of labels, or a dictionary with examples.
pub data Labels : Type 0 where
  names : List String → Labels
  examples : Dict (List String) → Labels

abbrev pub labels_names : Labels → List String
labels_names (names ls) = ls
labels_names (examples d) = keys d

abbrev pub examples_list : Labels → Dict (List String)
examples_list (names ls) = []
examples_list (examples d) = d

-- What the prompt is made of.
pub record Prompt : Type 0 where
  pub sentence : String
  pub labels : List String
  pub examples : Dict (List String)

-- `min(..., key=...)`: the first of the least. It raises where there is none.
unfoldable pub closest : (String → ℕ) → List String → Option String
closest score [] = none
closest score (l ∷ ls) = elim (closest score ls) [
  | none ↦ some l
  | some best ↦ if leb (score l) (score best) then some l else some best
]

-- `none` is an exception, `some none` the answer `None`.
abbrev pub if_near : (String → ℕ) → Option String → Option (Option String)
if_near score none = none
if_near score (some best_label) =
    some (if ltb (score best_label) 500 then some best_label else none)

module _ (llm : Prompt → String) (levenshtein_distance : String → String → ℕ) where
  abbrev pub score_of : String → Labels → String → ℕ
  score_of sentence labels =
      let prompt : Prompt = record {
        sentence = sentence;
        labels = labels_names labels;
        examples = examples_list labels;
      } in
      levenshtein_distance (llm prompt)

  unfoldable pub classify : String → Labels → Option (Option String)
  unfolding closest
  classify sentence labels =
      let score = score_of sentence labels in if_near score (closest score (labels_names labels))

closest-least :
    (score : String → ℕ) (ls : List String) (best : String)
    → closest score ls ≡ some best
    → In best ls
unfolding closest
closest-least score [] best h = absurd (ground arith)
closest-least score (l ∷ ls) best h = elim (Option-cases (closest score ls)) [
  | inl empty ↦ let e : l ≡ best = ground arith in inl (sym e)
  | inr (b, found) ↦ elim (Bool-cases (leb (score l) (score b))) [
    | inl less ↦ let e : l ≡ best = ground arith in inl (sym e)
    | inr more ↦
        let e : b ≡ best = ground arith in
        inr (subst (λ (x : String). In x ls) e (closest-least score ls b found))
  ]
]

closest-none :
    (score : String → ℕ) (ls : List String) (other : String)
    → closest score ls ≡ none
    → In other ls
    → ⊥
unfolding closest
closest-none score [] other h m = absurd m
closest-none score (l ∷ ls) other h m = elim (Option-cases (closest score ls)) [
  | inl empty ↦ ground arith
  | inr (b, found) ↦ elim (Bool-cases (leb (score l) (score b))) [
    | inl less ↦ ground arith
    | inr more ↦ ground arith
  ]
]

closest-le :
    (score : String → ℕ) (ls : List String) (best other : String)
    → closest score ls ≡ some best
    → In other ls
    → score best ≤ score other
unfolding closest
closest-le score [] best other h m = absurd m
closest-le score (l ∷ ls) best other h m = elim (Option-cases (closest score ls)) [
  | inl empty ↦ elim m [
    | inr later ↦ absurd (closest-none score ls other empty later)
    | inl same ↦ let e : l ≡ best = ground arith in let f = ap score (same ∙ e) in omega arith
  ]
  | inr (b, found) ↦ elim (Bool-cases (leb (score l) (score b))) [
    | inl less ↦
        let e : l ≡ best = ground arith in
        let f = ap score e in
        let le = leb→le (score l) (score b) less in
        elim m [
          | inl same ↦ let g = ap score same in omega arith
          | inr later ↦ let least = closest-le score ls b other found later in omega arith
        ]
    | inr more ↦
        let e : b ≡ best = ground arith in
        let f = ap score e in
        let lt : score b ≤ score l = ground arith in
        elim m [
          | inl same ↦ let g = ap score same in omega arith
          | inr later ↦ let least = closest-le score ls b other found later in omega arith
        ]
  ]
]

-- A label that `classify` gives is one of the labels, less than a half away from what the model answered,
-- and no other label is nearer.
pub classify-closest :
    (llm : Prompt → String) (distance : String → String → ℕ) (sentence : String) (labels : Labels)
    (label other : String)
    → classify llm distance sentence labels ≡ some (some label)
    → In other (labels_names labels)
    → let score = score_of llm distance sentence labels in
      In label (labels_names labels) × (score label < 500) × (score label ≤ score other)
unfolding classify
classify-closest llm distance sentence labels label other answered m =
    let score = score_of llm distance sentence labels in
    let ls = labels_names labels in
    elim (Option-cases (closest score ls)) [
      | inl empty ↦ absurd (ground arith)
      | inr (best, found) ↦ elim (Bool-cases (ltb (score best) 500)) [
        | inr far ↦ absurd (ground arith)
        | inl near ↦
            let e : best ≡ label = ground arith in
            subst (λ (x : String). In x ls × (score x < 500) × (score x ≤ score other)) e
              (
                closest-least score ls best found,
                ground arith,
                closest-le score ls best other found m,
              )
      ]
    ]
