-- ===== src/Uploads/Batch.antt =====
-- core/cat/routes/upload.py: a batch of files goes down the rabbit hole as a whole, or not at all.
use cat_forked.Prelude.{
  ◌≡◌, refl, sym, ap, ◌∙◌, inl, inr, String, Bool, true, false, Option, none, some, lookup, mem_of,
  List, [], ◌∷◌, ◌++◌, map, all_of, Dict, insert, if◌then◌else◌, Bool-cases, Response, ok,
  http_error,
}
use mathlib.Core.Path.{subst}
use cat_forked.RabbitHole.{Value}
use cat_forked.Uploads.{
  UploadFile, Chunks, Task, ingest_file, Uploaded, is_admitted, or_empty, task_of, uploaded,
  upload_each, upload_files,
}

abbrev pub is_ok : {A : Type 0} → Response A → Bool
is_ok (ok a) = true
is_ok (http_error n) = false

append_one : {A : Type 0} (xs : List A) (y : A) (ys : List A) → (xs ++ y ∷ []) ++ ys ≡ xs ++ y ∷ ys
append_one [] y ys = refl
append_one (x ∷ xs) y ys = ap (λ (zs : List _). x ∷ zs) (append_one xs y ys)

append_nil : {A : Type 0} (xs : List A) → xs ++ [] ≡ xs
append_nil [] = refl
append_nil (x ∷ xs) = ap (λ (zs : List _). x ∷ zs) (append_nil xs)

abbrev pub is_among : List String → Option String → Bool
is_among types none = false
is_among types (some t) = mem_of t types

is_admitted-eq : (types : List String) (o : Option String) → is_admitted types o ≡ is_among types o
is_admitted-eq types none = refl
is_admitted-eq types (some t) = refl

-- What the request says for the file, or nothing.
abbrev pub IsSaid : Option (Dict Value) → Dict Value → Type 0
IsSaid none d = d ≡ []
IsSaid (some said) d = d ≡ said

or_empty-IsSaid : (o : Option (Dict Value)) → IsSaid o (or_empty o)
or_empty-IsSaid none = refl
or_empty-IsSaid (some said) = refl

module _ {C : Type 0} (guess_type : String → Option String) where
  -- The type of the file is known, and is one of the types.
  abbrev pub admitted : List String → UploadFile C → Bool
  admitted types file = is_among types (guess_type file.filename)

  module _ (chunks : Chunks) (metadata : Dict (Dict Value)) where
    -- The task ingests the content of this file under its name, in the pieces that were asked for, with
    -- the metadata that the request has under this name.
    abbrev pub IsIngestion : UploadFile C → Task C → Type 0
    IsIngestion file (ingest_file name content pieces said) =
        (name ≡ file.filename)
        × (content ≡ file.file)
        × (pieces ≡ chunks)
        × IsSaid (lookup file.filename metadata) said
    IsIngestion file _ = ⊥

    -- One task for each file, in order.
    abbrev pub AreIngestions : List (UploadFile C) → List (Task C) → Type 0
    AreIngestions [] [] = Unit
    AreIngestions (file ∷ files) (task ∷ tasks) = IsIngestion file task × AreIngestions files tasks
    AreIngestions _ _ = ⊥

    -- What a batch leaves in the background, by whether it is taken.
    abbrev pub AreQueued : Bool → List (UploadFile C) → List (Task C) → Type 0
    AreQueued true files tasks = AreIngestions files tasks
    AreQueued false files tasks = tasks ≡ []

    task_of-AreIngestions :
        (files : List (UploadFile C))
        → AreIngestions files (map (task_of guess_type chunks metadata) files)
    task_of-AreIngestions [] = tt
    task_of-AreIngestions (file ∷ files) = (
      (refl, refl, refl, or_empty-IsSaid (lookup file.filename metadata)),
      task_of-AreIngestions files,
    )

    queued-AreQueued :
        (all : Bool) (files : List (UploadFile C))
        → AreQueued all files (if all then map (task_of guess_type chunks metadata) files else [])
    queued-AreQueued true files = task_of-AreIngestions files
    queued-AreQueued false files = refl

  upload_each-tasks :
      (types : List String) (chunks : Chunks) (metadata : Dict (Dict Value))
      (files : List (UploadFile C)) (tasks : List (Task C)) (response : Dict Uploaded)
      → let all = all_of (admitted types) files in
        let out = upload_each guess_type types chunks metadata files tasks response in
        (is_ok out.0 ≡ all)
        × (out.1 ≡ (if all then tasks ++ map (task_of guess_type chunks metadata) files else []))
  unfolding upload_each
  upload_each-tasks types chunks metadata [] tasks response = (refl, sym (append_nil tasks))
  upload_each-tasks types chunks metadata (file ∷ files) tasks response =
      let task = task_of guess_type chunks metadata file in
      let (answer, run) =
        upload_each-tasks types chunks metadata files (tasks ++ task ∷ [])
          (insert file.filename (uploaded guess_type file) response) in
      elim (Bool-cases (is_admitted types (guess_type file.filename))) [
        | inr refused ↦
            rw (sym (is_admitted-eq types (guess_type file.filename))) (rw refused (refl, refl))
        | inl fits ↦ rw (sym (is_admitted-eq types (guess_type file.filename))) (
            rw fits (
              answer,
              run
                  ∙ rw (append_one tasks task (map (task_of guess_type chunks metadata) files))
                      refl,
            ))
      ]

  -- A batch with readable metadata is taken where the type of every file is admitted, and refused otherwise.
  -- Where it is taken, one ingestion is queued for each file and no other, in order, with the content of
  -- the file and the metadata that the request has under its name, or none; where it is refused, nothing is
  -- queued.
  pub upload_files-AreQueued :
      (types : List String) (loads : String → Option (Dict (Dict Value)))
      (files : List (UploadFile C)) (chunks : Chunks) (text : String) (metadata : Dict (Dict Value))
      → loads text ≡ some metadata
      → let all = all_of (admitted types) files in
        let out = upload_files guess_type types loads files chunks text in
        (is_ok out.0 ≡ all) × AreQueued chunks metadata all files out.1
  unfolding upload_files
  upload_files-AreQueued types loads files chunks text metadata read =
      let all = all_of (admitted types) files in
      let (answer, run) = upload_each-tasks types chunks metadata files [] [] in
      rw read (
        answer,
        subst (λ (tasks : List (Task C)). AreQueued chunks metadata all files tasks) (sym run)
            (queued-AreQueued chunks metadata all files),
      )
