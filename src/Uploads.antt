-- ===== src/Uploads.antt =====
-- core/cat/routes/upload.py: files, urls and memories on their way to the rabbit hole. A request is answered
-- first and its background tasks run later; FastAPI drops them where the request raises. `C` is what a
-- file contains. `guess_type`, `json.loads` and the request to a url are parameters.
pub mod Batch
mod Tests
use cat_forked.Prelude.{
  ℕ, String, Bool, true, false, not, Option, none, some, List, [], ◌∷◌, Dict, lookup, insert, keys,
  ◌++◌, mem_of, leb, ◌&&◌, ◌==◌, if◌then◌else◌, Response, ok, http_error,
}
use cat_forked.RabbitHole.{Value}

pub record UploadFile (C : Type 0) : Type 0 where
  pub filename : String
  pub content_type : Option String
  pub file : C

-- How a document is split.
pub record Chunks : Type 0 where
  pub chunk_size : Option ℕ
  pub chunk_overlap : Option ℕ

-- What runs in the background: `ingest_file` on a file or on a url, and `ingest_memory`.
pub data Task (C : Type 0) : Type 0 where
  ingest_file : String → C → Chunks → Dict Value → Task C
  ingest_url : String → Chunks → Dict Value → Task C
  ingest_memory : String → C → Task C

pub record Uploaded : Type 0 where
  pub filename : String
  pub content_type : Option String

-- `content_type not in admitted_types`
abbrev pub is_admitted : List String → Option String → Bool
is_admitted admitted_types none = false
is_admitted admitted_types (some t) = mem_of t admitted_types

-- `metadata_dict[file.filename] if file.filename in metadata_dict else {}`
abbrev pub or_empty : Option (Dict Value) → Dict Value
or_empty none = []
or_empty (some d) = d

abbrev pub is_json : Option String → Bool
is_json none = false
is_json (some t) = t == "application/json"

abbrev pub Answer : Type 0 → Type 0 → Type 0
Answer C A = Response A × List (Task C)

module _ {C : Type 0} (guess_type : String → Option String) where
  abbrev pub uploaded : UploadFile C → Uploaded
  uploaded file = record { filename = file.filename; content_type = file.content_type }

  -- `json.loads` comes after the test of the type.
  file_task : UploadFile C → Chunks → Option (Dict Value) → Answer C Uploaded
  file_task file chunks none = (http_error 500, [])
  file_task file chunks (some metadata) =
      (ok (uploaded file), ingest_file file.filename file.file chunks metadata ∷ [])

  unfoldable pub upload_file :
      List String
      → (String → Option (Dict Value))
      → UploadFile C
      → Chunks
      → String
      → Answer C Uploaded
  unfolding file_task
  upload_file admitted_types loads file chunks metadata =
      if not (is_admitted admitted_types (guess_type file.filename))
      then (http_error 400, [])
      else file_task file chunks (loads metadata)

  abbrev pub task_of : Chunks → Dict (Dict Value) → UploadFile C → Task C
  task_of chunks metadata_dict file =
      ingest_file file.filename file.file chunks (or_empty (lookup file.filename metadata_dict))

  -- The loop over the files, with the tasks and the response so far.
  unfoldable pub upload_each :
      List String
      → Chunks
      → Dict (Dict Value)
      → List (UploadFile C)
      → List (Task C)
      → Dict Uploaded
      → Answer C (Dict Uploaded)
  upload_each admitted_types chunks metadata_dict [] tasks response = (ok response, tasks)
  upload_each admitted_types chunks metadata_dict (file ∷ files) tasks response =
      let rest =
        upload_each admitted_types chunks metadata_dict files
          (tasks ++ task_of chunks metadata_dict file ∷ [])
          (insert file.filename (uploaded file) response) in
      if not (is_admitted admitted_types (guess_type file.filename))
      then (http_error 400, [])
      else rest

  batch :
      List String
      → Chunks
      → List (UploadFile C)
      → Option (Dict (Dict Value))
      → Answer C (Dict Uploaded)
  unfolding upload_each
  batch admitted_types chunks files none = (http_error 500, [])
  batch admitted_types chunks files (some metadata_dict) =
      upload_each admitted_types chunks metadata_dict files [] []

  unfoldable pub upload_files :
      List String
      → (String → Option (Dict (Dict Value)))
      → List (UploadFile C)
      → Chunks
      → String
      → Answer C (Dict Uploaded)
  unfolding batch
  upload_files admitted_types loads files chunks metadata =
      batch admitted_types chunks files (loads metadata)

  unfoldable pub upload_memory : UploadFile C → Answer C Uploaded
  upload_memory file =
      if not (is_json (guess_type file.filename))
      then (http_error 400, [])
      else (ok (uploaded file), ingest_memory file.filename file.file ∷ [])

module _ (C : Type 0) where
  -- `head` gives the status, `none` where the url cannot be reached.
  by_status : String → Chunks → Dict Value → Option ℕ → Answer C String
  by_status url chunks metadata none = (http_error 400, [])
  by_status url chunks metadata (some status) =
      if leb status 200 && leb 200 status
      then (ok url, ingest_url url chunks metadata ∷ [])
      else (http_error 400, [])

  unfoldable pub upload_url : (String → Option ℕ) → String → Chunks → Dict Value → Answer C String
  unfolding by_status
  upload_url head url chunks metadata = by_status url chunks metadata (head url)

-- `file_handlers.keys()`
abbrev pub get_allowed_mimetypes : {H : Type 0} → Dict H → List String
get_allowed_mimetypes file_handlers = keys file_handlers
