-- ===== src/Uploads/Tests.antt =====
-- A batch of two files.
use cat_forked.Prelude.{
  List, ℕ, ◌≡◌, refl, String, Option, none, some, [], ◌∷◌, all_of, Dict, ◌==◌, if◌then◌else◌,
  http_error,
}
use cat_forked.RabbitHole.{Value, text}
use cat_forked.Uploads.{UploadFile, Chunks, upload_files, upload_url}
use cat_forked.Uploads.Batch.{is_ok, admitted, AreQueued, upload_files-AreQueued}

abbrev guess_type : String → Option String
guess_type name = if name == "cats.txt" then some "text/plain" else some "image/png"

abbrev file : String → UploadFile ℕ
file name = record { filename = name; content_type = none; file = 7 }

abbrev chunks : Chunks
chunks = record { chunk_size = some 128; chunk_overlap = none }

abbrev loads : String → Option (Dict (Dict Value))
loads s = some (("cats.txt", ("author", text "anna") ∷ []) ∷ [])

abbrev two_files : List (UploadFile ℕ)
two_files = file "cats.txt" ∷ file "cats.txt" ∷ []

upload_files-AreQueued_example :
    let all = all_of (admitted guess_type ("text/plain" ∷ [])) two_files in
    let out = upload_files guess_type ("text/plain" ∷ []) loads two_files chunks "{}" in
    (is_ok out.0 ≡ all)
    × AreQueued guess_type chunks
        (("cats.txt", ("author", text "anna") ∷ []) ∷ [])
        all
        two_files
        out.1
upload_files-AreQueued_example =
    upload_files-AreQueued guess_type ("text/plain" ∷ []) loads two_files chunks "{}"
      (("cats.txt", ("author", text "anna") ∷ []) ∷ []) refl

one_picture :
    upload_files guess_type
      ("text/plain" ∷ [])
      loads
      (file "cats.txt" ∷ file "cat.png" ∷ [])
      chunks
      "{}"
    ≡ (http_error 400, [])
unfolding upload_files
one_picture = refl

not_found : upload_url ℕ (λ u. some 404) "https://cats" chunks [] ≡ (http_error 400, [])
unfolding upload_url
not_found = refl
