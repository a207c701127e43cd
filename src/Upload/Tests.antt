-- ===== src/Upload/Tests.antt =====
-- An upload of three chunks that arrive out of order, one of them twice.
use microservice_metarang.Prelude.{ℕ, [], ◌∷◌, ◌≡◌, none, refl, arith}
use microservice_metarang.Upload.Session
use microservice_metarang.Upload.Session.{
  Bytes, ChunkSession, Location, dated, Storage, Upload, Env, session_of, create_unique_filename,
  mime_of,
}
use microservice_metarang.Upload.Handle.{
  Answer, finished, not_assembled, Chunk, handle_chunk_upload, upload_all,
}
use microservice_metarang.Upload.Runs.{handle_chunk_upload-stores}

abbrev chunk : ℕ → Bytes → Chunk
chunk i content = record { index = i; content = content }

-- `a.png`, in three chunks.
abbrev picture : Upload
picture = record {
  upload_id = 1 ∷ [];
  filename = b'a' ∷ b'.' ∷ b'p' ∷ [];
  content_type = b'i' ∷ b'/' ∷ b'p' ∷ b';' ∷ b'x' ∷ [];
  total_chunks = 3;
  total_size = 6;
  upload_path = [];
}

abbrev nothing : Storage
nothing = record { sessions = []; chunk_files = []; stored = [] }

-- The sum is only a stand-in for the hash.
abbrev at_noon : Env
at_noon = record { now = 100; today = 7 ∷ []; hash = λ content. 9 ∷ [] }

abbrev at_one : Env
at_one = record { now = 3700; today = 7 ∷ []; hash = λ content. 9 ∷ [] }

type_and_name :
    (mime_of picture.content_type ≡ b'i' ∷ b'/' ∷ b'p' ∷ [])
    × (create_unique_filename at_noon picture.filename [] ≡ 9 ∷ b'.' ∷ b'p' ∷ [])
unfolding mime_of Session.before_semicolon Session.trim_left Session.trim_right
    create_unique_filename Session.ext
type_and_name = (refl, refl)

-- An index out of range counts as a chunk, so the upload is concluded without the missing one.
out_of_range :
    (handle_chunk_upload at_one picture 7 []
      (upload_all at_noon picture (chunk 0 [] ∷ chunk 1 [] ∷ []) nothing)).0
    ≡ not_assembled
unfolding upload_all handle_chunk_upload Session.get_or_create_session Session.save_chunk
    Session.is_complete Session.get_progress Session.assemble_file Session.assemble_from
    Session.read_chunk
out_of_range = refl

abbrev after_last : Answer × Storage
after_last = handle_chunk_upload at_one picture 1 (3 ∷ 4 ∷ []) (
    upload_all at_noon picture (chunk 2 (5 ∷ 6 ∷ []) ∷ chunk 0 (1 ∷ 2 ∷ []) ∷ chunk 2 (8 ∷ []) ∷ [])
      nothing)

abbrev final_place : Location
final_place = dated (b'i' ∷ b'-' ∷ b'p' ∷ []) (7 ∷ []) (9 ∷ b'.' ∷ b'p' ∷ [])

handle_chunk_upload-stores_example :
    (after_last.0 ≡ finished final_place (9 ∷ b'.' ∷ b'p' ∷ []) (b'i' ∷ b'/' ∷ b'p' ∷ []))
    × (after_last.1.stored ≡ (final_place, 1 ∷ 2 ∷ 3 ∷ 4 ∷ 5 ∷ 6 ∷ []) ∷ [])
    × (session_of (1 ∷ []) after_last.1.sessions ≡ none)
unfolding mime_of Session.before_semicolon Session.trim_left Session.trim_right
    create_unique_filename Session.ext Session.slashes_to_dashes
handle_chunk_upload-stores_example =
    handle_chunk_upload-stores at_noon at_one picture
      (chunk 2 (5 ∷ 6 ∷ []) ∷ chunk 0 (1 ∷ 2 ∷ []) ∷ chunk 2 (8 ∷ []) ∷ []) (chunk 1 (3 ∷ 4 ∷ []))
      nothing refl (omega arith, (omega arith, (omega arith, (omega arith, tt)))) (omega arith) refl
