-- ===== src/Upload/Handle.antt =====
-- `HandleChunkUpload` of services/storage-service/internal/service/storage_service.go.
use microservice_metarang.Prelude.{ℕ, Option, none, some, List, [], ◌∷◌, if◌then◌else◌}
use microservice_metarang.Upload.Session.{
  Bytes, Location, Storage, Upload, Env, get_or_create_session, save_chunk, get_progress,
  is_complete, assemble_file, cleanup_session, mime_of,
}

-- The upload goes on with a percentage, it is finished with a location, a name and a MIME type, or
-- the file could not be assembled.
pub data Answer : Type 0 where
  going_on : ℕ → Answer
  finished : Location → Bytes → Bytes → Answer
  not_assembled : Answer

abbrev pub conclude : Bytes → Bytes → Option (Bytes × Location × Bytes) → Storage → Answer × Storage
conclude id content_type none st = (not_assembled, cleanup_session id st)
conclude id content_type (some (content, place, name)) st = (
  finished place name (mime_of content_type),
  cleanup_session id (record st { stored = (place, content) ∷ st.stored }),
)

unfoldable pub handle_chunk_upload : Env → Upload → ℕ → Bytes → Storage → Answer × Storage
handle_chunk_upload env u i content st =
    let (s, st1) = get_or_create_session env u st in
    let (s', st2) = save_chunk s i content st1 in
    if is_complete s'
    then conclude u.upload_id u.content_type (assemble_file env s' st2) st2
    else (going_on (get_progress s'), st2)

-- The chunks of one upload, one after the other.
pub record Chunk : Type 0 where
  pub index : ℕ
  pub content : Bytes

unfoldable pub upload_all : Env → Upload → List Chunk → Storage → Storage
upload_all env u [] st = st
upload_all env u (c ∷ cs) st =
    upload_all env u cs (handle_chunk_upload env u c.index c.content st).1
