-- ===== src/Upload/Completion.antt =====
-- One chunk of an upload: what the call does, and what the last missing chunk answers and leaves.
use microservice_metarang.Prelude.{
  ℕ, ◌<◌, true, none, some, List, [], ◌∷◌, ◌≡◌, ◌==◌, refl, ◌∙◌, ap, if◌then◌else◌, arith, length,
  ==_refl,
}
use microservice_metarang.Upload.Session.{
  Bytes, Location, Storage, Upload, Env, session_of, new_session, get_or_create_session,
  get_progress, is_complete, assemble_file, create_unique_filename, location, mime_of,
  cleanup_session, drop_session, drop_chunks, member,
}
use microservice_metarang.Upload.Handle.{going_on, finished, conclude, handle_chunk_upload, Chunk}
use microservice_metarang.Upload.Accepted.{
  indices, accept, joined, IsDistinct, IsBelow, member_of_enough, length-indices,
}
use microservice_metarang.Upload.Progress.{
  session_at, IsUploading, saved, saved-IsUploading, save_chunk_lem, found_lem,
  assemble_from-joined, session_of-drop_session, same_refl,
}

pub handle_lem :
    (env : Env) (time : ℕ) (u : Upload) (c : Chunk) (got : List Chunk) (st : Storage)
    → IsUploading time u got st
    → handle_chunk_upload env u c.index c.content st ≡ (
        if length (accept c got) == u.total_chunks
        then conclude u.upload_id u.content_type
            (assemble_file env (session_at time u (accept c got)) (saved u c got st))
            (saved u c got st)
        else (going_on (get_progress (session_at time u (accept c got))), saved u c got st))
unfolding handle_chunk_upload is_complete
handle_lem env time u c got st p =
    rw
      (found_lem env time u got st p, save_chunk_lem time u c got st, length-indices (accept c got))
      refl

-- The storage with the session of a new upload.
abbrev pub opened : Env → Upload → Storage → Storage
opened env u st = record st { sessions = new_session env u ∷ st.sessions }

pub opened-IsUploading :
    (env : Env) (u : Upload) (st : Storage) → IsUploading env.now u [] (opened env u st)
opened-IsUploading env u st = record { held = rw (same_refl u.upload_id) refl; kept = tt }

pub opened_lem :
    (env : Env) (u : Upload) (i : ℕ) (content : Bytes) (st : Storage)
    → session_of u.upload_id st.sessions ≡ none
    → handle_chunk_upload env u i content st ≡ handle_chunk_upload env u i content (opened env u st)
unfolding handle_chunk_upload get_or_create_session
opened_lem env u i content st h = rw (h, same_refl u.upload_id) refl

pub saved_stored :
    (u : Upload) (c : Chunk) (got : List Chunk) (st : Storage)
    → (saved u c got st).stored ≡ st.stored
saved_stored u c got st = ground arith

-- What a finished upload answers, and the storage that it leaves.
abbrev pub file_name : Env → Upload → Bytes → Bytes
file_name env u content = create_unique_filename env u.filename content

abbrev pub place_of : Env → Upload → Bytes → Location
place_of env u content = location env (new_session env u) (file_name env u content)

cleanup_lem :
    (time : ℕ) (u : Upload) (got : List Chunk) (st : Storage)
    → IsUploading time u got st
    → cleanup_session u.upload_id st ≡ record st {
      sessions = drop_session u.upload_id st.sessions;
      chunk_files = drop_chunks u.upload_id st.chunk_files;
    }
unfolding cleanup_session
cleanup_lem time u got st p = rw p.held refl

assemble_file_lem :
    (env : Env) (time : ℕ) (u : Upload) (got : List Chunk) (st : Storage)
    → IsUploading time u got st
    → ((j : ℕ) → j < u.total_chunks → member j (indices got) ≡ true)
    → let content = joined 0 u.total_chunks got in
      assemble_file env (session_at time u got) st
      ≡ some (content, place_of env u content, file_name env u content)
unfolding assemble_file create_unique_filename
assemble_file_lem env time u got st p h = ground (
  arith,
  assemble_from-joined u.upload_id 0 u.total_chunks st.chunk_files got p.kept
      (λ j l. h j (omega arith)),
)

-- The last missing chunk.
pub handle_last :
    (env : Env) (time : ℕ) (u : Upload) (c : Chunk) (got : List Chunk) (st : Storage)
    → IsUploading time u got st
    → IsDistinct (indices (accept c got))
    → IsBelow u.total_chunks (indices (accept c got))
    → length (accept c got) ≡ u.total_chunks
    → let (answer, st') = handle_chunk_upload env u c.index c.content st in
      let content = joined 0 u.total_chunks (accept c got) in
      (answer
        ≡ finished (place_of env u content) (file_name env u content) (mime_of u.content_type))
      × (st'.stored ≡ (place_of env u content, content) ∷ st.stored)
      × (session_of u.upload_id st'.sessions ≡ none)
handle_last env time u c got st p d b full =
    let p' = saved-IsUploading time u c got st p in
    let all_there : (j : ℕ) → j < u.total_chunks → member j (indices (accept c got)) ≡ true = λ j l.
      member_of_enough u.total_chunks j (indices (accept c got)) d b
        (length-indices (accept c got) ∙ full) l in
    let content = joined 0 u.total_chunks (accept c got) in
    let st'' : Storage = record (saved u c got st) {
      stored = (place_of env u content, content) ∷ (saved u c got st).stored;
    } in
    rw
      (
        handle_lem env time u c got st p,
        full,
        ==_refl u.total_chunks,
        assemble_file_lem env time u (accept c got) (saved u c got st) p' all_there,
        cleanup_lem time u (accept c got) st'' (record { held = p'.held; kept = p'.kept }),
      )
      (
        refl,
        ap (λ old. (place_of env u content, content) ∷ old) (saved_stored u c got st),
        session_of-drop_session u.upload_id (saved u c got st).sessions,
      )
