-- ===== src/Upload/Runs.antt =====
-- Runs of chunks of one upload.
use microservice_metarang.Prelude.{
  ℕ, ◌*◌, ◌/◌, ◌≤◌, ◌<◌, false, none, List, [], ◌∷◌, ◌≡◌, ◌==◌, refl, ◌∙◌, ap, arith, length,
}
use microservice_metarang.Upload.Session.{
  Bytes, Location, Storage, Upload, Env, session_of, get_progress, mime_of,
}
use microservice_metarang.Upload.Handle.{
  Answer, going_on, finished, handle_chunk_upload, Chunk, upload_all,
}
use microservice_metarang.Upload.Accepted.{
  indices, accept, accept_all, joined, IsBelow, accept-IsDistinct, accept-IsBelow,
  accept_all-IsDistinct, accept_all-IsBelow, length-indices, length-accept_all, length-accept,
}
use microservice_metarang.Upload.Progress.{session_at, IsUploading, saved, saved-IsUploading}
use microservice_metarang.Upload.Completion.{
  handle_lem, opened, opened-IsUploading, opened_lem, saved_stored, file_name, place_of,
  handle_last,
}

-- A chunk that leaves others missing.
handle_more :
    (env : Env) (time : ℕ) (u : Upload) (c : Chunk) (got : List Chunk) (st : Storage)
    → IsUploading time u got st
    → length (accept c got) < u.total_chunks
    → handle_chunk_upload env u c.index c.content st
      ≡ (going_on (get_progress (session_at time u (accept c got))), saved u c got st)
handle_more env time u c got st p h =
    let other : (length (accept c got) == u.total_chunks) ≡ false = ground arith in
    handle_lem env time u c got st p ∙ rw other refl

upload_all_next :
    (env : Env) (time : ℕ) (u : Upload) (c : Chunk) (cs got : List Chunk) (st : Storage)
    → IsUploading time u got st
    → length (accept c got) < u.total_chunks
    → upload_all env u (c ∷ cs) st ≡ upload_all env u cs (saved u c got st)
unfolding upload_all
upload_all_next env time u c cs got st p h =
    ap (λ r. upload_all env u cs r.1) (handle_more env time u c got st p h)

upload_all_lem :
    (env : Env) (time : ℕ) (u : Upload) (cs got : List Chunk) (st : Storage)
    → IsUploading time u got st
    → length (accept_all cs got) < u.total_chunks
    → IsUploading time u (accept_all cs got) (upload_all env u cs st)
      × ((upload_all env u cs st).stored ≡ st.stored)
upload_all_lem env time u [] got st p h = unfold upload_all in (p, refl)
upload_all_lem env time u (c ∷ cs) got st p h =
    let more : length (accept c got) ≤ length (accept_all cs (accept c got)) =
      length-accept_all cs (accept c got) in
    let (p', same) =
      upload_all_lem env time u cs (accept c got) (saved u c got st)
        (saved-IsUploading time u c got st p) h in
    rw (upload_all_next env time u c cs got st p (omega arith)) (p', same ∙ saved_stored u c got st)

-- What the last missing chunk answers and leaves, after chunks that left it missing.
abbrev pub IsFinished : Env → Upload → List Chunk → Storage → Answer × Storage → Type 0
IsFinished env u got st (answer, st') =
    let content = joined 0 u.total_chunks got in
    (answer ≡ finished (place_of env u content) (file_name env u content) (mime_of u.content_type))
    × (st'.stored ≡ (place_of env u content, content) ∷ st.stored)
    × (session_of u.upload_id st'.sessions ≡ none)

finish_opened :
    (env env' : Env) (time : ℕ) (u : Upload) (cs : List Chunk) (c : Chunk) (st : Storage)
    → IsUploading time u [] st
    → IsBelow u.total_chunks (indices (c ∷ cs))
    → length (accept_all cs []) < u.total_chunks
    → length (accept c (accept_all cs [])) ≡ u.total_chunks
    → IsFinished env' u
        (accept c (accept_all cs []))
        st
        (handle_chunk_upload env' u c.index c.content (upload_all env u cs st))
finish_opened env env' time u cs c st p b missing full =
    let got = accept_all cs [] in
    let (p', same) = upload_all_lem env time u cs [] st p missing in
    let (answered, stored, gone) =
      handle_last env' time u c got (upload_all env u cs st) p'
        (accept-IsDistinct c got (accept_all-IsDistinct cs [] tt))
        (accept-IsBelow u.total_chunks c got b.0 (accept_all-IsBelow u.total_chunks cs [] b.1 tt))
        full in
    let content = joined 0 u.total_chunks (accept c got) in
    let file : Location × Bytes = (place_of env' u content, content) in
    (answered, stored ∙ ap (λ old. file ∷ old) same, gone)

upload_all-opened :
    (env : Env) (u : Upload) (c : Chunk) (cs : List Chunk) (st : Storage)
    → session_of u.upload_id st.sessions ≡ none
    → upload_all env u (c ∷ cs) st ≡ upload_all env u (c ∷ cs) (opened env u st)
unfolding upload_all
upload_all-opened env u c cs st new =
    ap (λ r. upload_all env u cs r.1) (opened_lem env u c.index c.content st new)

first_opened :
    (env env' : Env) (u : Upload) (c : Chunk) (st : Storage)
    → session_of u.upload_id st.sessions ≡ none
    → handle_chunk_upload env' u c.index c.content (upload_all env u [] st)
      ≡ handle_chunk_upload env' u c.index c.content (upload_all env u [] (opened env' u st))
unfolding upload_all
first_opened env env' u c st new = opened_lem env' u c.index c.content st new

-- For an upload without a session, whose chunks all have an index below the announced number: if
-- the chunks before the last leave an index missing and the last one completes them, the answer is
-- finished, and exactly one file is stored, the first content of each index in the order of the
-- indices. The order of the chunks and those that were sent again do not matter, and no session is
-- left.
pub handle_chunk_upload-stores :
    (env env' : Env) (u : Upload) (cs : List Chunk) (c : Chunk) (st : Storage)
    → session_of u.upload_id st.sessions ≡ none
    → IsBelow u.total_chunks (indices (c ∷ cs))
    → length (accept_all cs []) < u.total_chunks
    → length (accept c (accept_all cs [])) ≡ u.total_chunks
    → IsFinished env' u
        (accept c (accept_all cs []))
        st
        (handle_chunk_upload env' u c.index c.content (upload_all env u cs st))
handle_chunk_upload-stores env env' u [] c st new b missing full =
    rw (first_opened env env' u c st new) (
      finish_opened env env' env'.now u [] c (opened env' u st) (opened-IsUploading env' u st) b
        missing full)
handle_chunk_upload-stores env env' u (d ∷ cs) c st new b missing full =
    rw (upload_all-opened env u d cs st new) (
      finish_opened env env' env.now u (d ∷ cs) c (opened env u st) (opened-IsUploading env u st) b
        missing full)

continue_opened :
    (env env' : Env) (time : ℕ) (u : Upload) (cs : List Chunk) (c : Chunk) (st : Storage)
    → IsUploading time u [] st
    → length (accept c (accept_all cs [])) < u.total_chunks
    → let (answer, st') = handle_chunk_upload env' u c.index c.content (upload_all env u cs st) in
      (answer ≡ going_on (length (accept c (accept_all cs [])) * 100 / u.total_chunks))
      × (st'.stored ≡ st.stored)
unfolding get_progress
continue_opened env env' time u cs c st p missing =
    let got = accept_all cs [] in
    let fewer : length got ≤ length (accept c got) = length-accept c got in
    let (p', same) = upload_all_lem env time u cs [] st p (omega arith) in
    let some_total : (u.total_chunks == 0) ≡ false = ground arith in
    rw
      (
        handle_more env' time u c got (upload_all env u cs st) p' missing,
        some_total,
        length-indices (accept c got),
      )
      (refl, saved_stored u c got (upload_all env u cs st) ∙ same)

-- For an upload without a session, while an index is missing after the last chunk: the answer is
-- the percentage of the announced chunks whose index has arrived, cut off, and nothing is stored.
pub handle_chunk_upload-continues :
    (env env' : Env) (u : Upload) (cs : List Chunk) (c : Chunk) (st : Storage)
    → session_of u.upload_id st.sessions ≡ none
    → length (accept c (accept_all cs [])) < u.total_chunks
    → let (answer, st') = handle_chunk_upload env' u c.index c.content (upload_all env u cs st) in
      (answer ≡ going_on (length (accept c (accept_all cs [])) * 100 / u.total_chunks))
      × (st'.stored ≡ st.stored)
handle_chunk_upload-continues env env' u [] c st new missing =
    rw (first_opened env env' u c st new) (
      continue_opened env env' env'.now u [] c (opened env' u st) (opened-IsUploading env' u st)
        missing)
handle_chunk_upload-continues env env' u (d ∷ cs) c st new missing =
    rw (upload_all-opened env u d cs st new) (
      continue_opened env env' env.now u (d ∷ cs) c (opened env u st) (opened-IsUploading env u st)
        missing)
