-- ===== src/Upload/Progress.antt =====
-- The session and the chunk files of an upload that goes on.
use microservice_metarang.Prelude.{
  ℕ, zero, suc, ◌+◌, ◌<◌, true, false, none, some, List, [], ◌∷◌, ◌≡◌, ==_refl, ◌==◌, refl,
  if◌then◌else◌, arith, All, Bool-cases, inl, inr,
}
use microservice_metarang.Upload.Session.{
  Bytes, same, ChunkSession, ChunkFile, Storage, Upload, Env, session_of, member, read_chunk,
  write_chunk, mark, save_chunk, get_or_create_session, assemble_from, drop_session,
}
use microservice_metarang.Upload.Handle.{Chunk}
use microservice_metarang.Upload.Accepted.{indices, accept, content_at, joined}

pub same_refl : (a : Bytes) → same a a ≡ true
same_refl [] = refl
same_refl (b ∷ bs) = ground (arith, same_refl bs)

-- The session of an upload that was opened at a time and has got some chunks.
abbrev pub session_at : ℕ → Upload → List Chunk → ChunkSession
session_at time u got = record {
  upload_id = u.upload_id;
  filename = u.filename;
  content_type = u.content_type;
  total_chunks = u.total_chunks;
  total_size = u.total_size;
  upload_path = u.upload_path;
  received = indices got;
  created_at = time;
}

abbrev pub IsKept : Bytes → List ChunkFile → List Chunk → Type 0
IsKept id fs = All (λ c. read_chunk id c.index fs ≡ some c.content)

pub session_of-mark :
    (id : Bytes) (i : ℕ) (ss : List ChunkSession) (s : ChunkSession)
    → session_of id ss ≡ some s
    → session_of id (mark id i ss) ≡ some (record s { received = i ∷ s.received })
session_of-mark id i [] s h = cc
session_of-mark id i (t ∷ ss) s h = ground (arith, session_of-mark id i ss s)

read_chunk-write_chunk :
    (id : Bytes) (i j : ℕ) (content : Bytes) (fs : List ChunkFile)
    → read_chunk id j (write_chunk id i content fs)
      ≡ (if i == j then some content else read_chunk id j fs)
unfolding read_chunk
read_chunk-write_chunk id i j content fs = ground (arith, same_refl id)

pub write_chunk-IsKept :
    (id : Bytes) (i : ℕ) (content : Bytes) (fs : List ChunkFile) (got : List Chunk)
    → member i (indices got) ≡ false
    → IsKept id fs got
    → IsKept id (write_chunk id i content fs) got
write_chunk-IsKept id i content fs [] h k = tt
write_chunk-IsKept id i content fs (c ∷ got) h k = (
  rw (read_chunk-write_chunk id i c.index content fs) (ground (arith, k.0)),
  write_chunk-IsKept id i content fs got (ground arith) k.1,
)

-- The storage once the chunk is saved.
abbrev pub saved : Upload → Chunk → List Chunk → Storage → Storage
saved u c got st = if member c.index (indices got) then st else record st {
  sessions = mark u.upload_id c.index st.sessions;
  chunk_files = write_chunk u.upload_id c.index c.content st.chunk_files;
}

-- What holds of the storage while an upload goes on.
pub record IsUploading (time : ℕ) (u : Upload) (got : List Chunk) (st : Storage) : Type 0 where
  pub held : session_of u.upload_id st.sessions ≡ some (session_at time u got)
  pub kept : IsKept u.upload_id st.chunk_files got

pub saved-IsUploading :
    (time : ℕ) (u : Upload) (c : Chunk) (got : List Chunk) (st : Storage)
    → IsUploading time u got st
    → IsUploading time u (accept c got) (saved u c got st)
saved-IsUploading time u c got st p = elim (Bool-cases (member c.index (indices got))) [
  | inl e ↦ rw e p
  | inr e ↦ rw e (record {
    held = session_of-mark u.upload_id c.index st.sessions (session_at time u got) p.held;
    kept = (
      rw (read_chunk-write_chunk u.upload_id c.index c.index c.content st.chunk_files)
          (ground (arith, ==_refl c.index)),
      write_chunk-IsKept u.upload_id c.index c.content st.chunk_files got e p.kept,
    );
  })
]

pub save_chunk_lem :
    (time : ℕ) (u : Upload) (c : Chunk) (got : List Chunk) (st : Storage)
    → save_chunk (session_at time u got) c.index c.content st
      ≡ (session_at time u (accept c got), saved u c got st)
unfolding save_chunk
save_chunk_lem time u c got st = ground arith

pub found_lem :
    (env : Env) (time : ℕ) (u : Upload) (got : List Chunk) (st : Storage)
    → IsUploading time u got st
    → get_or_create_session env u st ≡ (session_at time u got, st)
unfolding get_or_create_session
found_lem env time u got st p = rw p.held refl

pub content_at-IsKept :
    (id : Bytes) (i : ℕ) (fs : List ChunkFile) (got : List Chunk)
    → IsKept id fs got
    → member i (indices got) ≡ true
    → read_chunk id i fs ≡ some (content_at i got)
content_at-IsKept id i fs [] k h = cc
content_at-IsKept id i fs (c ∷ got) k h = ground (arith, k.0, content_at-IsKept id i fs got k.1)

-- If every index is there, the assembled file is the contents in the order of the indices.
pub assemble_from-joined :
    (id : Bytes) (i rounds : ℕ) (fs : List ChunkFile) (got : List Chunk)
    → IsKept id fs got
    → ((j : ℕ) → j < i + rounds → member j (indices got) ≡ true)
    → assemble_from id i rounds fs ≡ some (joined i rounds got)
unfolding assemble_from
assemble_from-joined id i zero fs got k h = refl
assemble_from-joined id i (suc rounds) fs got k h = ground (
  arith,
  content_at-IsKept id i fs got k (h i (omega arith)),
  assemble_from-joined id (suc i) rounds fs got k (λ j l. h j (omega arith)),
)

pub session_of-drop_session :
    (id : Bytes) (ss : List ChunkSession) → session_of id (drop_session id ss) ≡ none
session_of-drop_session id [] = refl
session_of-drop_session id (s ∷ ss) = ground (arith, session_of-drop_session id ss)
