-- ===== src/Upload/Session.antt =====
-- services/storage-service/internal/service/chunk_manager.go: sessions, and the chunks that they
-- keep as files. Texts and file contents are lists of bytes. The chunk files of a session are told
-- apart by its upload id and the index; directories and files can always be written.
use microservice_metarang.Prelude.{
  ℕ, zero, suc, ◌-◌, ◌*◌, ◌/◌, Bool, true, false, ◌&&◌, ◌||◌, Option, none, some, List, [], ◌∷◌,
  ◌++◌, ltb, ◌==◌, if◌then◌else◌, length,
}

abbrev pub Bytes : Type 0
Bytes = List ℕ

abbrev pub same : Bytes → Bytes → Bool
same [] [] = true
same (a ∷ as') (b ∷ bs) = a == b && same as' bs
same _ _ = false

-- `received` holds the keys of the map `ReceivedChunks`, each once.
pub record ChunkSession : Type 0 where
  pub upload_id : Bytes
  pub filename : Bytes
  pub content_type : Bytes
  pub total_chunks : ℕ
  pub total_size : ℕ
  pub upload_path : Bytes
  pub received : List ℕ
  pub created_at : ℕ

-- A chunk file `chunk_<index>` in the directory of an upload.
pub record ChunkFile : Type 0 where
  pub upload_id : Bytes
  pub index : ℕ
  pub content : Bytes

-- Where an assembled file goes: below the path of the request, or `uploads/<mime>/<date>`.
pub data Location : Type 0 where
  below : Bytes → Bytes → Location
  dated : Bytes → Bytes → Bytes → Location

pub record Storage : Type 0 where
  pub sessions : List ChunkSession
  pub chunk_files : List ChunkFile
  pub stored : List (Location × Bytes)

-- What an upload request says of its file.
pub record Upload : Type 0 where
  pub upload_id : Bytes
  pub filename : Bytes
  pub content_type : Bytes
  pub total_chunks : ℕ
  pub total_size : ℕ
  pub upload_path : Bytes

-- What the code does not implement: the MD5 sum in hexadecimal.
pub record Env : Type 0 where
  pub now : ℕ
  pub today : Bytes
  pub hash : Bytes → Bytes

abbrev pub session_of : Bytes → List ChunkSession → Option ChunkSession
session_of id [] = none
session_of id (s ∷ ss) = if same s.upload_id id then some s else session_of id ss

abbrev pub new_session : Env → Upload → ChunkSession
new_session env u = record {
  upload_id = u.upload_id;
  filename = u.filename;
  content_type = u.content_type;
  total_chunks = u.total_chunks;
  total_size = u.total_size;
  upload_path = u.upload_path;
  received = [];
  created_at = env.now;
}

abbrev pub found_or_new : Env → Upload → Option ChunkSession → Storage → ChunkSession × Storage
found_or_new env u (some s) st = (s, st)
found_or_new env u none st =
    let s = new_session env u in (s, record st { sessions = s ∷ st.sessions })

unfoldable pub get_or_create_session : Env → Upload → Storage → ChunkSession × Storage
get_or_create_session env u st = found_or_new env u (session_of u.upload_id st.sessions) st

abbrev pub member : ℕ → List ℕ → Bool
member i [] = false
member i (j ∷ js) = if i == j then true else member i js

abbrev pub is_chunk : Bytes → ℕ → ChunkFile → Bool
is_chunk id i f = f.index == i && same f.upload_id id

unfoldable pub read_chunk : Bytes → ℕ → List ChunkFile → Option Bytes
read_chunk id i [] = none
read_chunk id i (f ∷ fs) = if is_chunk id i f then some f.content else read_chunk id i fs

-- `os.WriteFile` puts the new content in place of an old one.
abbrev pub write_chunk : Bytes → ℕ → Bytes → List ChunkFile → List ChunkFile
write_chunk id i content fs = record { upload_id = id; index = i; content = content } ∷ fs

-- The session is shared: its mark shows in the table of sessions.
abbrev pub mark : Bytes → ℕ → List ChunkSession → List ChunkSession
mark id i [] = []
mark id i (s ∷ ss) =
    if same s.upload_id id then record s { received = i ∷ s.received } ∷ ss else s ∷ mark id i ss

unfoldable pub save_chunk : ChunkSession → ℕ → Bytes → Storage → ChunkSession × Storage
save_chunk s i content st = if member i s.received then (s, st) else (
  record s { received = i ∷ s.received },
  record st {
    sessions = mark s.upload_id i st.sessions;
    chunk_files = write_chunk s.upload_id i content st.chunk_files;
  },
)

-- The percentage, cut off to a whole number.
unfoldable pub get_progress : ChunkSession → ℕ
get_progress s = if s.total_chunks == 0 then 0 else length s.received * 100 / s.total_chunks

unfoldable pub is_complete : ChunkSession → Bool
is_complete s = length s.received == s.total_chunks

-- The loop of AssembleFile over the indices from i on, `rounds` of them; a file that cannot be read
-- ends it.
abbrev pub prepend : Bytes → Option Bytes → Option Bytes
prepend a none = none
prepend a (some b) = some (a ++ b)

unfoldable pub assemble_from : Bytes → ℕ → ℕ → List ChunkFile → Option Bytes
assemble_from id i zero fs = some []
assemble_from id i (suc rounds) fs =
    let rest = assemble_from id (suc i) rounds fs in
    elim (read_chunk id i fs) [ none ↦ none | some a ↦ prepend a rest ]

-- `filepath.Ext`: from the last dot of the last path element on.
abbrev ext_from : Bytes → Bytes → Bytes
ext_from found [] = found
ext_from found (c ∷ cs) =
    ext_from (if c == b'/' then [] else (if c == b'.' then c ∷ cs else found)) cs

unfoldable pub ext : Bytes → Bytes
ext name = ext_from [] name

unfoldable pub create_unique_filename : Env → Bytes → Bytes → Bytes
create_unique_filename env original content = env.hash content ++ ext original

-- `strings.Split(mime, ";")[0]`
unfoldable pub before_semicolon : Bytes → Bytes
before_semicolon [] = []
before_semicolon (c ∷ cs) = if c == b';' then [] else c ∷ before_semicolon cs

-- The blanks of ASCII; a MIME type holds no others.
abbrev is_space : ℕ → Bool
is_space c = c == 32 || (c == 9 || (c == 10 || (c == 11 || (c == 12 || c == 13))))

unfoldable pub trim_left : Bytes → Bytes
trim_left [] = []
trim_left (c ∷ cs) = if is_space c then trim_left cs else c ∷ cs

abbrev all_space : Bytes → Bool
all_space [] = true
all_space (c ∷ cs) = is_space c && all_space cs

unfoldable pub trim_right : Bytes → Bytes
trim_right [] = []
trim_right (c ∷ cs) = if all_space (c ∷ cs) then [] else c ∷ trim_right cs

unfoldable pub mime_of : Bytes → Bytes
unfolding before_semicolon trim_left trim_right
mime_of content_type = trim_right (trim_left (before_semicolon content_type))

unfoldable pub slashes_to_dashes : Bytes → Bytes
slashes_to_dashes [] = []
slashes_to_dashes (c ∷ cs) = (if c == b'/' then b'-' else c) ∷ slashes_to_dashes cs

abbrev pub location : Env → ChunkSession → Bytes → Location
location env s name = elim s.upload_path [
  | [] ↦ dated (slashes_to_dashes (mime_of s.content_type)) env.today name
  | c ∷ cs ↦ below (c ∷ cs) name
]

-- The assembled content, its location and its name.
unfoldable pub assemble_file : Env → ChunkSession → Storage → Option (Bytes × Location × Bytes)
unfolding create_unique_filename
assemble_file env s st = elim (assemble_from s.upload_id 0 s.total_chunks st.chunk_files) [
  | none ↦ none
  | some content ↦
      let name = create_unique_filename env s.filename content in
      some (content, location env s name, name)
]

abbrev pub drop_session : Bytes → List ChunkSession → List ChunkSession
drop_session id [] = []
drop_session id (s ∷ ss) =
    if same s.upload_id id then drop_session id ss else s ∷ drop_session id ss

abbrev pub drop_chunks : Bytes → List ChunkFile → List ChunkFile
drop_chunks id [] = []
drop_chunks id (f ∷ fs) = if same f.upload_id id then drop_chunks id fs else f ∷ drop_chunks id fs

abbrev pub has_session : Option ChunkSession → Bool
has_session none = false
has_session (some s) = true

-- The files go with the session: without one nothing is removed.
unfoldable pub cleanup_session : Bytes → Storage → Storage
cleanup_session id st =
    if has_session (session_of id st.sessions)
    then record st {
      sessions = drop_session id st.sessions;
      chunk_files = drop_chunks id st.chunk_files;
    }
    else st

-- One round of the clean-up goroutine: sessions older than 24 hours go, with their files.
abbrev pub is_expired : ℕ → ChunkSession → Bool
is_expired now s = ltb 86400 (now - s.created_at)

unfoldable pub cleanup_expired : ℕ → List ChunkSession → Storage → Storage
cleanup_expired now [] st = st
cleanup_expired now (s ∷ ss) st =
    cleanup_expired now ss (if is_expired now s then cleanup_session s.upload_id st else st)
