-- ===== src/Web/Files.antt =====
-- src/web/media.rs: the sound files of the page, `safe_name`, `upload`, `serve_file` and `delete`.
-- The media directory is a list of names and contents; whether a content is a WAV file is for the
-- hound crate to say, and whether the directory takes a write is an argument.
use sipbot.Prelude.{
  ℕ, ◌≡◌, refl, arith, ◌||◌, Bool, true, false, not, Option, none, some, is_none, List, [], ◌∷◌,
  length, ltb, keep, if◌then◌else◌, subst, sym,
}
use sipbot.Prelude.Text.{Text, codes, text_eq, text_eq_iff, text_eq_self, trim, to_lowercase}
use sipbot.Prelude.Contains.{contains}

abbrev pub max_upload_bytes : ℕ
max_upload_bytes = 10485760

-- `ends_with`
unfoldable pub ends_with : Text → Text → Bool
ends_with [] p = text_eq [] p
ends_with (c ∷ cs) p = text_eq (c ∷ cs) p || ends_with cs p

abbrev pub is_empty : Text → Bool
is_empty [] = true
is_empty (c ∷ cs) = false

abbrev pub is_unsafe : Text → Bool
is_unsafe name =
    is_empty name
    || (contains name (codes "..") || (contains name (codes "/") || contains name (codes "\\")))

unfoldable pub safe_name : Text → Option Text
unfolding ends_with
safe_name name =
    if is_unsafe (trim name)
    then none
    else if ends_with (to_lowercase (trim name)) (codes ".wav")
    then some (trim name)
    else none

abbrev pub Bytes : Type 0
Bytes = List ℕ

abbrev pub Directory : Type 0
Directory = List (Text × Bytes)

unfoldable pub read : Directory → Text → Option Bytes
read [] name = none
read ((n, body) ∷ rest) name = if text_eq n name then some body else read rest name

unfoldable pub write : Directory → Text → Bytes → Directory
write [] name body = (name, body) ∷ []
write ((n, old) ∷ rest) name body =
    if text_eq n name then (n, body) ∷ rest else (n, old) ∷ write rest name body

unfoldable pub remove_file : Directory → Text → Directory
remove_file dir name = keep (λ (f : Text × Bytes). not (text_eq f.0 name)) dir

pub data Response : Type 0 where
  ok : Response
  content : Bytes → Response
  bad_request : Response
  not_found : Response
  too_large : Response
  server_error : Response

-- A field of a form: whether it is the file, and its bytes, if they can be read.
pub record Field : Type 0 where
  pub is_file : Bool
  pub bytes : Option Bytes

-- What the fields come to: the data, or the response that ends the upload.
pub data Form : Type 0 where
  given : Option Bytes → Form
  refused : Response → Form

unfoldable pub take_field : Option Bytes → Option Bytes → Form
take_field body none = refused bad_request
take_field body (some bytes) =
    if ltb max_upload_bytes (length bytes) then refused too_large else given (some bytes)

-- the loop over the fields; any first field counts as the file
unfoldable pub read_form : Option Bytes → List Field → Form
unfolding take_field
read_form body [] = given body
read_form body (f ∷ fs) =
    if f.is_file || is_none body
    then elim (take_field body f.bytes) [ refused r ↦ refused r | given new ↦ read_form new fs ]
    else read_form body fs

-- What the disk does: whether the directory can be made, and whether a write goes well.
pub record Disk : Type 0 where
  pub can_create : Bool
  pub can_write : Bool

unfoldable pub store :
    (is_wav : Bytes → Bool) → Disk → Text → Bytes → Directory → Response × Directory
unfolding write
store is_wav disk name body dir =
    if disk.can_create
    then if is_wav body
      then if disk.can_write then (ok, write dir name body) else (server_error, dir)
      else (bad_request, dir)
    else (server_error, dir)

unfoldable pub store_form :
    (is_wav : Bytes → Bool) → Disk → Text → Form → Directory → Response × Directory
unfolding store
store_form is_wav disk name (refused r) dir = (r, dir)
store_form is_wav disk name (given none) dir = (bad_request, dir)
store_form is_wav disk name (given (some body)) dir = store is_wav disk name body dir

unfoldable pub upload_to :
    (is_wav : Bytes → Bool) → Disk → Option Text → List Field → Directory → Response × Directory
unfolding store_form read_form
upload_to is_wav disk none fields dir = (bad_request, dir)
upload_to is_wav disk (some name) fields dir =
    store_form is_wav disk name (read_form none fields) dir

unfoldable pub upload :
    (is_wav : Bytes → Bool) → Disk → Text → List Field → Directory → Response × Directory
unfolding safe_name upload_to
upload is_wav disk file fields dir = upload_to is_wav disk (safe_name file) fields dir

unfoldable pub serve : Option Text → Directory → Response
unfolding read
serve none dir = bad_request
serve (some name) dir = elim (read dir name) [ none ↦ not_found | some body ↦ content body ]

unfoldable pub serve_file : Text → Directory → Response
unfolding safe_name serve
serve_file file dir = serve (safe_name file) dir

unfoldable pub delete : Text → Directory → Response × Directory
unfolding safe_name remove_file read
delete file dir = elim (safe_name file) [
  | none ↦ (bad_request, dir)
  | some name ↦ if is_none (read dir name) then (not_found, dir) else (ok, remove_file dir name)
]

read-write :
    (dir : Directory) (name other : Text) (body : Bytes)
    → read (write dir name body) other ≡ (if text_eq name other then some body else read dir other)
unfolding read write
read-write [] name other body = ground arith
read-write ((n, old) ∷ rest) name other body = ground (
  arith,
  text_eq_iff n name,
  text_eq_iff n other,
  text_eq_iff name other,
  read-write rest name other body,
)

stored :
    (is_wav : Bytes → Bool) (disk : Disk) (name : Text) (body : Bytes) (dir : Directory)
    → (store is_wav disk name body dir).0 ≡ ok
    → (store is_wav disk name body dir).1 ≡ write dir name body
unfolding store
stored is_wav disk name body dir h = ground arith

read_back :
    (dir : Directory) (name : Text) (body : Bytes) → read (write dir name body) name ≡ some body
read_back dir name body = rw (read-write dir name name body, text_eq_self name) refl

taken_back :
    (is_wav : Bytes → Bool) (disk : Disk) (name : Text) (body : Bytes) (big : Bool)
    (dir : Directory)
    → (store_form is_wav disk name (if big then refused too_large else given (some body)) dir).0
      ≡ ok
    → serve
        (some name)
        (store_form is_wav disk name (if big then refused too_large else given (some body)) dir).1
      ≡ content body
unfolding store_form serve
taken_back is_wav disk name body true dir h = ground (arith, h)
taken_back is_wav disk name body false dir h =
    rw (serve, stored is_wav disk name body dir h, read_back dir name body) refl

read_form_of_one :
    (f : Field) (body : Bytes)
    → f.bytes ≡ some body
    → read_form none (f ∷ [])
      ≡ (if ltb max_upload_bytes (length body) then refused too_large else given (some body))
unfolding read_form take_field
read_form_of_one f body h = rw h (ground arith)

served :
    (is_wav : Bytes → Bool) (disk : Disk) (named : Option Text) (f : Field) (body : Bytes)
    (dir : Directory)
    → f.bytes ≡ some body
    → (upload_to is_wav disk named (f ∷ []) dir).0 ≡ ok
    → serve named (upload_to is_wav disk named (f ∷ []) dir).1 ≡ content body
unfolding upload_to
served is_wav disk none f body dir has_bytes h = ground (arith, h)
served is_wav disk (some name) f body dir has_bytes h =
    let is_form = read_form_of_one f body has_bytes in
    let taken = taken_back is_wav disk name body (ltb max_upload_bytes (length body)) dir in
    subst
      (λ (x : Form).
        (store_form is_wav disk name x dir).0 ≡ ok
        → serve (some name) (store_form is_wav disk name x dir).1 ≡ content body)
      (sym is_form) taken h

-- A file whose upload goes well, its form having one field, is served from then on with the bytes of
-- that field.
serve_file-upload :
    (is_wav : Bytes → Bool) (disk : Disk) (file : Text) (f : Field) (body : Bytes) (dir : Directory)
    → f.bytes ≡ some body
    → (upload is_wav disk file (f ∷ []) dir).0 ≡ ok
    → serve_file file (upload is_wav disk file (f ∷ []) dir).1 ≡ content body
unfolding upload serve_file
serve_file-upload is_wav disk file f body dir has_bytes went_well =
    served is_wav disk (safe_name file) f body dir has_bytes went_well

-- A name that is let in has no part that leaves the directory.
safe_name_stays :
    (file name : Text)
    → safe_name file ≡ some name
    → (contains name (codes "..") ≡ false)
      × (contains name (codes "/") ≡ false)
      × (contains name (codes "\\") ≡ false)
      × (ends_with (to_lowercase name) (codes ".wav") ≡ true)
unfolding safe_name
safe_name_stays file name h = ground arith
