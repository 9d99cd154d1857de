-- ===== src/Webserver.antt =====
-- src/webserver.c: the files that the web server of libupnp serves out of memory.
pub mod Reading
pub mod Slices
pub mod Serving
use gmrender_resurrect_silan.Base.{
  ℕ, zero, suc, ◌+◌, ◌-◌, ◌^◌, ◌%◌, Bool, true, false, ◌||◌, Option, none, some, List, [], ◌∷◌,
  Text, strlen, text_eq, ltb, leb, ◌==◌, if◌then◌else◌,
}
use gmrender_resurrect_silan.Base.Int.{ℤ, pos, negsuc, minus_one, ◌+ℤ◌, ltb_ℤ}
use gmrender_resurrect_silan.Base.Outcome.{Outcome, done, fault, overrun}

-- struct virtual_file; contents that are NULL are `[]`, with the length 0
pub record VirtualFile : Type 0 where
  pub virtual_fname : Text
  pub contents : Text
  pub content_type : Text
  pub len : ℕ

-- webserver_register_buf: the new entry stands first.
unfoldable pub register_buf : Text → Text → Text → List VirtualFile → ℤ × List VirtualFile
register_buf path contents content_type files = (
  pos 0,
  record {
    virtual_fname = path;
    contents = contents;
    content_type = content_type;
    len = strlen contents;
  }
      ∷ files,
)

-- What the file system says of a file: its size, if stat succeeds, and its bytes, if they can be read.
pub record LocalFile : Type 0 where
  pub st_size : Option ℕ
  pub bytes : Option Text

abbrev pub add_file : Text → Text → ℕ → Option Text → List VirtualFile → ℤ × List VirtualFile
add_file path content_type size none files = (minus_one, files)
add_file path content_type size (some bytes) files = (
  pos 0,
  record { virtual_fname = path; contents = bytes; content_type = content_type; len = size }
      ∷ files,
)

-- webserver_register_file. A file of size 0 is not read.
unfoldable pub register_file : Text → Text → LocalFile → List VirtualFile → ℤ × List VirtualFile
register_file path content_type local files = elim local.st_size [
  | none ↦ (minus_one, files)
  | some size ↦ add_file path content_type size (if size == 0 then some [] else local.bytes) files
]

-- The search that webserver_get_info and webserver_open have alike.
unfoldable pub find_file : Text → List VirtualFile → Option VirtualFile
find_file filename [] = none
find_file filename (f ∷ files) =
    if text_eq filename f.virtual_fname then some f else find_file filename files

-- `struct File_Info`, as webserver_get_info fills it in
pub record FileInfo : Type 0 where
  pub file_length : ℕ
  pub last_modified : ℕ
  pub is_directory : Bool
  pub is_readable : Bool
  pub info_content_type : Text

abbrev pub info_of : Option VirtualFile → ℤ × Option FileInfo
info_of none = (minus_one, none)
info_of (some f) = (
  pos 0,
  some (record {
    file_length = f.len;
    last_modified = 0;
    is_directory = false;
    is_readable = true;
    info_content_type = f.content_type;
  }),
)

-- webserver_get_info
unfoldable pub get_info : Text → List VirtualFile → ℤ × Option FileInfo
unfolding find_file
get_info filename files = info_of (find_file filename files)

-- WebServerFile
pub record WebServerFile : Type 0 where
  pub position : ℕ
  pub file_contents : Text
  pub file_len : ℕ

abbrev pub opened : Option VirtualFile → Option WebServerFile
opened none = none
opened (some f) = some (record { position = 0; file_contents = f.contents; file_len = f.len })

-- webserver_open, whose mode is for reading or not
unfoldable pub open_file : Text → Bool → List VirtualFile → Option WebServerFile
unfolding find_file
open_file filename true files = opened (find_file filename files)
open_file filename false files = none

-- A `size_t` as an `int`: the lowest 32 bits, with the sign.
abbrev pub to_int : ℕ → ℤ
to_int n = let low = n % 2 ^ 32 in if ltb low (2 ^ 31) then pos low else negsuc (2 ^ 32 - 1 - low)

-- minimum
abbrev pub minimum : ℤ → ℤ → ℤ
minimum a b = if ltb_ℤ a b then a else b

abbrev pub take : ℕ → Text → Text
take zero t = []
take (suc n) [] = []
take (suc n) (a ∷ t) = a ∷ take n t

abbrev pub drop : ℕ → Text → Text
drop zero t = t
drop (suc n) [] = []
drop (suc n) (a ∷ t) = drop n t

-- The memcpy and what follows it; a negative length is a very large `size_t`.
abbrev pub copy_out : ℤ → WebServerFile → Outcome (ℤ × Text × WebServerFile)
copy_out (negsuc n) f = fault overrun
copy_out (pos n) f =
    done (pos n, take n (drop f.position f.file_contents), record f { position = f.position + n })

-- webserver_read, with what it puts into the buffer
unfoldable pub read : ℕ → WebServerFile → Outcome (ℤ × Text × WebServerFile)
read buflen f = copy_out (minimum (to_int buflen) (to_int (f.file_len - f.position))) f

-- webserver_write
unfoldable pub write : Text → WebServerFile → ℤ
write buf f = minus_one

-- SEEK_SET, SEEK_CUR and SEEK_END
abbrev pub new_position : ℤ → ℕ → WebServerFile → ℤ
new_position offset origin f =
    if origin == 0
    then offset
    else if origin == 1
    then pos f.position +ℤ offset
    else if origin == 2
    then pos f.file_len +ℤ offset
    else minus_one

abbrev pub moved : ℤ → WebServerFile → ℤ × WebServerFile
moved (negsuc n) f = (minus_one, f)
moved (pos n) f = if ltb f.file_len n then (minus_one, f) else (pos 0, record f { position = n })

-- webserver_seek
unfoldable pub seek : ℤ → ℕ → WebServerFile → ℤ × WebServerFile
seek offset origin f = moved (new_position offset origin f) f
