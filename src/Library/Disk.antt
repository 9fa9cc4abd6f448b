-- ===== src/Library/Disk.antt =====
-- The disk that the organizer writes: files by path, and the changes it makes to them one at a time, so
-- that a crash leaves the disk after some of them. A path is what pathlib makes of a text: its folder's
-- parts and its name. A file's content is the list of its bytes; that of a text file the list of its
-- characters, each of which stands for the bytes of its UTF-8, so that the codec itself is left out.
pub mod Laws
pub mod Paths
pub mod Again
use fetcharr.Base.{
  ℕ, Bool, true, false, ◌&&◌, Option, none, some, List, [], ◌∷◌, ◌++◌, ◌==◌, ◌||◌, not, keep, codes,
  take, is_some, Text, text_eq, if◌then◌else◌,
}

pub record FilePath : Type 0 where
  pub folder : List Text
  pub name : Text

-- `text.split("/")`
unfoldable pub split_parts : Text → List Text
split_parts [] = [] ∷ []
split_parts (c ∷ s) = elim (split_parts s) [
  | [] ↦ []
  | part ∷ parts ↦ if c == b'/' then [] ∷ part ∷ parts else (c ∷ part) ∷ parts
]

-- A part that pathlib leaves out of a path.
unfoldable pub is_void : Text → Bool
is_void part = text_eq part [] || text_eq part (codes ".")

unfoldable pub from_parts : List Text → FilePath
from_parts [] = record { folder = []; name = [] }
from_parts (part ∷ []) = record { folder = []; name = part }
from_parts (part ∷ next ∷ parts) =
    let path = from_parts (next ∷ parts) in record path { folder = part ∷ path.folder }

-- `Path(text)` of an absolute path
unfoldable pub path_of : Text → FilePath
unfolding from_parts
path_of text = from_parts (keep (λ part. not (is_void part)) (split_parts text))

unfoldable pub slashed : List Text → Text
slashed [] = []
slashed (part ∷ parts) = b'/' ∷ part ++ slashed parts

-- `str(path)`
unfoldable pub path_text : FilePath → Text
unfolding slashed
path_text path = slashed (path.folder ++ path.name ∷ [])

abbrev begins_line : Text → Bool
begins_line [] = false
begins_line (c ∷ s) = c == 10

-- What `read_text` makes of the line ends of a file: a carriage return, and one with the newline after
-- it, is a newline.
unfoldable pub universal_newlines : Text → Text
universal_newlines [] = []
universal_newlines (c ∷ s) =
    let rest = universal_newlines s in
    if c == 13 then (if begins_line s then rest else 10 ∷ rest) else c ∷ rest

-- `posixpath.join`, for one more part
unfoldable pub join_part : Text → Text → Text
join_part path [] = path ++ codes "/"
join_part path (c ∷ part) =
    if c == b'/' || text_eq path [] then c ∷ part else path ++ b'/' ∷ c ∷ part

-- `path.joinpath(*parts)`
unfoldable pub join_parts : Text → List Text → Text
join_parts path [] = path
join_parts path (part ∷ parts) = join_parts (join_part path part) parts

abbrev pub same_folder : List Text → List Text → Bool
same_folder [] [] = true
same_folder [] (_ ∷ _) = false
same_folder (_ ∷ _) [] = false
same_folder (s ∷ a) (t ∷ b) = text_eq s t && same_folder a b

unfoldable pub same_path : FilePath → FilePath → Bool
same_path p q = text_eq p.name q.name && same_folder p.folder q.folder

abbrev pub Content : Type 0
Content = List ℕ

abbrev pub Disk : Type 0
Disk = List (FilePath × Content)

-- A file's content, where there is one.
unfoldable pub content : FilePath → Disk → Option Content
content p [] = none
content p ((q, c) ∷ disk) = let rest = content p disk in if same_path q p then some c else rest

unfoldable pub without : FilePath → Disk → Disk
without p [] = []
without p ((q, c) ∷ disk) =
    let rest = without p disk in if same_path q p then rest else (q, c) ∷ rest

unfoldable pub save : FilePath → Content → Disk → Disk
save p c disk = (p, c) ∷ without p disk

abbrev pub exists : FilePath → Disk → Bool
exists p disk = is_some (content p disk)

-- The changes: `unlink`, `os.rename` or `os.replace`, the opening of a file to write it, and the write
-- of one more byte to it.
pub data Effect : Type 0 where
  unlinked : FilePath → Effect
  renamed : FilePath → FilePath → Effect
  opened : FilePath → Effect
  wrote : FilePath → ℕ → Effect

unfoldable pub renamed_to : FilePath → FilePath → Option Content → Disk → Disk
renamed_to p q none disk = disk
renamed_to p q (some c) disk = save q c (without p disk)

unfoldable pub appended : FilePath → ℕ → Option Content → Disk → Disk
appended p byte none disk = save p (byte ∷ []) disk
appended p byte (some c) disk = save p (c ++ byte ∷ []) disk

unfoldable pub apply : Effect → Disk → Disk
unfolding renamed_to appended
apply (unlinked p) disk = without p disk
apply (renamed p q) disk = renamed_to p q (content p disk) disk
apply (opened p) disk = save p [] disk
apply (wrote p byte) disk = appended p byte (content p disk) disk

unfoldable pub run : List Effect → Disk → Disk
run [] disk = disk
run (e ∷ effects) disk = run effects (apply e disk)

-- The disk that a crash leaves after so many of the changes.
unfoldable pub crashed : ℕ → List Effect → Disk → Disk
crashed k effects disk = run (take k effects) disk
