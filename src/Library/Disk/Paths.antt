-- ===== src/Library/Disk/Paths.antt =====
-- A path's text and back: what pathlib's `str` and `Path` do to the paths of the library.
use fetcharr.Base.{
  ℕ, ltb, ◌||◌, ◌==◌, ◌≡◌, refl, ap, ◌∙◌, Bool, true, not, ◌&&◌, List, [], ◌∷◌, ◌++◌, keep, each,
  arith, Text,
}
use fetcharr.Library.Disk.{
  FilePath, split_parts, is_void, from_parts, path_of, slashed, path_text, universal_newlines,
}

abbrev is_kept : ℕ → Bool
is_kept c = not (c == b'/') && not (c == 13)

-- A character that has an encoding: no surrogate.
abbrev is_scalar : ℕ → Bool
is_scalar c = ltb c 55296 || ltb 57343 c

-- A part of a path that a text file can hold: no separator, no carriage return, which reading makes a
-- newline, no surrogate, which writing refuses, and none of the parts that pathlib leaves out.
abbrev pub is_plain : Text → Bool
is_plain part = each is_kept part && (each is_scalar part && not (is_void part))

split_parts-slashed :
    (part : Text) (parts : List Text)
    → each is_kept part ≡ true
    → each is_plain parts ≡ true
    → split_parts (part ++ slashed parts) ≡ part ∷ parts
unfolding split_parts slashed
split_parts-slashed [] [] h hs = refl
split_parts-slashed [] (next ∷ parts) h hs =
    rw (split_parts-slashed next parts (ground arith) (ground arith)) refl
split_parts-slashed (c ∷ part) parts h hs = ground (arith, split_parts-slashed part parts)

keep-plain :
    (parts : List Text)
    → each is_plain parts ≡ true
    → keep (λ part. not (is_void part)) parts ≡ parts
keep-plain [] h = refl
keep-plain (part ∷ parts) h = ground (arith, keep-plain parts)

from_parts-snoc :
    (folder : List Text) (name : Text)
    → from_parts (folder ++ name ∷ []) ≡ record { folder = folder; name = name }
unfolding from_parts
from_parts-snoc [] name = refl
from_parts-snoc (part ∷ []) name = refl
from_parts-snoc (part ∷ next ∷ folder) name = rw (from_parts-snoc (next ∷ folder) name) refl

parts-slashed :
    (parts : List Text)
    → each is_plain parts ≡ true
    → keep (λ part. not (is_void part)) (split_parts (slashed parts)) ≡ parts
unfolding is_void
parts-slashed parts h =
    ap (keep (λ part. not (is_void part))) (split_parts-slashed [] parts refl h)
    ∙ keep-plain parts h

-- A path that is written as a text is read as the same path.
pub path_of-path_text :
    (path : FilePath)
    → each is_plain (path.folder ++ path.name ∷ []) ≡ true
    → path_of (path_text path) ≡ path
unfolding path_of path_text
path_of-path_text path h =
    ap from_parts (parts-slashed (path.folder ++ path.name ∷ []) h)
    ∙ from_parts-snoc path.folder path.name

universal_newlines-append :
    (part s : Text)
    → each is_kept part ≡ true
    → universal_newlines s ≡ s
    → universal_newlines (part ++ s) ≡ part ++ s
unfolding universal_newlines
universal_newlines-append [] s h same = same
universal_newlines-append (c ∷ part) s h same =
    ground (arith, h, universal_newlines-append part s (ground (arith, h)) same)

universal_newlines-slashed :
    (parts : List Text)
    → each is_plain parts ≡ true
    → universal_newlines (slashed parts) ≡ slashed parts
unfolding universal_newlines slashed
universal_newlines-slashed [] h = refl
universal_newlines-slashed (part ∷ parts) h =
    ap (λ s. b'/' ∷ s)
      (universal_newlines-append part (slashed parts) (ground (arith, h))
        (universal_newlines-slashed parts (ground (arith, h))))

-- A path that is written to a text file is read from it as the same path.
pub path_of-universal_newlines :
    (path : FilePath)
    → each is_plain (path.folder ++ path.name ∷ []) ≡ true
    → path_of (universal_newlines (path_text path)) ≡ path
unfolding path_text
path_of-universal_newlines path h =
    ap path_of (universal_newlines-slashed (path.folder ++ path.name ∷ []) h)
    ∙ path_of-path_text path h
