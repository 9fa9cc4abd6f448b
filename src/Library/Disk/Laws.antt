-- ===== src/Library/Disk/Laws.antt =====
-- The laws of the disk: what a file's content is after a change.
use fetcharr.Base.{
  length, ◌≤◌, ◌<◌, ℕ, zero, suc, ◌≡◌, refl, ◌↔◌, Bool, true, none, some, List, [], ◌∷◌, ◌++◌,
  arith, text_eq_iff, if◌then◌else◌, not, ◌&&◌, Option-cases, inl, inr,
}
use fetcharr.Library.Disk.{
  FilePath, Content, Disk, same_folder, same_path, content, without, save, Effect, unlinked,
  renamed, opened, wrote, apply, renamed_to, run, crashed,
}

pub same_folder_iff : (a b : List (List ℕ)) → (same_folder a b ≡ true) ↔ (a ≡ b)
same_folder_iff [] [] = ground arith
same_folder_iff [] (t ∷ b) = ground arith
same_folder_iff (s ∷ a) [] = ground arith
same_folder_iff (s ∷ a) (t ∷ b) = ground (arith, text_eq_iff s t, same_folder_iff a b)

pub same_path_iff : (p q : FilePath) → (same_path p q ≡ true) ↔ (p ≡ q)
unfolding same_path
same_path_iff p q = ground (arith, text_eq_iff p.name q.name, same_folder_iff p.folder q.folder)

pub content-without :
    (q p : FilePath) (disk : Disk)
    → content q (without p disk) ≡ (if same_path p q then none else content q disk)
unfolding content without
content-without q p [] = ground arith
content-without q p ((r, c) ∷ disk) =
    ground
      (arith, content-without q p disk, same_path_iff r p, same_path_iff r q, same_path_iff p q)

pub content-save :
    (q p : FilePath) (c : Content) (disk : Disk)
    → content q (save p c disk) ≡ (if same_path p q then some c else content q disk)
unfolding content save
content-save q p c disk = ground (arith, content-without q p disk)

content-renamed_to :
    (q p r : FilePath) (c : Content) (disk : Disk)
    → content q (renamed_to p r (some c) disk)
      ≡ (if same_path r q then some c else if same_path p q then none else content q disk)
unfolding renamed_to
content-renamed_to q p r c disk =
    ground (arith, content-save q r c (without p disk), content-without q p disk)

pub content-renamed :
    (q p r : FilePath) (c : Content) (disk : Disk)
    → content p disk ≡ some c
    → content q (apply (renamed p r) disk)
      ≡ (if same_path r q then some c else if same_path p q then none else content q disk)
unfolding apply
content-renamed q p r c disk h = rw h (content-renamed_to q p r c disk)

pub content-wrote :
    (q p : FilePath) (byte : ℕ) (c : Content) (disk : Disk)
    → content p disk ≡ some c
    → content q (apply (wrote p byte) disk)
      ≡ (if same_path p q then some (c ++ byte ∷ []) else content q disk)
unfolding apply
content-wrote q p byte c disk h = rw h (content-save q p (c ++ byte ∷ []) disk)

pub run-append :
    (first next : List Effect) (disk : Disk) → run (first ++ next) disk ≡ run next (run first disk)
unfolding run
run-append [] next disk = refl
run-append (e ∷ first) next disk = run-append first next (apply e disk)

-- A change that leaves a path alone.
unfoldable pub avoids : FilePath → Effect → Bool
avoids q (unlinked p) = not (same_path p q)
avoids q (renamed p r) = not (same_path p q) && not (same_path r q)
avoids q (opened p) = not (same_path p q)
avoids q (wrote p byte) = not (same_path p q)

content-apply-avoids :
    (q : FilePath) (e : Effect) (disk : Disk)
    → avoids q e ≡ true
    → content q (apply e disk) ≡ content q disk
unfolding avoids apply
content-apply-avoids q (unlinked p) disk h = ground (arith, content-without q p disk)
content-apply-avoids q (renamed p r) disk h = elim (Option-cases (content p disk)) [
  | inl e ↦ rw e refl
  | inr (c, e) ↦ ground (arith, content-renamed q p r c disk e)
]
content-apply-avoids q (opened p) disk h = ground (arith, content-save q p [] disk)
content-apply-avoids q (wrote p byte) disk h = elim (Option-cases (content p disk)) [
  | inl e ↦ ground (arith, e, content-save q p (byte ∷ []) disk)
  | inr (c, e) ↦ ground (arith, content-wrote q p byte c disk e)
]

abbrev pub all_avoid : FilePath → List Effect → Bool
all_avoid q [] = true
all_avoid q (e ∷ effects) = avoids q e && all_avoid q effects

-- What changes leave alone, they leave alone wherever they stop.
pub content-crashed :
    (q : FilePath) (k : ℕ) (effects : List Effect) (disk : Disk)
    → all_avoid q effects ≡ true
    → content q (crashed k effects disk) ≡ content q disk
unfolding crashed run
content-crashed q zero effects disk h = refl
content-crashed q (suc k) [] disk h = refl
content-crashed q (suc k) (e ∷ effects) disk h =
    ground (arith, content-crashed q k effects (apply e disk), content-apply-avoids q e disk)

length-without_le : (p : FilePath) (disk : Disk) → length (without p disk) ≤ length disk
unfolding without
length-without_le p [] = omega arith
length-without_le p ((q, c) ∷ disk) = ground (arith, length-without_le p disk)

pub length-without :
    (p : FilePath) (c : Content) (disk : Disk)
    → content p disk ≡ some c
    → length (without p disk) < length disk
unfolding content without
length-without p c [] h = absurd (ground (arith, h))
length-without p c ((q, x) ∷ disk) h =
    ground (arith, h, length-without p c disk, length-without_le p disk)
