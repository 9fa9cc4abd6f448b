-- ===== src/Jobs/Manager/Buffer.antt =====
-- The lines of a job's log that wait to be written: backend/app/jobs/manager.py, `on_log`.
use fetcharr.Base.{
  ℕ, zero, suc, ◌+◌, ◌-◌, ◌≤◌, String, ◌≡◌, refl, sym, ap, ◌∙◌, List, [], ◌∷◌, ◌++◌, drop, length,
  length-append, length-drop, append_nil, append_assoc, arith,
}
use fetcharr.Jobs.Manager.{buffer}

drop-append : (n : ℕ) (xs ys : List String) → n ≤ length xs → drop n (xs ++ ys) ≡ drop n xs ++ ys
drop-append zero xs ys h = refl
drop-append (suc n) [] ys h = absurd (omega (arith, h))
drop-append (suc n) (x ∷ xs) ys h = drop-append n xs ys (omega (arith, h))

drop_nil : (n : ℕ) → drop {A = String} n [] ≡ []
drop_nil zero = refl
drop_nil (suc n) = refl

drop-drop : (m n : ℕ) (xs : List String) → drop m (drop n xs) ≡ drop (n + m) xs
drop-drop m zero xs = ap (λ n. drop n xs) (omega arith)
drop-drop m (suc n) [] = drop_nil m ∙ sym (drop_nil (suc n + m))
drop-drop m (suc n) (x ∷ xs) =
    let same : suc (n + m) ≡ suc n + m = omega arith in
    drop-drop m n xs ∙ ap (λ k. drop k (x ∷ xs)) same

-- The lines that wait after so many more were logged.
pub buffer_all : List String → List String → List String
buffer_all [] pending = pending
buffer_all (line ∷ lines) pending = buffer_all lines (buffer line pending)

-- The newest 500 lines.
abbrev pub newest : List String → List String
newest lines = drop (length lines - 500) lines

buffer-newest :
    (line : String) (seen : List String) → buffer line (newest seen) ≡ newest (seen ++ line ∷ [])
unfolding buffer
buffer-newest line seen =
    let k = length seen - 500 in
    let all = seen ++ line ∷ [] in
    let joined : newest seen ++ line ∷ [] ≡ drop k all =
      sym (drop-append k seen (line ∷ []) (omega arith)) in
    rw (joined, drop-drop (length (drop k all) - 500) k all)
      (ap (λ n. drop n all) (omega (arith, length-drop k all, length-append seen (line ∷ []))))

buffer_all-newest :
    (lines seen : List String) → buffer_all lines (newest seen) ≡ newest (seen ++ lines)
unfolding buffer_all
buffer_all-newest [] seen = rw (append_nil seen) refl
buffer_all-newest (line ∷ lines) seen =
    ap (buffer_all lines) (buffer-newest line seen)
    ∙ buffer_all-newest lines (seen ++ line ∷ [])
    ∙ ap newest (append_assoc seen (line ∷ []) lines)

-- However many lines are logged before they are written, the newest 500 wait, in their order.
pub buffer-keeps : (lines : List String) → buffer_all lines [] ≡ newest lines
buffer-keeps lines = buffer_all-newest lines []
