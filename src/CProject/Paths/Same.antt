-- ===== src/CProject/Paths/Same.antt =====
-- `isSamePath` and `IS_SUB_PATH` against the texts of their arguments.
use footprints_ev.Base.{
  ℕ, suc, ◌+◌, ◌≡◌, ◌↔◌, ◌∙◌, ap, Bool, true, some, List, [], ◌∷◌, ◌++◌, arith, length, drop-all,
  replicate, length-replicate,
}
use footprints_ev.CString.{strcpy}
use footprints_ev.CString.Text.{IsText, strlen-text, strcpy-text, same_string-text}
use footprints_ev.CProject.Paths.{is_same_path}
use footprints_ev.CProject.Paths.Slash.{strip, strip-IsText, remove_slash-text}

-- the copy of a path in an array that just holds it
copied :
    (cs rest : List ℕ)
    → IsText cs
    → strcpy (replicate (length cs + 1) 0) (cs ++ (0 ∷ rest)) ≡ some (cs ++ (0 ∷ []))
copied cs rest t =
    let size = length-replicate {A = ℕ} (length cs + 1) 0 in
    strcpy-text (replicate (length cs + 1) 0) cs rest t (omega arith)
    ∙ ap (λ r. some (cs ++ (0 ∷ r)))
        (drop-all (suc (length cs)) (replicate (length cs + 1) 0) (omega arith))

-- `isSamePath` on two paths that are not empty returns, and says YES exactly where they are the same but
-- for one slash at the end of either.
pub is_same_path-strip :
    (c : ℕ) (cs rest : List ℕ) (d : ℕ) (ds rest' : List ℕ)
    → IsText (c ∷ cs)
    → IsText (d ∷ ds)
    → (b : Bool) × (is_same_path ((c ∷ cs) ++ (0 ∷ rest)) ((d ∷ ds) ++ (0 ∷ rest')) ≡ some b)
      × ((b ≡ true) ↔ (strip (c ∷ cs) ≡ strip (d ∷ ds)))
unfolding is_same_path
is_same_path-strip c cs rest d ds rest' t u =
    let p = c ∷ cs in
    let q = d ∷ ds in
    let (more, stripped, _) = remove_slash-text c cs [] t in
    let (more', stripped', _) = remove_slash-text d ds [] u in
    let (b, compared, iff) =
      same_string-text (strip p) more (strip q) more' (strip-IsText p t) (strip-IsText q u) in
    (
      b,
      rw (strlen-text p rest t, strlen-text q rest' u)
          (rw (copied p rest t, copied q rest' u) (rw (stripped, stripped') compared)),
      iff,
    )
