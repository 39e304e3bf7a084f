-- ===== src/CProject/Paths/Join.antt =====
-- `GENERATE_PATH`, and one helper after the other.
use footprints_ev.Base.{
  ℕ, suc, ◌+◌, ◌-◌, ◌≤◌, ◌≡◌, sym, ◌∙◌, ap, some, List, [], ◌∷◌, ◌++◌, arith, ◌==◌, length, drop,
  drop-cons, Bool-cases, inl, inr, append_assoc, length-append, length-drop, ◌>>=◌,
}
use footprints_ev.CString.Text.{IsText, strcpy-text, strcat-text}
use footprints_ev.CProject.Paths.{slash, add_slash, remove_slash, generate_path}
use footprints_ev.CProject.Paths.Slash.{
  strip, strip-slash, strip-IsText, snoc-IsText, Shows, add_slash-text, remove_slash-text,
}

pub length-strip : (cs : List ℕ) → length (strip cs) ≤ length cs
unfolding strip
length-strip [] = omega arith
length-strip (c ∷ []) = elim (Bool-cases (c == slash)) [
  | inl same ↦ rw same (omega arith)
  | inr other ↦ rw other (omega arith)
]
length-strip (c ∷ d ∷ cs) = let h = length-strip (d ∷ cs) in omega arith

joined-size :
    (path ns spare : List ℕ) (n : ℕ)
    → length ns ≤ length spare
    → length (path ++ (0 ∷ spare)) ≡ n
    → length ((path ++ ns) ++ (0 ∷ drop (length ns) spare)) ≡ n
joined-size path ns spare n fits whole = omega (
  arith,
  length-append (path ++ ns) (0 ∷ drop (length ns) spare),
  length-append path ns,
  length-append path (0 ∷ spare),
  length-drop (length ns) spare,
)

-- Where the location is not empty and the buffer has as many bytes as the two names and two more, `GENERATE_PATH`
-- writes the location, without a slash at its end, then one slash and the name, and stays inside the buffer.
pub generate_path-text :
    (buf : List ℕ) (c : ℕ) (cs ns rest rest' : List ℕ)
    → IsText (c ∷ cs)
    → IsText ns
    → length (c ∷ cs) + length ns + 2 ≤ length buf
    → Shows
        ((strip (c ∷ cs) ++ (slash ∷ [])) ++ ns)
        (length buf)
        (generate_path buf ((c ∷ cs) ++ (0 ∷ rest)) (ns ++ (0 ∷ rest')))
unfolding generate_path
generate_path-text buf c cs ns rest rest' t u room =
    let location = c ∷ cs in
    let (x, more, e, size) = drop-cons (suc (length location)) buf (omega arith) in
    let copied = strcpy-text buf location rest t (omega arith) in
    let (spare, slashed, whole) = add_slash-text c cs x more t in
    let path = strip location ++ (slash ∷ []) in
    let short = length-strip location in
    let located : length (location ++ (0 ∷ x ∷ more)) ≡ length buf =
      omega (arith, length-append location (0 ∷ x ∷ more)) in
    let sizes : length spare ≡ length buf - length path - 1 =
      omega (arith, length-append path (0 ∷ spare), length-append location (0 ∷ x ∷ more)) in
    let fits : length ns ≤ length spare =
      omega (arith, length-append (strip location) (slash ∷ [])) in
    let path_text =
      snoc-IsText (strip location) slash (strip-IsText location t) (λ e'. omega arith) in
    let joined = strcat-text path spare ns rest' path_text u fits in
    (
      drop (length ns) spare,
      rw (copied, e, slashed, joined)
          (ap some (sym (append_assoc path ns (0 ∷ drop (length ns) spare)))),
      joined-size path ns spare (length buf) fits (whole ∙ located),
    )

removed-again :
    (path spare : List ℕ)
    → IsText (path ++ (slash ∷ []))
    → Shows path
        (length ((path ++ (slash ∷ [])) ++ (0 ∷ spare)))
        (remove_slash ((path ++ (slash ∷ [])) ++ (0 ∷ spare)))
unfolding strip
removed-again [] spare t = remove_slash-text slash [] spare t
removed-again (d ∷ path) spare t =
    let (spare', run, whole) = remove_slash-text d (path ++ (slash ∷ [])) spare t in
    let bare = strip-slash (d ∷ path) in (spare', rw bare at run, rw bare at whole)

-- On a path that is not empty, with a byte to spare, `RemoveSlashAtPathEnd` after `AddSlashAtPathEnd` leaves the
-- path without a slash at its end.
pub remove_slash-add_slash :
    (c : ℕ) (cs : List ℕ) (x : ℕ) (rest : List ℕ)
    → IsText (c ∷ cs)
    → Shows
        (strip (c ∷ cs))
        (length ((c ∷ cs) ++ (0 ∷ x ∷ rest)))
        (add_slash ((c ∷ cs) ++ (0 ∷ x ∷ rest)) >>= remove_slash)
remove_slash-add_slash c cs x rest t =
    let (spare, slashed, whole) = add_slash-text c cs x rest t in
    let path = strip (c ∷ cs) in
    let text = strip-IsText (c ∷ cs) t in
    let (spare', removed, whole') =
      removed-again path spare (snoc-IsText path slash text (λ e. omega arith)) in
    (spare', rw slashed removed, whole' ∙ whole)
