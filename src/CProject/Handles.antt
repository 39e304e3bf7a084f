-- ===== src/CProject/Handles.antt =====
-- CProjectDfn.h: files and directories that are closed at most once. `close`, `fclose` and `closedir` are the
-- system's: what they do is the list of the handles that they were called with.
use footprints_ev.Base.{
  ℕ, ◌≡◌, ◌≢◌, arith, Bool, true, false, not, List, [], ◌∷◌, ◌++◌, ◌==◌, if◌then◌else◌,
}

-- a variable that holds a handle, and the handles closed so far
pub record Variable : Type 0 where
  pub handle : ℕ
  pub closed : List ℕ

abbrev pub closing : Variable → Variable
closing v = record { handle = 0; closed = v.closed ++ (v.handle ∷ []) }

-- `CLOSE_FILE`, `IS_FILE_OPEN` and `SECURE_CLOSE_FILE`, on a descriptor
unfoldable pub close_file : Variable → Variable
close_file v = closing v

unfoldable pub is_file_open : Variable → Bool
is_file_open v = not (v.handle == 0)

unfoldable pub secure_close_file : Variable → Variable
unfolding close_file is_file_open
secure_close_file v = if is_file_open v then close_file v else v

-- `CLOSE_PFILE`, `IS_PFILE_OPEN` and `SECURE_CLOSE_PFILE`, on a `FILE *`
unfoldable pub close_pfile : Variable → Variable
close_pfile v = closing v

unfoldable pub is_pfile_open : Variable → Bool
is_pfile_open v = not (v.handle == 0)

unfoldable pub secure_close_pfile : Variable → Variable
unfolding close_pfile is_pfile_open
secure_close_pfile v = if is_pfile_open v then close_pfile v else v

-- `CLOSE_DIR`, `IS_DIR_OPEN` and `SECURE_CLOSE_DIR`, on a `DIR *`
unfoldable pub close_dir : Variable → Variable
close_dir v = closing v

unfoldable pub is_dir_open : Variable → Bool
is_dir_open v = if v.handle == 0 then false else true

unfoldable pub secure_close_dir : Variable → Variable
unfolding close_dir is_dir_open
secure_close_dir v = if is_dir_open v then close_dir v else v

-- Each of the three macros, on a variable that holds a handle other than 0 or NULL, closes just that handle, and a
-- second time does nothing. Descriptor 0, which `open` may return, is never closed.
pub secure_close-once :
    (v : Variable)
    → (v.handle ≢ 0
        → (secure_close_file v ≡ closing v)
          × (secure_close_pfile v ≡ closing v)
          × (secure_close_dir v ≡ closing v))
      × (secure_close_file (secure_close_file v) ≡ secure_close_file v)
      × (secure_close_pfile (secure_close_pfile v) ≡ secure_close_pfile v)
      × (secure_close_dir (secure_close_dir v) ≡ secure_close_dir v)
      × (v.handle ≡ 0 → secure_close_file v ≡ v)
unfolding secure_close_file secure_close_pfile secure_close_dir
secure_close-once v = (
  (λ ne. (ground arith, ground arith, ground arith)),
  ground arith,
  ground arith,
  ground arith,
  (λ e. ground arith),
)
