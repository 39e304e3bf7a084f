-- ===== src/CProject/Paths.antt =====
-- CProjectDfn.c and CProjectDfn.h: paths as NUL-ended texts in buffers. A buffer is a list of bytes, from
-- the pointer to the end of its object.
pub mod Slash
pub mod Same
pub mod Join
pub mod Sub
mod Tests
use footprints_ev.Base.{
  ℕ, zero, suc, ◌+◌, ◌-◌, Bool, true, false, ◌&&◌, ◌||◌, not, Option, none, some, List, [], ◌∷◌,
  length, get_elem?, set, replicate, ltb, ◌==◌, if◌then◌else◌, ◌>>=◌,
}
use footprints_ev.CString.{strlen, strcpy, strcat, same_string, same_start}

-- `PATH_DIDIVDER`
abbrev pub slash : ℕ
slash = b'/'

-- a write through a pointer, `none` out of the object
unfoldable pub put : List ℕ → ℕ → ℕ → Option (List ℕ)
put buf i c = if ltb i (length buf) then some (set buf i c) else none

-- `path[strlen(path)-1]`, in front of the object where the path is empty
abbrev pub last_of : List ℕ → ℕ → Option ℕ
last_of path zero = none
last_of path (suc n) = get_elem? path n

-- `AddSlashAtPathEnd`
unfoldable pub add_slash : List ℕ → Option (List ℕ)
add_slash path = do
  n ← strlen path
  last ← last_of path n
  if last == slash
      then some path
      else do path ← put path (n + 1) 0; end ← strlen path; put path end slash

-- `RemoveSlashAtPathEnd`
unfoldable pub remove_slash : List ℕ → Option (List ℕ)
remove_slash path = do
  n ← strlen path
  last ← last_of path n
  if last == slash then put path (n - 1) 0 else some path

-- `PATH_CAT`
unfoldable pub path_cat : List ℕ → List ℕ → Option (List ℕ)
path_cat x y = do x ← add_slash x; strcat x y

-- `GENERATE_PATH`
unfoldable pub generate_path : List ℕ → List ℕ → List ℕ → Option (List ℕ)
generate_path save_to location name = do
  path ← strcpy save_to location
  path ← add_slash path
  strcat path name

-- `isSamePath`. What the two arrays hold before they are written does not matter: here it is 0.
unfoldable pub is_same_path : List ℕ → List ℕ → Option Bool
is_same_path path1 path2 = do
  n ← strlen path1
  m ← strlen path2
  p ← strcpy (replicate (n + 1) 0) path1
  q ← strcpy (replicate (m + 1) 0) path2
  p ← remove_slash p
  q ← remove_slash q
  same_string p q

-- `IS_SUB_PATH`
unfoldable pub is_sub_path : List ℕ → List ℕ → Option Bool
is_sub_path path sub_path = do
  m ← strlen sub_path
  longer ← same_start m path sub_path
  if longer then some false else do n ← strlen path; same_start n path sub_path

-- `IsDirNameSelfOrParent`
unfoldable pub is_self_or_parent : List ℕ → Option Bool
is_self_or_parent name = do
  self ← same_string name (b'.' ∷ 0 ∷ [])
  if self then some true else same_string name (b'.' ∷ b'.' ∷ 0 ∷ [])
