-- ===== src/Server/Connections.antt =====
-- main-ev.c: `free_libev` and `accept_func_cb`.
use footprints_ev.Base.{ℕ, Bool, Option, none, some, ltb, ◌==◌, if◌then◌else◌, update}
use footprints_ev.Pool.{Ptr, null}
use footprints_ev.Server.{
  close, start, stop, ok, fault, Cmd, pure, ◌>>=◌, ◌>>◌, emit, malloc_ev, free_ev, max_client,
}

-- `libev_list[fd]`, an array of `max_client` pointers
unfoldable pub get_slot : ℕ → Cmd Ptr
get_slot fd s = if ltb fd max_client then ok (s.libev_list fd) s else fault

unfoldable pub set_slot : ℕ → Ptr → Cmd (Unit {0})
set_slot fd w s =
    if ltb fd max_client then ok tt (record s { libev_list = update s.libev_list fd w }) else fault

unfoldable pub free_libev : ℕ → Cmd (Unit {0})
unfolding get_slot set_slot
free_libev fd = if ltb max_client fd then pure tt else do
  w ← get_slot fd
  if w == null then pure tt else do emit (close fd); emit (stop w); free_ev w; set_slot fd null

-- `accept_func_cb`: what the system finds for `Malloc`, whether libev reports an error, and the result
-- of `accept`, `none` where it is negative.
abbrev pub install : Ptr → ℕ → Cmd (Unit {0})
install w fd = do
  slot ← get_slot fd
  if slot == null then (do emit (start w fd); set_slot fd w) else free_ev w

abbrev pub accepted : Ptr → Option ℕ → Cmd (Unit {0})
accepted w none = free_ev w
accepted w (some fd) = if ltb max_client fd then (do free_ev w; emit (close fd)) else install w fd

unfoldable pub accept_func_cb : Option Ptr → Bool → Option ℕ → Cmd (Unit {0})
accept_func_cb fresh error client = do
  w ← malloc_ev fresh
  if w == null then free_ev w else if error then free_ev w else accepted w client
