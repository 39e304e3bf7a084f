-- ===== src/MysqlPool/Return.antt =====
-- What `do_mysql_process` takes out of the pool of connections, it gives back.
use footprints_ev.Base.{ℕ, ◌≡◌, ◌∙◌, refl, sym, ap, some, List, ◌∷◌}
use footprints_ev.MysqlPool.{
  Library, Ended, returned, sql_exception, other_exception, Database, do_mysql_process,
}

abbrev pub state_of : {S : Type 0} → Ended S → S
state_of (returned s) = s
state_of (sql_exception m s) = s
state_of (other_exception s) = s

-- The connections that a library has handed out of a pool, and its documented behaviour: a block that returns or raises
-- SQLException goes on behind END_TRY, every other exception is raised again, and FINALLY is run in each case; `execute`
-- keeps the connections, and `close` gives the one that was handed out last back.
pub record IsLawful (L : Library) (out : L.State → List ℕ) : Type 0 where
  pub attempt-returned :
      (body : L.State → Ended L.State) (handler : List ℕ → L.State → L.State)
      (final : L.State → L.State) (s t : L.State)
      → body s ≡ returned t
      → L.attempt body handler final s ≡ returned (final t)
  pub attempt-sql :
      (body : L.State → Ended L.State) (handler : List ℕ → L.State → L.State)
      (final : L.State → L.State) (s t : L.State) (m : List ℕ)
      → body s ≡ sql_exception m t
      → L.attempt body handler final s ≡ returned (final (handler m t))
  pub attempt-other :
      (body : L.State → Ended L.State) (handler : List ℕ → L.State → L.State)
      (final : L.State → L.State) (s t : L.State)
      → body s ≡ other_exception t
      → L.attempt body handler final s ≡ other_exception (final t)
  pub out-get_connection :
      (pool c : ℕ) (s t : L.State) → L.get_connection pool s ≡ (some c, t) → out t ≡ c ∷ out s
  pub out-execute :
      (c : ℕ) (buf : List ℕ) (s : L.State) → out (state_of (L.execute (some c) buf s)) ≡ out s
  pub out-close :
      (c : ℕ) (cs : List ℕ) (s : L.State) → out s ≡ c ∷ cs → out (L.close (some c) s) ≡ cs

-- how `do_mysql_process` ends, given how the statement does
abbrev pub Passed : {S : Type 0} → Ended S → Ended S → Type 0
Passed {S} (returned s) e = (t : S) × (e ≡ returned t)
Passed {S} (sql_exception m s) e = (t : S) × (e ≡ returned t)
Passed {S} (other_exception s) e = (t : S) × (e ≡ other_exception t)

gives_back :
    (L : Library) (out : L.State → List ℕ) (lawful : IsLawful L out)
    (print : List ℕ → L.State → L.State) (c : ℕ) (cs buf : List ℕ) (s : L.State) (e : Ended L.State)
    → ((m : List ℕ) (s : L.State) → out (print m s) ≡ out s)
    → out s ≡ c ∷ cs
    → L.execute (some c) buf s ≡ e
    → Passed e (L.attempt (L.execute (some c) buf) print (L.close (some c)) s)
      × (out (state_of (L.attempt (L.execute (some c) buf) print (L.close (some c)) s)) ≡ cs)
gives_back L out lawful print c cs buf s (returned t) same has e =
    let now = lawful.attempt-returned (L.execute (some c) buf) print (L.close (some c)) s t e in
    let kept : out t ≡ out s = sym (ap (λ e. out (state_of e)) e) ∙ lawful.out-execute c buf s in
    (
      (L.close (some c) t, now),
      ap (λ e. out (state_of e)) now ∙ lawful.out-close c cs t (kept ∙ has),
    )
gives_back L out lawful print c cs buf s (sql_exception m t) same has e =
    let now = lawful.attempt-sql (L.execute (some c) buf) print (L.close (some c)) s t m e in
    let kept : out t ≡ out s = sym (ap (λ e. out (state_of e)) e) ∙ lawful.out-execute c buf s in
    (
      (L.close (some c) (print m t), now),
      ap (λ e. out (state_of e)) now ∙ lawful.out-close c cs (print m t) (same m t ∙ (kept ∙ has)),
    )
gives_back L out lawful print c cs buf s (other_exception t) same has e =
    let now = lawful.attempt-other (L.execute (some c) buf) print (L.close (some c)) s t e in
    let kept : out t ≡ out s = sym (ap (λ e. out (state_of e)) e) ∙ lawful.out-execute c buf s in
    (
      (L.close (some c) t, now),
      ap (λ e. out (state_of e)) now ∙ lawful.out-close c cs t (kept ∙ has),
    )

-- With a lawful library and a free connection, `do_mysql_process` hands the connection back however the statement ends.
-- It returns where the statement does and where it raises SQLException, and raises every other exception again.
pub do_mysql_process-gives_back :
    (L : Library) (out : L.State → List ℕ) (print : List ℕ → L.State → L.State) (buf : List ℕ)
    (d : Database L) (c : ℕ) (s : L.State)
    → IsLawful L out
    → ((m : List ℕ) (s : L.State) → out (print m s) ≡ out s)
    → L.get_connection d.mysql_pool d.library ≡ (some c, s)
    → Passed (L.execute (some c) buf s) (do_mysql_process L print buf d)
      × (out (state_of (do_mysql_process L print buf d)) ≡ out d.library)
unfolding do_mysql_process
do_mysql_process-gives_back L out print buf d c s lawful same got =
    rw (got, do_mysql_process)
      (gives_back L out lawful print c (out d.library) buf s (L.execute (some c) buf s) same
        (lawful.out-get_connection d.mysql_pool c d.library s got) refl)
