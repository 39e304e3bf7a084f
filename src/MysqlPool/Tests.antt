-- ===== src/MysqlPool/Tests.antt =====
-- A library whose state is the connections that it has handed out, and what was printed.
use footprints_ev.Base.{ℕ, ◌≡◌, refl, true, some, List, [], ◌∷◌, ◌++◌}
use footprints_ev.MysqlPool.{
  Library, Ended, returned, sql_exception, other_exception, Database, create_mysqlpool,
  do_mysql_process,
}
use footprints_ev.MysqlPool.Return.{IsLawful, Passed, state_of, do_mysql_process-gives_back}

record Desk : Type 0 where
  handed_out : List ℕ
  printed : List ℕ

abbrev tail : List ℕ → List ℕ
tail [] = []
tail (x ∷ xs) = xs

abbrev closed : Desk → Desk
closed s = record s { handed_out = tail s.handed_out }

abbrev at_end : (List ℕ → Desk → Desk) → (Desk → Desk) → Ended Desk → Ended Desk
at_end handler final (returned s) = returned (final s)
at_end handler final (sql_exception m s) = returned (final (handler m s))
at_end handler final (other_exception s) = other_exception (final s)

-- an empty statement is refused
abbrev answer : List ℕ → Desk → Ended Desk
answer [] s = sql_exception (b'E' ∷ []) s
answer (b ∷ bs) s = returned s

abbrev library : Library
library = record {
  State = Desk;
  url_new = λ text s. (1, s);
  url_free = λ url s. s;
  pool_new = λ url s. (2, s);
  pool_start = λ pool s. s;
  pool_free = λ pool s. s;
  get_connection = λ pool s. (some 5, record s { handed_out = 5 ∷ s.handed_out });
  execute = λ connect buf s. answer buf s;
  close = λ connect s. closed s;
  attempt = λ body handler final s. at_end handler final (body s);
}

abbrev print : List ℕ → Desk → Desk
print m s = record s { printed = s.printed ++ m }

answer-handed_out : (buf : List ℕ) (s : Desk) → (state_of (answer buf s)).handed_out ≡ s.handed_out
answer-handed_out [] s = refl
answer-handed_out (b ∷ bs) s = refl

library-IsLawful : IsLawful library (λ s. s.handed_out)
library-IsLawful = record {
  attempt-returned = λ body handler final s t e. rw e refl;
  attempt-sql = λ body handler final s t m e. rw e refl;
  attempt-other = λ body handler final s t e. rw e refl;
  out-get_connection = λ pool c s t e. cc (e);
  out-execute = λ c buf s. answer-handed_out buf s;
  out-close = λ c cs s e. rw e refl;
}

abbrev database : Database library
database = record { mysql_pool = 2; url = 1; library = record { handed_out = []; printed = [] } }

created : create_mysqlpool library [] (record { handed_out = []; printed = [] }) ≡ (true, database)
unfolding create_mysqlpool
created = refl

do_mysql_process-gives_back_example :
    Passed
      (library.execute (some 5) [] (record { handed_out = 5 ∷ []; printed = [] }))
      (do_mysql_process library print [] database)
    × ((state_of (do_mysql_process library print [] database)).handed_out ≡ [])
do_mysql_process-gives_back_example =
    do_mysql_process-gives_back library (λ s. s.handed_out) print [] database 5
      (record { handed_out = 5 ∷ []; printed = [] }) library-IsLawful (λ m s. refl) refl
