-- ===== src/Earlier/Loop.antt =====
-- main.c: the loop at the end of `main`, taken by itself; client.c: `main`.
use mathlib.Core.Option
use footprints_ev.Base.{
  ◌==◌, append-nil, ℕ, suc, ◌-◌, ◌<◌, ◌≡◌, refl, sym, ◌∙◌, subst, ap, Bool, true, false, Option,
  none, some, List, [], ◌∷◌, ◌++◌, arith, length, replicate, take, ◌>>=◌, if◌then◌else◌,
}
use footprints_ev.Base.Distinct.{All}
use footprints_ev.CString.{strlen}

-- what `accept`, `recv` and `send` return in a round
pub record Round : Type 0 where
  pub accepted : Option ℕ
  pub received : Option (List ℕ)
  pub sent : Bool

-- `waiting`: in the loop, behind the rounds. `returned`: -1. Both with the descriptors that are open. `fault`: the text that
-- is printed has no end in `buffer`.
pub data Outcome : Type 0 where
  waiting : List ℕ → Outcome
  returned : List ℕ → Outcome
  fault : Outcome

-- `buffer` after `memset` and `recv`
abbrev pub filled : Option (List ℕ) → List ℕ
filled none = replicate 4096 0
filled (some bs) = bs ++ replicate (4096 - length bs) 0

abbrev pub answer : Round → ℕ → List ℕ → Outcome → Option ℕ → Outcome
answer r fd fds rest none = fault
answer r fd fds rest (some n) = if r.sent then rest else returned (fd ∷ fds)

abbrev pub accepts : Round → List ℕ → Outcome → Option ℕ → Outcome
accepts r fds rest none = returned fds
accepts r fds rest (some fd) = answer r fd fds rest (strlen (filled r.received))

-- the loop, with the open descriptors: that of a connection is closed at the end of its round
unfoldable pub serve_loop : List Round → List ℕ → Outcome
serve_loop [] fds = waiting fds
serve_loop (r ∷ rs) fds = let rest = serve_loop rs fds in accepts r fds rest r.accepted

-- a round that ends in `close`
pub record IsServed (r : Round) : Type 0 where
  pub fd : ℕ
  pub bytes : List ℕ
  pub connected : r.accepted ≡ some fd
  pub got : r.received ≡ some bytes
  pub small : length bytes < 4096
  pub greeted : r.sent ≡ true

strlen-zeros : (bs : List ℕ) (n : ℕ) → (k : ℕ) × (strlen (bs ++ replicate (suc n) 0) ≡ some k)
unfolding strlen
strlen-zeros [] n = (0, refl)
strlen-zeros (b ∷ bs) n = let (k, e) = strlen-zeros bs n in ends (b == 0) k e
  where
    ends :
        (stop : Bool) (k : ℕ)
        → strlen (bs ++ replicate (suc n) 0) ≡ some k
        → (j : ℕ) × ((if stop then some 0 else Option.map suc (strlen (bs ++ replicate (suc n) 0)))
            ≡ some j)
    ends true k e = (0, refl)
    ends false k e = (suc k, rw e refl)

-- a text that is shorter than `buffer` has an end
ends_in : (bs : List ℕ) → length bs < 4096 → (k : ℕ) × (strlen (filled (some bs)) ≡ some k)
ends_in bs h =
    let (k, e) = strlen-zeros bs (4095 - length bs) in
    (
      k,
      subst (λ n. strlen (bs ++ replicate n 0) ≡ some k) {x = suc (4095 - length bs)} (omega arith)
          e,
    )

round-served :
    (r : Round) (rs : List Round) (fds : List ℕ)
    → IsServed r
    → serve_loop (r ∷ rs) fds ≡ serve_loop rs fds
unfolding serve_loop
round-served r rs fds v =
    let (k, e) = ends_in v.bytes v.small in rw (v.connected, v.got) (rw (e, v.greeted) refl)

rounds-served :
    (rs more : List Round) (fds : List ℕ)
    → All IsServed rs
    → serve_loop (rs ++ more) fds ≡ serve_loop more fds
rounds-served [] more fds v = refl
rounds-served (r ∷ rs) more fds v =
    round-served r (rs ++ more) fds v.0 ∙ rounds-served rs more fds v.1

-- Rounds with fewer than 4096 bytes received and the answer sent leave the loop where it was, with no connection open. A
-- failed `send` ends `main` with its connection still open, a failed `accept` ends it with the descriptors it had, and
-- 4096 bytes without NUL are printed past the end of `buffer`.
pub serve_loop-ends :
    (rs later : List Round) (fds : List ℕ) (fd : ℕ) (bs full : List ℕ) (got : Option (List ℕ))
    (sent : Bool)
    → All IsServed rs
    → length bs < 4096
    → length full ≡ 4096
    → strlen full ≡ none
    → (serve_loop rs fds ≡ waiting fds)
      × (serve_loop
            (rs ++ (record { accepted = some fd; received = some bs; sent = false } ∷ later))
            fds
          ≡ returned (fd ∷ fds))
      × (serve_loop (rs ++ (record { accepted = none; received = got; sent = sent } ∷ later)) fds
          ≡ returned fds)
      × (serve_loop
            (rs ++ (record { accepted = some fd; received = some full; sent = sent } ∷ later))
            fds
          ≡ fault)
unfolding serve_loop
serve_loop-ends rs later fds fd bs full got sent v small size endless =
    let (k, e) = ends_in bs small in
    let past : strlen (filled (some full)) ≡ none = rw size (rw (append-nil full) endless) in
    (
      ap (λ l. serve_loop l fds) (sym (append-nil rs)) ∙ rounds-served rs [] fds v,
      rounds-served rs _ fds v ∙ rw e refl,
      rounds-served rs _ fds v,
      rounds-served rs _ fds v ∙ rw past refl,
    )

-- `THREAD_NUM`
abbrev pub thread_num : ℕ
thread_num = 1

-- `pthread_join` of each: `none` where `pthread_create` failed, so that `t[i]` was never set
abbrev pub joined : List (Option ℕ) → Option (List ℕ)
joined [] = some []
joined (none ∷ ts) = none
joined (some t ∷ ts) = do rest ← joined ts; some (t ∷ rest)

-- `main` of client.c, with the threads that the calls of `pthread_create` start: those that it joins
unfoldable pub client_main : List (Option ℕ) → Option (List ℕ)
client_main created = joined (take thread_num created)
