-- ===== src/Obd/CheckSum.antt =====
-- What `OBD_check_sum` checks.
use footprints_ev.Base.{ℕ, suc, ◌+◌, ◌-◌, ◌≤◌, ◌≡◌, none, some, ◌==◌, le→ltb_false}
use footprints_ev.CString.{strstr}
use footprints_ev.Obd.{Obd, image, finished, fault, pair_at, check_sum, text_begin, text_end}

-- `OBD_check_sum` reads through a pointer below NULL where there is a BB and no EE.
pub check_sum-fault :
    (o : Obd) (fuel b : ℕ)
    → strstr text_begin (image o) ≡ some b
    → strstr text_end (image o) ≡ none
    → check_sum fuel o ≡ fault
unfolding check_sum
check_sum-fault o fuel b x y = rw (x, y)

-- With the first BB at `b`, the first EE at `e`, two characters or more behind it, and the digits of
-- `sum` in front of the EE, `OBD_check_sum` accepts exactly if `sum` is 0: no byte of the payload
-- is summed.
pub check_sum-zero :
    (o : Obd) (fuel b e sum : ℕ)
    → strstr text_begin (image o) ≡ some b
    → strstr text_end (image o) ≡ some e
    → b + 2 ≤ e
    → pair_at o (e - 2) ≡ some sum
    → check_sum (suc fuel) o ≡ finished (sum == 0)
unfolding check_sum
check_sum-zero o fuel b e sum x y h p = rw (x, y, le→ltb_false e (b + 2) h, p)
