-- ===== src/Server/Decode.antt =====
-- `OBD_decode_thread` on a buffer that the thread pool has.
use footprints_ev.Base.{
  ℕ, ◌≡◌, ◌≢◌, refl, ◌∙◌, Bool, true, false, some, List, [], ◌∷◌, ◌++◌, arith, update, update_self,
  if◌then◌else◌, ◌==◌, get_or, get_elem?-eq-get_or,
}
use footprints_ev.Obd.{Obd, filter_escape, decode, finished}
use footprints_ev.Obd.Bounds.{IsSized, IsMessage}
use footprints_ev.Obd.Endless.{filter_escape-halts, filter_escape-endless, HasFrame}
use footprints_ev.Obd.Length.{filter_escape-data_length}
use footprints_ev.Obd.Escape.{Bytes}
use footprints_ev.Obd.RoundTrip.{Holds, filter_escape-frame}
use footprints_ev.Pool.{Ptr}
use footprints_ev.Server.{Server, ok, endless}
use footprints_ev.Server.Tasks.{decode_thread}
use footprints_ev.Server.Frame.{OnlyMessages, then_messages, SameLengths, update-SameLengths}
use footprints_ev.Server.Moves.{taken-IsServing}
use footprints_ev.Server.Serving.{IsServing, set_obd-IsServing}
use footprints_ev.Server.Serving.Lifetime.{obd_release-IsServing}

some-if :
    {A : Type 0} (b : Bool) (x y : A) → (if b then some x else some y) ≡ some (if b then x else y)
some-if true x y = refl
some-if false x y = refl

decode-some : (o : Obd) → IsSized o → (out : List (ℕ × ℕ)) × (decode o ≡ some out)
unfolding decode
decode-some o s =
    let size = s.hex_size in
    let h : ℕ → ℕ = λ i. get_or o.hex i 0 in
    (
      if h 1 == 2 then (0, h 2) ∷ (1, h 3) ∷ (2, h 4) ∷ (3, h 5) ∷ [] else [],
      rw
          (
            get_elem?-eq-get_or o.hex 1 0 (omega arith),
            get_elem?-eq-get_or o.hex 2 0 (omega arith),
            get_elem?-eq-get_or o.hex 3 0 (omega arith),
            get_elem?-eq-get_or o.hex 4 0 (omega arith),
            get_elem?-eq-get_or o.hex 5 0 (omega arith),
          )
          (some-if (h 1 == 2) _ _),
    )

-- the task, where it gets through the loop and the switch
decode_thread-run :
    (s : Server) (p : Ptr) (done : Bool) (o : Obd) (out : List (ℕ × ℕ)) (bs xs us vs : List Ptr)
    → IsServing s bs [] xs (us ++ (p ∷ vs))
    → filter_escape 128 (s.obds p) ≡ finished (done, o)
    → decode o ≡ some out
    → (t : Server) × (decode_thread 128 p s ≡ ok out t)
      × IsServing t (p ∷ bs) [] xs (us ++ vs)
      × (t.log ≡ s.log)
      × OnlyMessages s t
      × SameLengths s.obds t.obds
unfolding decode_thread
decode_thread-run s p done o out bs xs us vs v run shows =
    let s' : Server = record s { obds = update s.obds p o } in
    let v' = set_obd-IsServing s p o bs xs (us ++ vs) (taken-IsServing s p bs xs us vs v) in
    let (t, released, v'', log, only, lengths) = obd_release-IsServing s' p bs xs (us ++ vs) v' in
    (
      t,
      rw run (rw (update_self s.obds p o, shows) (rw released refl)),
      v'',
      log,
      then_messages {s = s} {t = s'}
          (record { same_list = refl; same_ev = refl; same_pool = refl; same_flag = refl }) only,
      λ q.
          lengths q
          ∙ update-SameLengths s.obds p o (filter_escape-data_length 128 (s.obds p) done o run) q,
    )

-- The task returns on every message of another length than 255, and gives its buffer back to the
-- pool, without touching the queue or another buffer.
pub decode_thread-IsServing :
    (s : Server) (p : Ptr) (bs xs us vs : List Ptr)
    → IsServing s bs [] xs (us ++ (p ∷ vs))
    → IsMessage (s.obds p)
    → (s.obds p).data_length ≢ 255
    → (out : List (ℕ × ℕ)) × (t : Server) × (decode_thread 128 p s ≡ ok out t)
      × IsServing t (p ∷ bs) [] xs (us ++ vs)
      × (t.log ≡ s.log)
      × OnlyMessages s t
      × SameLengths s.obds t.obds
decode_thread-IsServing s p bs xs us vs v m ne =
    let (done, o, run, sized, _) = filter_escape-halts (s.obds p) m ne in
    let (out, shows) = decode-some o sized in
    let (t, thread, v', log, only, lengths) =
      decode_thread-run s p done o out bs xs us vs v run shows in
    (out, t, thread, v', log, only, lengths)

-- On a buffer that holds the frame of a command 2, the task prints the four bytes of the client's id as they
-- were sent, and gives the buffer back.
pub decode_thread-frame :
    (s : Server) (p a b c d : ℕ) (more rest bs xs us vs : List ℕ)
    → IsServing s bs [] xs (us ++ (p ∷ vs))
    → Bytes (2 ∷ a ∷ b ∷ c ∷ d ∷ more)
    → Holds (2 ∷ a ∷ b ∷ c ∷ d ∷ more) rest (s.obds p)
    → (t : Server) × (decode_thread 128 p s ≡ ok ((0, a) ∷ (1, b) ∷ (2, c) ∷ (3, d) ∷ []) t)
      × IsServing t (p ∷ bs) [] xs (us ++ vs)
unfolding decode
decode_thread-frame s p a b c d more rest bs xs us vs v small holds =
    let payload = 2 ∷ a ∷ b ∷ c ∷ d ∷ more in
    let (t, run, v', _, _, _) =
      decode_thread-run s p true _ ((0, a) ∷ (1, b) ∷ (2, c) ∷ (3, d) ∷ []) bs xs us vs v
        (filter_escape-frame payload rest (s.obds p) small holds) refl in
    (t, run, v')

-- A message of 255 characters with both markers in order keeps its worker for ever.
pub decode_thread-endless :
    (s : Server) (p b e : ℕ)
    → IsMessage (s.obds p)
    → (s.obds p).data_length ≡ 255
    → HasFrame (s.obds p) b e
    → (fuel : ℕ) → decode_thread fuel p s ≡ endless
unfolding decode_thread
decode_thread-endless s p b e m d f fuel = rw (filter_escape-endless (s.obds p) b e m d f fuel) refl
