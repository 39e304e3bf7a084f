-- ===== src/Server/Serving/Lifetime.antt =====
-- `OBD_init` and `OBD_release`: a buffer leaves the free ones, and comes back.
use footprints_ev.Base.{
  ℕ, ◌≡◌, ◌≢◌, refl, sym, subst, true, some, none, List, [], ◌∷◌, ◌++◌, arith, update, update_self,
  inl, inr, replicate, ne→==_false, length-replicate,
}
use footprints_ev.Base.Distinct.{NotIn, NotIn-insert, NotIn-suffix, All, All-insert, All-remove}
use footprints_ev.Obd.{Obd, buf_size}
use footprints_ev.Obd.Bounds.{IsMessage}
use footprints_ev.CString.{strlen}
use footprints_ev.Pool.{Ptr, null}
use footprints_ev.Server.{Server, ok, with_obd, malloc_obd}
use footprints_ev.Server.Messages.{obd_init, obd_release}
use footprints_ev.Server.Frame.{OnlyMessages, SameLengths, update-SameLengths}
use footprints_ev.Server.Memory.{Grant, malloc_obd-some, free_obd-used}
use footprints_ev.Server.Serving.{IsServing, held, set_obd-IsServing, unlinked, list_init-held}

-- `Malloc` of a buffer
pub malloc_obd-IsServing :
    (a : Ptr) (s : Server) (bs xs busy : List Ptr)
    → IsServing s bs [] xs busy
    → a ≢ null
    → s.obd_pool.heap.size a ≡ none
    → s.obd_mq.heap.live a ≡ true
    → a ≢ s.obd_mq.list
    → (g : Grant a s.obd_pool bs (xs ++ busy)) × (malloc_obd (some a) s
        ≡ ok g.block (with_obd s g.after))
      × IsServing (with_obd s g.after) g.left (g.block ∷ []) xs busy
malloc_obd-IsServing a s bs xs busy v ne fresh live apart =
    let (g, run) = malloc_obd-some a s bs (xs ++ busy) v.pool ne fresh in
    let Live : Ptr → Type 0 = λ p. s.obd_mq.heap.live p ≡ true in
    let Good : List Ptr → Type 0 = λ l. All Live l × NotIn s.obd_mq.list l in
    let good : Good (g.block ∷ (g.left ++ (xs ++ busy))) = elim g.among [
      | inl e ↦ subst (λ l. Good (l ++ (xs ++ busy))) (sym e) (v.cells, v.sentinel)
      | inr (eb, el) ↦ rw (eb, el) ((live, v.cells), ((λ e. apart (sym e)), v.sentinel))
    ] in
    (
      g,
      run,
      record {
        pool = g.sound;
        queue = v.queue;
        cells = All-insert Live g.block g.left (xs ++ busy) good.0.0 good.0.1;
        sentinel = NotIn-insert s.obd_mq.list g.block g.left (xs ++ busy) good.1.0 good.1.1;
        messages = v.messages;
      },
    )

-- `OBD_init` hands out an empty message.
pub obd_init-IsServing :
    (a : Ptr) (s : Server) (bs xs busy : List Ptr)
    → IsServing s bs [] xs busy
    → a ≢ null
    → s.obd_pool.heap.size a ≡ none
    → s.obd_mq.heap.live a ≡ true
    → a ≢ s.obd_mq.list
    → (p : Ptr) × (bs' : List Ptr) × (t : Server) × (obd_init (some a) s ≡ ok p t)
      × IsServing t bs' (p ∷ []) xs busy
      × IsMessage (t.obds p)
      × (t.log ≡ s.log)
      × OnlyMessages s t
unfolding obd_init strlen
obd_init-IsServing a s bs xs busy v ne fresh live apart =
    let (g, run, v') = malloc_obd-IsServing a s bs xs busy v ne fresh live apart in
    let (linked, v'') = list_init-held (with_obd s g.after) g.block g.left xs busy v' in
    let o : Obd = record (s.obds g.block) {
      data_length = 0;
      data_bytes = replicate buf_size 0;
      hex = replicate buf_size 0;
    } in
    (
      g.block,
      g.left,
      _,
      rw (run, ne→==_false g.block null g.apart) (rw linked refl),
      set_obd-IsServing (record (with_obd s g.after) { obd_mq = unlinked g.block s.obd_mq }) g.block
          o g.left xs busy v'',
      rw (update_self s.obds g.block o) (record {
        sized = record {
          data_size = length-replicate {A = ℕ} 256 0;
          hex_size = length-replicate {A = ℕ} 256 0;
        };
        small = omega arith;
        text = refl;
      }),
      refl,
      record { same_list = refl; same_ev = refl; same_pool = refl; same_flag = refl },
    )

-- `OBD_release` gives a held buffer back.
pub obd_release-IsServing :
    (s : Server) (p : Ptr) (bs xs busy : List Ptr)
    → IsServing s bs (p ∷ []) xs busy
    → (t : Server) × (obd_release p s ≡ ok tt t)
      × IsServing t (p ∷ bs) [] xs busy
      × (t.log ≡ s.log)
      × OnlyMessages s t
      × SameLengths s.obds t.obds
unfolding obd_release
obd_release-IsServing s p bs xs busy v =
    let (linked, v') = list_init-held s p bs xs busy v in
    let o : Obd = record (s.obds p) { data_bytes = replicate buf_size 0 } in
    let t : Server = record s { obd_mq = unlinked p s.obd_mq; obds = update s.obds p o } in
    let v'' = set_obd-IsServing (record s { obd_mq = unlinked p s.obd_mq }) p o bs xs busy v' in
    let (b, freed, sound) = free_obd-used p t bs [] (xs ++ busy) v''.pool in
    let Live : Ptr → Type 0 = λ x. s.obd_mq.heap.live x ≡ true in
    let (_, out, _) = NotIn-suffix s.obd_mq.list bs p (xs ++ busy) v.sentinel in
    (
      with_obd t b,
      rw (ne→==_false p null (held s p bs xs busy v).at) (rw linked freed),
      record {
        pool = sound;
        queue = v''.queue;
        cells = All-remove Live p bs (xs ++ busy) v.cells;
        sentinel = (out, (NotIn-suffix s.obd_mq.list bs p (xs ++ busy) v.sentinel).0);
        messages = v''.messages;
      },
      refl,
      record { same_list = refl; same_ev = refl; same_pool = refl; same_flag = refl },
      update-SameLengths s.obds p o refl,
    )
