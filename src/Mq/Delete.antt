-- ===== src/Mq/Delete.antt =====
-- `list_del` on a message anywhere in the queue.
use footprints_ev.Base.{
  ◌≡◌, ◌≢◌, sym, ◌∙◌, Bool, true, List, [], ◌∷◌, ◌++◌, arith, update, update_self, update-ne,
}
use footprints_ev.Mq.{Ptr, State, ok, with_heap, list_del}
use footprints_ev.Mq.Chain.{
  NextChain, PrevChain, NotIn, Distinct, last, first, NextChain-update, PrevChain-update,
  NextChain-restart, NextChain-first, PrevChain-last,
}
use footprints_ev.Base.Distinct.{NotIn-suffix, Distinct-suffix}
use footprints_ev.Mq.IsQueue.{IsQueue, Returns, returns, AllLive}

list_del-run :
    (h y a b : Ptr) (s : State)
    → s.heap.live h ≡ true
    → s.heap.live y ≡ true
    → s.heap.live a ≡ true
    → s.heap.next y ≡ a
    → s.heap.prev y ≡ b
    → list_del h y s
      ≡ ok tt (
          with_heap s (record s.heap {
            next = update (update s.heap.next h a) y y;
            prev = update (update s.heap.prev a b) y y;
          }))
unfolding list_del
list_del-run h y a b s lh ly la ea eb = ground arith

NextChain-suffix :
    (next : Ptr → Ptr) (a : Ptr) (ws : List Ptr) (y : Ptr) (ys : List Ptr) (b : Ptr)
    → NextChain next a (ws ++ (y ∷ ys)) b
    → NextChain next y ys b
NextChain-suffix next a [] y ys b c = c.1
NextChain-suffix next a (w ∷ ws) y ys b c = NextChain-suffix next w ws y ys b c.1

PrevChain-prefix :
    (prev : Ptr → Ptr) (a : Ptr) (ws : List Ptr) (y : Ptr) (ys : List Ptr) (b : Ptr)
    → PrevChain prev a (ws ++ (y ∷ ys)) b
    → PrevChain prev a ws y
PrevChain-prefix prev a [] y ys b c = c.0
PrevChain-prefix prev a (w ∷ ws) y ys b c = (c.0, PrevChain-prefix prev w ws y ys b c.1)

AllLive-suffix :
    (live : Ptr → Bool) (ws : List Ptr) (y : Ptr) (ys : List Ptr)
    → AllLive live (ws ++ (y ∷ ys))
    → (live y ≡ true) × AllLive live ys
AllLive-suffix live [] y ys l = l
AllLive-suffix live (w ∷ ws) y ys l = AllLive-suffix live ws y ys l.1

first-ne : (p b : Ptr) (ys : List Ptr) → p ≢ b → NotIn p ys → p ≢ first b ys
first-ne p b [] ne o = ne
first-ne p b (z ∷ ys) ne o = o.0

-- to write the cell before `y` into the cell after it takes `y` out of the backward chain
PrevChain-unlink :
    (prev : Ptr → Ptr) (a : Ptr) (ws : List Ptr) (y : Ptr) (ys : List Ptr) (b : Ptr)
    → NotIn b (ws ++ (y ∷ ys))
    → Distinct (ws ++ (y ∷ ys))
    → PrevChain prev a (ws ++ (y ∷ ys)) b
    → PrevChain (update prev (first b ys) (last a ws)) a (ws ++ ys) b
PrevChain-unlink prev a [] y [] b o d c = update_self prev b a
PrevChain-unlink prev a [] y (z ∷ ys) b o d c =
    (update_self prev z a, PrevChain-update z a prev z ys b (λ e. o.1.0 (sym e)) d.1.0 c.1.1)
PrevChain-unlink prev a (w ∷ ws) y ys b o d c = (
  update-ne prev (first b ys) (last w ws) w
        (first-ne w b ys (λ e. o.0 (sym e)) (NotIn-suffix w ws y ys d.0).2)
      ∙ c.0,
  PrevChain-unlink prev w ws y ys b o.1 d.1 c.1,
)

first-live :
    (live : Ptr → Bool) (b : Ptr) (ys : List Ptr)
    → live b ≡ true
    → AllLive live ys
    → live (first b ys) ≡ true
first-live live b [] lb l = lb
first-live live b (z ∷ ys) lb l = l.0

-- `list_del` of the message `y` with `ws` in front of it and `ys` behind: backwards the list then
-- holds `ws` and `ys`, and forwards it holds `ys` alone. The messages in front of `y` are lost to
-- whoever walks the list by `next`.
pub list_del-chains :
    (s : State) (ws : List Ptr) (y : Ptr) (ys : List Ptr)
    → IsQueue s (ws ++ (y ∷ ys))
    → Returns
        (λ _ t.
          NextChain t.heap.next s.list ys s.list
          × PrevChain t.heap.prev s.list (ws ++ ys) s.list
          × (t.heap.next y ≡ y)
          × (t.heap.prev y ≡ y))
        (list_del s.list y s)
list_del-chains s ws y ys q =
    let h = s.list in
    let nexts = NextChain-suffix s.heap.next h ws y ys h q.next_chain in
    let ea = NextChain-first y h ys s.heap.next nexts in
    let eb =
      PrevChain-last s.heap.prev h ws y (PrevChain-prefix s.heap.prev h ws y ys h q.prev_chain) in
    let (fresh, fresh', distinct) = Distinct-suffix ws y ys q.distinct in
    let (out, ne, out') = NotIn-suffix h ws y ys q.apart in
    let (ly, lys) = AllLive-suffix s.heap.live ws y ys q.live in
    let a = first h ys in
    let flip : y ≢ h = λ e. ne (sym e) in
    let next' = update s.heap.next h a in
    let kept = NextChain-update h a s.heap.next y ys h ne out' nexts in
    let start : next' h ≡ next' y =
      update_self s.heap.next h a ∙ sym ea ∙ sym (update-ne s.heap.next h a y flip) in
    rw
      (list_del-run h y a (last h ws) s q.head_live ly (first-live s.heap.live h ys q.head_live lys)
        ea eb)
      (returns (
        NextChain-update y y next' h ys h flip fresh' (NextChain-restart next' y h ys h start kept),
        PrevChain-update y y (update s.heap.prev a (last h ws)) h (ws ++ ys) h flip fresh
            (PrevChain-unlink s.heap.prev h ws y ys h q.apart q.distinct q.prev_chain),
        update_self next' y y,
        update_self (update s.heap.prev a (last h ws)) y y,
      ))
