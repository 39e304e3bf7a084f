-- ===== src/Server/Frame.antt =====
-- What a call leaves alone.
use footprints_ev.Base.{◌≡◌, refl, ◌∙◌, update, ◌==◌, Bool-cases, inl, inr, ==_iff}
use footprints_ev.Obd.{Obd}
use footprints_ev.Pool.{Ptr}
use footprints_ev.Server.{Server}

-- Only the buffers, the queue and the log may differ.
pub record OnlyMessages (s t : Server) : Type 0 where
  pub same_list : t.libev_list ≡ s.libev_list
  pub same_ev : t.ev_pool ≡ s.ev_pool
  pub same_pool : t.thread_pool ≡ s.thread_pool
  pub same_flag : t.mq_flag ≡ s.mq_flag

pub then_messages : {s t u : Server} → OnlyMessages s t → OnlyMessages t u → OnlyMessages s u
then_messages a b = record {
  same_list = b.same_list ∙ a.same_list;
  same_ev = b.same_ev ∙ a.same_ev;
  same_pool = b.same_pool ∙ a.same_pool;
  same_flag = b.same_flag ∙ a.same_flag;
}

-- Only the watchers and the log may differ.
pub record OnlyConnections (s t : Server) : Type 0 where
  pub same_obd : t.obd_pool ≡ s.obd_pool
  pub same_obds : t.obds ≡ s.obds
  pub same_mq : t.obd_mq ≡ s.obd_mq
  pub same_pool : t.thread_pool ≡ s.thread_pool
  pub same_flag : t.mq_flag ≡ s.mq_flag

pub then_connections :
    {s t u : Server} → OnlyConnections s t → OnlyConnections t u → OnlyConnections s u
then_connections a b = record {
  same_obd = b.same_obd ∙ a.same_obd;
  same_obds = b.same_obds ∙ a.same_obds;
  same_mq = b.same_mq ∙ a.same_mq;
  same_pool = b.same_pool ∙ a.same_pool;
  same_flag = b.same_flag ∙ a.same_flag;
}

-- The queue of tasks and the flag of the dispatcher are as they were.
pub record SameTasks (s t : Server) : Type 0 where
  pub same_pool : t.thread_pool ≡ s.thread_pool
  pub same_flag : t.mq_flag ≡ s.mq_flag

-- The watchers and the flag of the dispatcher are as they were.
pub record SameConnections (s t : Server) : Type 0 where
  pub same_list : t.libev_list ≡ s.libev_list
  pub same_ev : t.ev_pool ≡ s.ev_pool
  pub same_flag : t.mq_flag ≡ s.mq_flag

-- No buffer has another `data_length` than it had.
abbrev pub SameLengths : (Ptr → Obd) → (Ptr → Obd) → Type 0
SameLengths f g = (q : Ptr) → (g q).data_length ≡ (f q).data_length

pub update-SameLengths :
    (f : Ptr → Obd) (p : Ptr) (o : Obd)
    → o.data_length ≡ (f p).data_length
    → SameLengths f (update f p o)
update-SameLengths f p o e q = elim (Bool-cases (q == p)) [
  | inl same ↦ rw same (rw ((==_iff q p).0 same) e)
  | inr other ↦ rw other refl
]
