-- ===== src/Topology/ChannelManager/Changes.antt =====
-- The graph of the channel manager after any calls.
use hongwei_notebook.Common.{
  ℕ, Bool, true, false, List, [], ◌∷◌, some, ◌≡◌, refl, arith, if◌then◌else◌, inl, inr, ◌⊎◌,
}
use hongwei_notebook.Graph.{insert_edge, delete_edge}
use hongwei_notebook.Graph.Names.{plain}
use hongwei_notebook.Graph.Links.Linked.{Linked}
use hongwei_notebook.Graph.Links.Inserted.{insert_edge-Linked}
use hongwei_notebook.Graph.Links.Deleted.{delete_edge-Linked}
use hongwei_notebook.Role.{RoleAttributes}
use hongwei_notebook.Topology.{OperateType, opt_join, opt_leave, RoleType, ChangeMsg, convert}
use hongwei_notebook.Topology.ChannelManager.{
  ChannelManager, name_of, edge_of, dispose, dispose_join, dispose_leave, notify, join, leave,
  on_remote_change,
}

-- The calls that change a manager, with the time at which they are made.
pub data Call : Type 0 where
  calls_join : ℕ → RoleAttributes → RoleType → Bool → Call
  calls_leave : ℕ → RoleAttributes → RoleType → Call
  hears : ChangeMsg → Call

module _ (write : ChangeMsg → Bool) where
  unfoldable pub call : ChannelManager → Call → ChannelManager
  call m (calls_join now attr role need_publish) = (join write now m attr role need_publish).0
  call m (calls_leave now attr role) = (leave write now m attr role).0
  call m (hears msg) = on_remote_change m (some msg)

  unfoldable pub call_all : ChannelManager → List Call → ChannelManager
  unfolding call
  call_all m [] = m
  call_all m (c ∷ cs) = call_all (call m c) cs

-- The node that a call names has no underscore in its name.
abbrev pub IsPlain : Call → Type 0
IsPlain (calls_join now attr role need_publish) = plain (name_of attr) ≡ true
IsPlain (calls_leave now attr role) = plain (name_of attr) ≡ true
IsPlain (hears msg) = plain (name_of msg.role_attr) ≡ true

abbrev pub AllPlain : List Call → Type 0
AllPlain [] = Unit {0}
AllPlain (c ∷ cs) = IsPlain c × AllPlain cs

edge_of_plain :
    (msg : ChangeMsg) → plain (name_of msg.role_attr) ≡ true → plain (edge_of msg).dst ≡ true
unfolding edge_of
edge_of_plain msg p = ground (arith, p)

pub node_graph-join :
    (m : ChannelManager) (msg : ChangeMsg)
    → msg.operate_type ≡ opt_join
    → (dispose m msg).node_graph ≡ insert_edge m.node_graph (edge_of msg)
unfolding dispose dispose_join notify
node_graph-join m msg e = ground (arith, e)

pub node_graph-leave :
    (m : ChannelManager) (msg : ChangeMsg)
    → msg.operate_type ≡ opt_leave
    → (dispose m msg).node_graph ≡ delete_edge m.node_graph (edge_of msg)
unfolding dispose dispose_leave notify
node_graph-leave m msg e = ground (arith, e)

operate_type-cases : (o : OperateType) → (o ≡ opt_join) ⊎ (o ≡ opt_leave)
operate_type-cases opt_join = inl refl
operate_type-cases opt_leave = inr refl

dispose-Linked :
    (m : ChannelManager) (msg : ChangeMsg)
    → plain (name_of msg.role_attr) ≡ true
    → Linked m.node_graph
    → Linked (dispose m msg).node_graph
dispose-Linked m msg p l = elim (operate_type-cases msg.operate_type) [
  | inl e ↦
      rw (node_graph-join m msg e)
        (insert_edge-Linked m.node_graph (edge_of msg) (edge_of_plain msg p) l)
  | inr e ↦
      rw (node_graph-leave m msg e)
        (delete_edge-Linked m.node_graph (edge_of msg) (edge_of_plain msg p) l)
]

select-Linked :
    (b : Bool) (x y : ChannelManager)
    → Linked x.node_graph
    → Linked y.node_graph
    → Linked (if b then x else y).node_graph
select-Linked true x y p q = p
select-Linked false x y p q = q

first-Linked :
    (b : Bool) (x y : ChannelManager × Bool)
    → Linked x.0.node_graph
    → Linked y.0.node_graph
    → Linked (if b then x else y).0.node_graph
first-Linked true x y p q = p
first-Linked false x y p q = q

module _ (write : ChangeMsg → Bool) where
  call-Linked :
      (m : ChannelManager) (c : Call)
      → IsPlain c
      → Linked m.node_graph
      → Linked (call write m c).node_graph
  unfolding call join leave on_remote_change convert
  call-Linked m (calls_join now attr role need_publish) p l =
      first-Linked _ (m, false) (dispose m (convert m.process now attr role opt_join), _) l
        (dispose-Linked m (convert m.process now attr role opt_join) p l)
  call-Linked m (calls_leave now attr role) p l =
      first-Linked _ (m, false) (dispose m (convert m.process now attr role opt_leave), _) l
        (dispose-Linked m (convert m.process now attr role opt_leave) p l)
  call-Linked m (hears msg) p l = select-Linked _ m (dispose m msg) l (dispose-Linked m msg p l)

  pub call_all-Linked :
      (cs : List Call) (m : ChannelManager)
      → AllPlain cs
      → Linked m.node_graph
      → Linked (call_all write m cs).node_graph
  unfolding call_all
  call_all-Linked [] m p l = l
  call_all-Linked (c ∷ cs) m p l = call_all-Linked cs (call write m c) p.1 (call-Linked m c p.0 l)
