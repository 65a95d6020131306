-- ===== src/Routes/Nodes.antt =====
-- The registered nodes in the store of pkg/metadata/etcd.go. A node has one key, whatever its role;
-- etcd lists the keys in the order of the ids. The time of the last heartbeat is left out.
use rockskv.Prelude.{if◌then◌else◌, Option, none, some, List, [], ◌∷◌}
use rockskv.Bytes.{Bytes, bytes_eq, bytes_lt}
use rockskv.Routes.{NodeStatus, NodeInfo, Etcd}

pub data NodeRole : Type 0 where
  storage compute metadata : NodeRole

unfoldable pub find_node : Bytes → List NodeInfo → Option NodeInfo
find_node id [] = none
find_node id (n ∷ ns) = if bytes_eq n.id id then some n else find_node id ns

-- `GetNode`
unfoldable pub get_node : Bytes → Etcd → Option NodeInfo
unfolding find_node
get_node id s = elim (find_node id s.storage_nodes) as (λ _. Option NodeInfo) [
  | some n ↦ some n
  | none ↦ find_node id s.other_nodes
]

unfoldable pub put_node : NodeInfo → List NodeInfo → List NodeInfo
put_node n [] = n ∷ []
put_node n (m ∷ ms) =
    let rest = put_node n ms in
    if bytes_eq m.id n.id then n ∷ ms else if bytes_lt n.id m.id then n ∷ m ∷ ms else m ∷ rest

unfoldable pub drop_node : Bytes → List NodeInfo → List NodeInfo
drop_node id [] = []
drop_node id (n ∷ ns) = let rest = drop_node id ns in if bytes_eq n.id id then rest else n ∷ rest

unfoldable pub online_node : Bytes → Bytes → NodeInfo
online_node id addr = record { id = id; addr = addr; status = NodeStatus.online }

-- `RegisterNode`: a node that registers again is online, under the role that it names now
unfoldable pub register_node_info : NodeRole → Bytes → Bytes → Etcd → Etcd
unfolding put_node drop_node online_node
register_node_info storage id addr s = record s {
  storage_nodes = put_node (online_node id addr) s.storage_nodes;
  other_nodes = drop_node id s.other_nodes;
}
register_node_info _ id addr s = record s {
  storage_nodes = drop_node id s.storage_nodes;
  other_nodes = put_node (online_node id addr) s.other_nodes;
}

-- `UnregisterNode`
unfoldable pub unregister_node : Bytes → Etcd → Etcd
unfolding drop_node
unregister_node id s = record s {
  storage_nodes = drop_node id s.storage_nodes;
  other_nodes = drop_node id s.other_nodes;
}

unfoldable pub with_status : Bytes → NodeStatus → List NodeInfo → List NodeInfo
with_status id status [] = []
with_status id status (n ∷ ns) =
    (if bytes_eq n.id id then record n { status = status } else n) ∷ with_status id status ns

-- `UpdateNodeStatus` of a node that is registered; of another it is an error, without an effect
unfoldable pub update_node_status : Bytes → NodeStatus → Etcd → Etcd
unfolding with_status
update_node_status id status s = record s {
  storage_nodes = with_status id status s.storage_nodes;
  other_nodes = with_status id status s.other_nodes;
}
