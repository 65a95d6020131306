-- ===== src/Epochs.antt =====
-- The fencing tokens from the metadata server to a storage node, over pkg/metadata/server.go,
-- pkg/compute/router.go and pkg/storage/server.go: a node learns the epochs of its partitions, and a
-- compute node those of its requests, only from the messages of the metadata server.
pub mod Zero
pub mod Unfenced
pub mod Tests
use rockskv.Compute.{Router, update_route_table_from_update, finish_refresh}
use rockskv.Prelude.{ℕ, Bool, Option, none, some, List, [], ◌∷◌}
use rockskv.Bytes.{Bytes}
use rockskv.Rocks.{RocksDb}
use rockskv.Routes.{RouteTable}
use rockskv.Replication.{Tick}
use rockskv.Metadata.{send_route_update, get_route_table}
use rockskv.Server.{Server, WriteRequest, acquire_node_lease, lose_node_lease, handle_write}
use rockskv.Server.Assignment.{update_partitions_from_route}

-- What a compute node's router goes through: an update of the subscription, or the answer to a
-- refresh that was asked for with a version of any time, or its failure.
pub data RouterEvent : Type 0 where
  updated : RouteTable → RouterEvent
  refreshed : ℕ → RouteTable → RouterEvent
  refresh_failed : RouterEvent

unfoldable pub take_event : RouterEvent → Router → Router
unfolding update_route_table_from_update finish_refresh
take_event (updated t) r = update_route_table_from_update (send_route_update t) r
take_event (refreshed v t) r = finish_refresh (some (get_route_table v t)) r
take_event refresh_failed r = finish_refresh none r

unfoldable pub take_events : List RouterEvent → Router → Router
unfolding take_event
take_events [] r = r
take_events (e ∷ es) r = take_events es (take_event e r)

-- What a storage node goes through: a table of the subscription, a write, or a change of its lease.
pub data NodeEvent : Type 0 where
  routed : (ℕ → Bool) → ℕ → RouteTable → NodeEvent
  written : Bool → (ℕ → Tick) → WriteRequest → NodeEvent
  leased : Option ℕ → NodeEvent
  lease_lost : NodeEvent

module _ {Db : Type 0} (rocks : RocksDb Db) (addr : Bytes) where
  unfoldable pub node_event : NodeEvent → Server Db → Server Db
  unfolding update_partitions_from_route handle_write acquire_node_lease lose_node_lease
  node_event (routed opens now t) s =
      update_partitions_from_route opens now addr (send_route_update t).partitions s
  node_event (written succeeds ticks r) s = (handle_write rocks succeeds ticks r s).0
  node_event (leased id) s = (acquire_node_lease id s).0
  node_event lease_lost s = lose_node_lease s

  unfoldable pub node_events : List NodeEvent → Server Db → Server Db
  unfolding node_event
  node_events [] s = s
  node_events (e ∷ es) s = node_events es (node_event e s)
