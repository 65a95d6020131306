-- ===== src/Epochs/Zero.antt =====
-- The messages of the metadata server have no epochs, so a compute node has none.
use rockskv.Epochs.{RouterEvent, take_event, take_events, updated, refreshed, refresh_failed}
use rockskv.Compute.{
  Router, enter, update_route_table, update_route_table_from_update, finish_refresh,
}
use rockskv.Prelude.{
  leb, ◌==◌, if◌then◌else◌, length, All, ℕ, ◌≡◌, refl, Bool, true, false, some, List, [], ◌∷◌,
  arith,
}
use rockskv.Prelude.Dict.{Dict, lookup, lookup-insert}
use rockskv.Routes.{PartitionInfo, RouteTable}
use rockskv.Metadata.{RouteUpdate, wire_partitions, send_route_update, get_route_table}

abbrev pub IsUnfenced : Dict PartitionInfo → Type 0
IsUnfenced m = (k : ℕ) (p : PartitionInfo) → lookup k m ≡ some p → p.epoch ≡ 0

abbrev pub ZeroEpochs : List PartitionInfo → Type 0
ZeroEpochs ps = All (λ (p : PartitionInfo). p.epoch ≡ 0) ps

pub wire_partitions-ZeroEpochs : (m : Dict PartitionInfo) → ZeroEpochs (wire_partitions m)
unfolding wire_partitions
wire_partitions-ZeroEpochs [] = tt
wire_partitions-ZeroEpochs ((j, p) ∷ m) = (refl, wire_partitions-ZeroEpochs m)

enter-IsUnfenced :
    (ps : List PartitionInfo) (m : Dict PartitionInfo)
    → ZeroEpochs ps
    → IsUnfenced m
    → IsUnfenced (enter ps m)
unfolding enter
enter-IsUnfenced [] m z h = h
enter-IsUnfenced (p ∷ ps) m (zero_p, z) h =
    enter-IsUnfenced ps _ z (λ k q e. ground (arith, lookup-insert p.id k p m, h k q))

-- both messages have the epochs of the protocol's entries
get_route_table-ZeroEpochs : (v : ℕ) (t : RouteTable) → ZeroEpochs (get_route_table v t).partitions
unfolding get_route_table
get_route_table-ZeroEpochs v t = either (leb t.version v)
  where
    either :
        (b : Bool)
        → ZeroEpochs
            (if b
              then record { version = t.version; partitions = [] }
              else (let u : RouteUpdate = record {
                version = t.version;
                partitions = wire_partitions t.partitions;
              } in
                  u)).partitions
    either true = tt
    either false = wire_partitions-ZeroEpochs t.partitions

if-IsUnfenced :
    (b : Bool) (r x : Router)
    → IsUnfenced r.route_table.partitions
    → IsUnfenced x.route_table.partitions
    → IsUnfenced (if b then r else x).route_table.partitions
if-IsUnfenced true r x h k = h
if-IsUnfenced false r x h k = k

pub empty-IsUnfenced : IsUnfenced []
unfolding lookup
empty-IsUnfenced k p e = absurd (ground arith)

take_event-IsUnfenced :
    (e : RouterEvent) (r : Router)
    → IsUnfenced r.route_table.partitions
    → IsUnfenced (take_event e r).route_table.partitions
unfolding take_event finish_refresh
take_event-IsUnfenced (updated t) r h =
    unfold update_route_table_from_update send_route_update in
    if-IsUnfenced (leb t.version r.route_table.version) r _ h (
      enter-IsUnfenced (wire_partitions t.partitions) r.route_table.partitions
        (wire_partitions-ZeroEpochs t.partitions) h)
take_event-IsUnfenced (refreshed v t) r h =
    if-IsUnfenced (length (get_route_table v t).partitions == 0) r
      (update_route_table (get_route_table v t) r) h
      (unfold update_route_table in
        enter-IsUnfenced (get_route_table v t).partitions [] (get_route_table-ZeroEpochs v t)
          empty-IsUnfenced)
take_event-IsUnfenced refresh_failed r h = h

pub take_events-IsUnfenced :
    (es : List RouterEvent) (r : Router)
    → IsUnfenced r.route_table.partitions
    → IsUnfenced (take_events es r).route_table.partitions
unfolding take_events
take_events-IsUnfenced [] r h = h
take_events-IsUnfenced (e ∷ es) r h =
    take_events-IsUnfenced es (take_event e r) (take_event-IsUnfenced e r h)
