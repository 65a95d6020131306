-- ===== src/Metadata/Leader.antt =====
-- The leader election of pkg/metadata/leader.go and the leader check of pkg/metadata/ha_server.go.
-- The election itself is etcd's: that a campaign is won, a session lost or a leader observed are
-- steps. A change of leadership starts a goroutine that tells the server; `pending` are those that
-- have not run, in the order in which they were started.
use rockskv.Prelude.{
  if◌then◌else◌, Bool-cases, ◌≡◌, refl, sym, ap, ◌∙◌, ◌↔◌, inl, inr, Bool, true, false, not, Option,
  none, some, List, [], ◌∷◌, ◌++◌, arith,
}
use rockskv.Bytes.{Bytes}
use rockskv.Routes.Nodes.{NodeRole}
use rockskv.Routes.{Router}
use rockskv.Metadata.{register_node}

-- `elected` and `leader_id` are the election's, `is_leader` the server's
pub record HaServer : Type 0 where
  pub node_id : Bytes
  pub ha_enabled : Bool
  pub elected : Bool
  pub leader_id : Bytes
  pub pending : List Bool
  pub is_leader : Bool

unfoldable pub new_ha_server : Bytes → Bool → HaServer
new_ha_server node_id ha_enabled = record {
  node_id = node_id;
  ha_enabled = ha_enabled;
  elected = false;
  leader_id = [];
  pending = [];
  is_leader = not ha_enabled;
}

unfoldable pub become_leader : HaServer → HaServer
become_leader s = record s {
  elected = true;
  leader_id = s.node_id;
  pending = s.pending ++ (true ∷ []);
}

unfoldable pub lose_leadership : HaServer → HaServer
lose_leadership s = record s { elected = false; pending = s.pending ++ (false ∷ []) }

-- no callback is told
unfoldable pub resign_leadership : HaServer → HaServer
resign_leadership s = record s { elected = false }

unfoldable pub observe_leader : Bytes → HaServer → HaServer
observe_leader id s = record s { leader_id = id }

unfoldable pub on_leadership_change : Bool → HaServer → HaServer
on_leadership_change b s = record s { is_leader = b }

-- `none` for a leader; otherwise the id that the refusal names
unfoldable pub check_leader_for_write : HaServer → Option Bytes
check_leader_for_write s =
    if not s.ha_enabled then none else if s.is_leader then none else some s.leader_id

-- `RegisterNode` with the check; the other methods that write have the same form
unfoldable pub ha_register_node :
    HaServer → Bool → Bool → Bool → NodeRole → Bytes → Bytes → Router → Router × Bool
unfolding check_leader_for_write register_node
ha_register_node s registered listed saved role id addr r = elim (check_leader_for_write s) [
  | none ↦ register_node registered listed saved role id addr r
  | some leader ↦ (r, false)
]

-- The steps; the goroutines run in the order in which they were started.
pub data LeaderStep : HaServer → HaServer → Type 0 where
  won : (s : HaServer) → LeaderStep s (become_leader s)
  lost : (s : HaServer) → LeaderStep s (lose_leadership s)
  observed : (s : HaServer) (id : Bytes) → LeaderStep s (observe_leader id s)
  told :
      (s : HaServer) (b : Bool) (rest : List Bool)
      → s.pending ≡ b ∷ rest
      → LeaderStep s (on_leadership_change b (record s { pending = rest }))

pub data LeaderSteps (s : HaServer) : HaServer → Type 0 where
  here : LeaderSteps s s
  next : {t u : HaServer} → LeaderSteps s t → LeaderStep t u → LeaderSteps s u

abbrev last_or : Bool → List Bool → Bool
last_or b [] = b
last_or b (x ∷ xs) = last_or x xs

last_or-append : (b y : Bool) (xs : List Bool) → last_or b (xs ++ (y ∷ [])) ≡ y
last_or-append b y [] = refl
last_or-append b y (x ∷ xs) = last_or-append x y xs

-- What the server will take itself to be is what the election says.
abbrev Agrees : HaServer → Type 0
Agrees s = (last_or s.is_leader s.pending ≡ s.elected) × (s.ha_enabled ≡ true)

LeaderStep-Agrees : {s t : HaServer} → LeaderStep s t → Agrees s → Agrees t
unfolding become_leader lose_leadership observe_leader on_leadership_change
LeaderStep-Agrees (won s) h = (last_or-append s.is_leader true s.pending, h.1)
LeaderStep-Agrees (lost s) h = (last_or-append s.is_leader false s.pending, h.1)
LeaderStep-Agrees (observed s id) h = h
LeaderStep-Agrees (told s b rest e) h = (ap (last_or s.is_leader) (sym e) ∙ h.0, h.1)

LeaderSteps-Agrees : {s t : HaServer} → LeaderSteps s t → Agrees s → Agrees t
LeaderSteps-Agrees here h = h
LeaderSteps-Agrees (next r st) h = LeaderStep-Agrees st (LeaderSteps-Agrees r h)

-- From the start of a server with HA enabled, through any campaigns won, sessions lost and leaders
-- observed, with the callbacks run in the order of the changes: whenever no callback is waiting,
-- the check of a write passes exactly on the elected node.
pub check_leader_for_write_lem :
    (node_id : Bytes) (s : HaServer)
    → LeaderSteps (new_ha_server node_id true) s
    → s.pending ≡ []
    → (check_leader_for_write s ≡ none) ↔ (s.elected ≡ true)
unfolding check_leader_for_write
check_leader_for_write_lem node_id s steps idle =
    let (agrees, enabled) = LeaderSteps-Agrees steps (unfold new_ha_server in (refl, refl)) in
    let same : s.is_leader ≡ s.elected = ap (last_or s.is_leader) (sym idle) ∙ agrees in
    ground arith

-- The two goroutines of a leadership that is won and lost may run in either order. In the other
-- one, with none waiting afterwards, the node is not elected but the check of a write passes, and
-- it carries out registrations like a leader.
pub ha_register_node_reordered :
    (s : HaServer) (registered listed saved : Bool) (role : NodeRole) (id addr : Bytes) (r : Router)
    → s.pending ≡ []
    → let lost_again = lose_leadership (become_leader s) in
      let told_both =
        on_leadership_change true
          (on_leadership_change false (record lost_again { pending = [] })) in
      (lost_again.pending ≡ true ∷ false ∷ [])
      × (told_both.elected ≡ false)
      × (ha_register_node told_both registered listed saved role id addr r
          ≡ register_node registered listed saved role id addr r)
unfolding ha_register_node check_leader_for_write become_leader lose_leadership on_leadership_change
ha_register_node_reordered s registered listed saved role id addr r idle = (
  ap (λ l. (l ++ (true ∷ [])) ++ (false ∷ [])) idle,
  refl,
  elim (Bool-cases s.ha_enabled) [
    | inl e ↦ rw (e, ha_register_node) refl
    | inr e ↦ rw (e, ha_register_node) refl
  ],
)
