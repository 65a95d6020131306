-- ===== src/Ring.antt =====
-- The consistent hash ring of pkg/metadata/consistent_hash.go. Addresses are byte strings, as Go's
-- strings are; the empty string stands for "no node". Locks are left out: each method is one step.
pub mod Search
pub mod Owners
pub mod Nodes
pub mod Tests
use rockskv.Prelude.{
  ltb, leb, ◌==◌, if◌then◌else◌, length, get_or, ℕ, zero, suc, ◌+◌, ◌-◌, ◌/◌, ◌%◌, Bool, false,
  ◌||◌, none, some, List, [], ◌∷◌, ◌++◌,
}
use rockskv.Prelude.Dict.{Dict, lookup, delete, insert}
use rockskv.Bytes.{Bytes, ascii, bytes_eq}
use rockskv.Crc.{checksum_ieee}

abbrev pub default_virtual_nodes : ℕ
default_virtual_nodes = 150

pub record ConsistentHash : Type 0 where
  pub virtual_nodes : ℕ
  pub ring : List ℕ
  pub node_map : Dict Bytes
  pub nodes : List Bytes

-- A count that is not positive is the default one.
unfoldable pub new_consistent_hash : ℕ → ConsistentHash
new_consistent_hash virtual_nodes = record {
  virtual_nodes = if virtual_nodes == 0 then default_virtual_nodes else virtual_nodes;
  ring = [];
  node_map = [];
  nodes = [];
}

-- `%d`: each round drops a digit, so a number's own value and one more are rounds enough.
digits : ℕ → ℕ → Bytes → Bytes
digits zero n after = after
digits (suc fuel) n after =
    let here = (48 + n % 10) ∷ after in
    let more = digits fuel (n / 10) here in if n / 10 == 0 then here else more

unfoldable pub decimal : ℕ → Bytes
unfolding digits
decimal n = digits (suc n) n []

unfoldable pub hash : Bytes → ℕ
hash key = checksum_ieee key

unfoldable pub virtual_node_hash : Bytes → ℕ → ℕ
unfolding hash decimal
virtual_node_hash addr i = hash (addr ++ (b'#' ∷ decimal i))

-- whether `ch.nodes` has the address
unfoldable pub has_node : Bytes → List Bytes → Bool
has_node addr [] = false
has_node addr (a ∷ as') = bytes_eq a addr || has_node addr as'

unfoldable pub remove_address : Bytes → List Bytes → List Bytes
remove_address addr [] = []
remove_address addr (a ∷ as') =
    let rest = remove_address addr as' in if bytes_eq a addr then rest else a ∷ rest

-- `sort.Slice` of numbers
unfoldable pub insert_sorted : ℕ → List ℕ → List ℕ
insert_sorted h [] = h ∷ []
insert_sorted h (x ∷ xs) = if leb h x then h ∷ x ∷ xs else x ∷ insert_sorted h xs

unfoldable pub sort_ring : List ℕ → List ℕ
unfolding insert_sorted
sort_ring [] = []
sort_ring (h ∷ hs) = insert_sorted h (sort_ring hs)

-- the loop of `AddNode`, by the rounds left
unfoldable pub virtual_hashes : ℕ → ℕ → Bytes → List ℕ
virtual_hashes zero i addr = []
virtual_hashes (suc k) i addr = virtual_node_hash addr i ∷ virtual_hashes k (i + 1) addr

unfoldable pub claim : Bytes → List ℕ → Dict Bytes → Dict Bytes
claim addr [] m = m
claim addr (h ∷ hs) m = claim addr hs (insert h addr m)

unfoldable pub add_node : Bytes → ConsistentHash → ConsistentHash
unfolding virtual_hashes claim sort_ring has_node
add_node addr ch =
    let hashes = virtual_hashes ch.virtual_nodes 0 addr in
    if has_node addr ch.nodes then ch else record ch {
      nodes = addr ∷ ch.nodes;
      ring = sort_ring (ch.ring ++ hashes);
      node_map = claim addr hashes ch.node_map;
    }

-- `ch.nodeMap[hash]`, which is "" where the hash is missing
unfoldable pub owner : Dict Bytes → ℕ → Bytes
owner m h = elim (lookup h m) [ none ↦ [] | some a ↦ a ]

-- the loop of `RemoveNode`, which deletes from the map that it reads
unfoldable pub release : Bytes → List ℕ → Dict Bytes → List ℕ × Dict Bytes
release addr [] m = ([], m)
release addr (h ∷ hs) m =
    let dropped = release addr hs (delete h m) in
    let (ring, m') = release addr hs m in
    if bytes_eq (owner m h) addr then dropped else (h ∷ ring, m')

unfoldable pub remove_node : Bytes → ConsistentHash → ConsistentHash
unfolding release has_node remove_address owner
remove_node addr ch =
    let (ring, node_map) = release addr ch.ring ch.node_map in
    if has_node addr ch.nodes
    then record ch { nodes = remove_address addr ch.nodes; ring = ring; node_map = node_map }
    else ch

-- `sort.Search`: the binary search of Go's sort package, by rounds
unfoldable pub bisect : ℕ → (ℕ → Bool) → ℕ → ℕ → ℕ
bisect zero p i j = i
bisect (suc fuel) p i j =
    let half = (i + j) / 2 in
    let left = bisect fuel p i half in
    let right = bisect fuel p (half + 1) j in
    if ltb i j then (if p half then left else right) else i

unfoldable pub sort_search : ℕ → (ℕ → Bool) → ℕ
unfolding bisect
sort_search n p = bisect n p 0 n

unfoldable pub search : ℕ → List ℕ → ℕ
unfolding sort_search
search h ring =
    let idx = sort_search (length ring) (λ i. leb h (get_or ring i 0)) in
    if leb (length ring) idx then 0 else idx

unfoldable pub get_node : Bytes → ConsistentHash → Bytes
unfolding owner
get_node key ch =
    if length ch.ring == 0
    then []
    else owner ch.node_map (get_or ch.ring (search (hash key) ch.ring) 0)

-- the loop for the next different physical node
unfoldable pub find_replica : ℕ → ℕ → ℕ → Bytes → ConsistentHash → Bytes
unfolding owner
find_replica zero i idx primary ch = []
find_replica (suc k) i idx primary ch =
    let next = owner ch.node_map (get_or ch.ring ((idx + i) % length ch.ring) 0) in
    let rest = find_replica k (i + 1) idx primary ch in if bytes_eq next primary then rest else next

abbrev pub partition_key : ℕ → Bytes
partition_key partition_id = ascii "partition-" ++ decimal partition_id

unfoldable pub get_nodes : ℕ → ConsistentHash → Bytes × Bytes
unfolding find_replica
get_nodes partition_id ch =
    let idx = search (hash (partition_key partition_id)) ch.ring in
    let primary = owner ch.node_map (get_or ch.ring idx 0) in
    if length ch.ring == 0
    then ([], [])
    else (primary, find_replica (length ch.ring - 1) 1 idx primary ch)

unfoldable pub node_count : ConsistentHash → ℕ
node_count ch = length ch.nodes
