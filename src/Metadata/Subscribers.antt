-- ===== src/Metadata/Subscribers.antt =====
-- What a subscriber of the routes has waiting for it that takes nothing for a while.
use rockskv.Prelude.{
  ltb, Bool-cases, length, take, length-append, take-length-append, ℕ, zero, suc, ◌≤◌, ◌≡◌, refl,
  sym, ap, ◌∙◌, inl, inr, some, List, [], ◌∷◌, ◌++◌, append-nil, append_assoc, arith,
}
use rockskv.Bytes.{Bytes}
use rockskv.Routes.{RouteTable}
use rockskv.Metadata.{channel_size, MetadataServer, offer, notify_all, waiting, deliver}

-- The watch delivers one table after another.
abbrev pub deliver_all : List RouteTable → MetadataServer → MetadataServer
deliver_all [] m = m
deliver_all (t ∷ ts) m = deliver_all ts (deliver t m)

-- the last of the tables, or else the one before them
abbrev pub newest : RouteTable → List RouteTable → RouteTable
newest before [] = before
newest before (t ∷ ts) = newest t ts

waiting-notify_all :
    (id : Bytes) (t : RouteTable) (subs : List (Bytes × List RouteTable)) (queue : List RouteTable)
    → waiting id subs ≡ some queue
    → waiting id (notify_all t subs) ≡ some (offer t queue)
unfolding waiting notify_all
waiting-notify_all id t [] queue h = absurd (ground arith)
waiting-notify_all id t ((j, q) ∷ subs) queue h = ground (arith, waiting-notify_all id t subs queue)

take_all : (n : ℕ) (xs : List RouteTable) → length xs ≤ n → take n xs ≡ xs
take_all zero [] h = refl
take_all zero (x ∷ xs) h = absurd (omega arith)
take_all (suc n) [] h = refl
take_all (suc n) (x ∷ xs) h = ap (λ l. x ∷ l) (take_all n xs (omega arith))

take-offer :
    (t : RouteTable) (queue ts : List RouteTable)
    → length queue ≤ channel_size
    → (take channel_size (offer t queue ++ ts) ≡ take channel_size (queue ++ (t ∷ ts)))
      × (length (offer t queue) ≤ channel_size)
unfolding offer
take-offer t queue ts h = elim (Bool-cases (ltb (length queue) channel_size)) [
  | inl room ↦ rw room (
    ap (take channel_size) (append_assoc queue (t ∷ []) ts),
    ground (arith, length-append queue (t ∷ [])),
  )
  | inr full ↦ rw full (
    take-length-append channel_size queue ts (ground arith)
        ∙ sym (take-length-append channel_size queue (t ∷ ts) (ground arith)),
    h,
  )
]

waiting_after :
    (id : Bytes) (ts : List RouteTable) (m : MetadataServer) (queue : List RouteTable)
    → waiting id m.subscribers ≡ some queue
    → length queue ≤ channel_size
    → waiting id (deliver_all ts m).subscribers ≡ some (take channel_size (queue ++ ts))
waiting_after id [] m queue h small =
    h ∙ ap some (sym (rw append-nil (take_all channel_size queue small)))
waiting_after id (t ∷ ts) m queue h small =
    let (kept, fits) = take-offer t queue ts small in
    waiting_after id ts (deliver t m) (offer t queue)
      (unfold deliver in waiting-notify_all id t m.subscribers queue h) fits
    ∙ ap some kept

deliver_all_table :
    (ts : List RouteTable) (m : MetadataServer)
    → (deliver_all ts m).router.route_table ≡ newest m.router.route_table ts
deliver_all_table [] m = refl
deliver_all_table (t ∷ ts) m = deliver_all_table ts (deliver t m) ∙ (unfold deliver in refl)

-- Of the tables that the watch delivers while a subscriber takes none, its channel holds the first
-- ones that fit, behind those that waited before, up to ten in all; every later table is dropped
-- for it, while the router itself has the newest one, or its old one where none is delivered.
pub waiting-deliver_all :
    (id : Bytes) (ts : List RouteTable) (m : MetadataServer) (queue : List RouteTable)
    → waiting id m.subscribers ≡ some queue
    → length queue ≤ channel_size
    → (waiting id (deliver_all ts m).subscribers ≡ some (take channel_size (queue ++ ts)))
      × ((deliver_all ts m).router.route_table ≡ newest m.router.route_table ts)
waiting-deliver_all id ts m queue h small =
    (waiting_after id ts m queue h small, deliver_all_table ts m)
