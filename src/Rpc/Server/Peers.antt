-- ===== src/Rpc/Server/Peers.antt =====
-- The two sides of visibility: a node's set of peers and a peer's set of nodes.
use heat_gun.Base.{
  &&-false, Option-cases, ℕ, ◌≡◌, refl, ◌∙◌, Bool, true, false, ◌&&◌, ◌||◌, List, [], ◌∷◌, Option,
  none, some, arith, contains, set_insert, set_remove, contains-set_insert, contains-set_remove,
  Map, insert, nat_key, ◌==◌, ==_iff, if◌then◌else◌, is_some, Bool-cases, inl, inr,
}
use heat_gun.Rpc.Server.{
  RpcServerNode, RpcServerPeer, peer_connected, peer_insert, peer_remove, forget_node, forget_peer,
}
use heat_gun.Rpc.Server.Bits.{node_sees}

abbrev pub peer_sees : Option RpcServerPeer → ℕ → Bool
peer_sees none n = false
peer_sees (some p) n = contains n p.vis_set

-- A node lists a peer exactly when the peer lists the node.
abbrev pub Mutual : Map ℕ RpcServerNode → Map ℕ RpcServerPeer → Type 0
Mutual nodes peers = (n p : ℕ) → node_sees (nodes n) p ≡ peer_sees (peers p) n

-- The node keeps its id and its queue.
abbrev pub SameNode : Option RpcServerNode → Option RpcServerNode → Type 0
SameNode none none = Unit {0}
SameNode none (some n) = ⊥
SameNode (some m) none = ⊥
SameNode (some m) (some n) = (m.node_id ≡ n.node_id) × (m.queue ≡ n.queue)

pub insert_peer-sees :
    (n p x y : ℕ) (pd : RpcServerPeer) (peers : Map ℕ RpcServerPeer)
    → peers p ≡ some pd
    → peer_sees (insert p (peer_insert n pd) peers x) y
      ≡ (if n == y && p == x then true else peer_sees (peers x) y)
insert_peer-sees n p x y pd peers e = elim (Bool-cases (p == x)) [
  | inl h ↦ rw (h, ← (==_iff p x).0 h, e) (ground (arith, contains-set_insert n y pd.vis_set))
  | inr h ↦ rw (h, &&-false (n == y))
]

pub remove_peer-sees :
    (n p x y : ℕ) (pd : RpcServerPeer) (peers : Map ℕ RpcServerPeer)
    → peers p ≡ some pd
    → peer_sees (insert p (peer_remove n pd) peers x) y
      ≡ (if n == y && p == x then false else peer_sees (peers x) y)
remove_peer-sees n p x y pd peers e = elim (Bool-cases (p == x)) [
  | inl h ↦ rw (h, ← (==_iff p x).0 h, e) (ground (arith, contains-set_remove n y pd.vis_set))
  | inr h ↦ rw (h, &&-false (n == y))
]

pub insert_node-sees :
    (n p x y : ℕ) (nd : RpcServerNode) (nodes : Map ℕ RpcServerNode)
    → nodes n ≡ some nd
    → node_sees (insert n (record nd { visible_to = set_insert p nd.visible_to }) nodes y) x
      ≡ (if n == y && p == x then true else node_sees (nodes y) x)
insert_node-sees n p x y nd nodes e = elim (Bool-cases (n == y)) [
  | inl h ↦ rw (h, ← (==_iff n y).0 h, e) (ground (arith, contains-set_insert p x nd.visible_to))
  | inr h ↦ rw h
]

pub remove_node-sees :
    (n p x y : ℕ) (nd : RpcServerNode) (nodes : Map ℕ RpcServerNode)
    → nodes n ≡ some nd
    → node_sees (insert n (record nd { visible_to = set_remove p nd.visible_to }) nodes y) x
      ≡ (if n == y && p == x then false else node_sees (nodes y) x)
remove_node-sees n p x y nd nodes e = elim (Bool-cases (n == y)) [
  | inl h ↦ rw (h, ← (==_iff n y).0 h, e) (ground (arith, contains-set_remove p x nd.visible_to))
  | inr h ↦ rw h
]

some_insert {ℓ} :
    {V : Type ℓ} (p x : ℕ) (d : V) (m : Map ℕ V)
    → ((p == x) ≡ false → is_some (m x) ≡ true)
    → is_some (insert p d m x) ≡ true
some_insert p x d m h = elim (Bool-cases (p == x)) [ inl e ↦ rw e | inr e ↦ rw e (h e) ]

||-true : (b : Bool) → (b || true) ≡ true
||-true true = refl
||-true false = refl

drop_cases :
    (a b c s : Bool)
    → (if a && c then false else (if a && b then false else s))
      ≡ (if a && (b || c) then false else s)
drop_cases a b c s = ground arith

drop_cases' :
    (a b c s : Bool)
    → (if a && c then false else (if b && a then false else s))
      ≡ (if a && (b || c) then false else s)
drop_cases' a b c s = ground arith

pub connected-insert :
    (p x : ℕ) (pd pd' : RpcServerPeer) (peers : Map ℕ RpcServerPeer)
    → peers p ≡ some pd
    → pd'.connected ≡ pd.connected
    → peer_connected (insert p pd' peers x) ≡ peer_connected (peers x)
connected-insert p x pd pd' peers e same = elim (Bool-cases (p == x)) [
  | inl h ↦ rw (h, ← (==_iff p x).0 h, e) same
  | inr h ↦ rw h
]

-- `forget_node` succeeds where the peers exist; each listed peer drops the node, and that is all.
pub forget_node_lem :
    (n : ℕ) (ps : List ℕ) (peers : Map ℕ RpcServerPeer)
    → ((p : ℕ) → contains p ps ≡ true → is_some (peers p) ≡ true)
    → (m : Map ℕ RpcServerPeer) × (forget_node n ps peers ≡ some m)
      × ((x y : ℕ)
          → peer_sees (m x) y ≡ (if n == y && contains x ps then false else peer_sees (peers x) y))
      × ((x : ℕ) → peer_connected (m x) ≡ peer_connected (peers x))
unfolding forget_node
forget_node_lem n [] peers h = (peers, refl, (λ x y. rw (&&-false (n == y))), λ x. refl)
forget_node_lem n (p ∷ ps) peers h = elim (Option-cases (peers p)) [
  | inl e ↦ absurd (ground (arith, h p))
  | inr (pd, e) ↦
      let (m, f, sees, conn) =
        forget_node_lem n ps (insert p (peer_remove n pd) peers)
          (λ x c. some_insert p x _ peers (λ _. h x (rw (c, ||-true (p == x))))) in
      (
        m,
        rw e f,
        (λ x y.
            sees x y
            ∙ rw (remove_peer-sees n p x y pd peers e)
                (drop_cases (n == y) (p == x) (contains x ps) _)),
        λ x. conn x ∙ connected-insert p x pd (peer_remove n pd) peers e refl,
      )
]

SameNode-refl : (o : Option RpcServerNode) → SameNode o o
SameNode-refl none = tt
SameNode-refl (some n) = (refl, refl)

SameNode-insert :
    (n x : ℕ) (nd nd' : RpcServerNode) (nodes : Map ℕ RpcServerNode)
    → nodes n ≡ some nd
    → nd'.node_id ≡ nd.node_id
    → nd'.queue ≡ nd.queue
    → SameNode (insert n nd' nodes x) (nodes x)
SameNode-insert n x nd nd' nodes e i q = elim (Bool-cases (n == x)) [
  | inl h ↦ rw (h, ← (==_iff n x).0 h, e) (i, q)
  | inr h ↦ rw h (SameNode-refl (nodes x))
]

SameNode-trans : (a b c : Option RpcServerNode) → SameNode a b → SameNode b c → SameNode a c
SameNode-trans none none none h k = tt
SameNode-trans (some a) (some b) (some c) h k = (h.0 ∙ k.0, h.1 ∙ k.1)
SameNode-trans none (some b) c h k = absurd h
SameNode-trans (some a) none c h k = absurd h
SameNode-trans none none (some c) h k = absurd k
SameNode-trans (some a) (some b) none h k = absurd k

-- `forget_peer` succeeds where the nodes exist; each listed node drops the peer, and that is all.
pub forget_peer_lem :
    (p : ℕ) (ns : List ℕ) (nodes : Map ℕ RpcServerNode)
    → ((n : ℕ) → contains n ns ≡ true → is_some (nodes n) ≡ true)
    → (m : Map ℕ RpcServerNode) × (forget_peer p ns nodes ≡ some m)
      × ((y x : ℕ)
          → node_sees (m y) x ≡ (if p == x && contains y ns then false else node_sees (nodes y) x))
      × ((y : ℕ) → SameNode (m y) (nodes y))
unfolding forget_peer
forget_peer_lem p [] nodes h =
    (nodes, refl, (λ y x. rw (&&-false (p == x))), λ y. SameNode-refl (nodes y))
forget_peer_lem p (n ∷ ns) nodes h = elim (Option-cases (nodes n)) [
  | inl e ↦ absurd (ground (arith, h n))
  | inr (nd, e) ↦
      let nd' : RpcServerNode = record nd { visible_to = set_remove p nd.visible_to } in
      let (m, f, sees, keep) =
        forget_peer_lem p ns (insert n nd' nodes)
          (λ x c. some_insert n x nd' nodes (λ _. h x (rw (c, ||-true (n == x))))) in
      (
        m,
        rw e f,
        (λ y x.
            sees y x
            ∙ rw (remove_node-sees n p x y nd nodes e)
                (drop_cases' (p == x) (n == y) (contains y ns) _)),
        λ y.
            SameNode-trans (m y) (insert n nd' nodes y) (nodes y) (keep y)
              (SameNode-insert n y nd nd' nodes e refl refl),
      )
]
