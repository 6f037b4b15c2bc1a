-- ===== src/Rpc/Groups/Joining.antt =====
-- A peer that joins a group sees the nodes of the group.
use heat_gun.Base.{
  ℕ, ◌≡◌, refl, sym, ◌∙◌, subst, Bool, true, false, List, [], ◌∷◌, some, contains, set_insert,
  contains-set_insert, Map, ==-refl, All, All-imp, Bool-cases, inl, inr,
}
use mathlib.Core.Option.{some-injective}
use heat_gun.Rpc.Server.{RpcServerNode, World, is_connected}
use heat_gun.Rpc.Server.Bits.{node_sees}
use heat_gun.Rpc.Server.Invariant.{Inv, IsRegistered}
use heat_gun.Rpc.Server.Toggle.{replicate-Inv}
use heat_gun.Rpc.Server.Keeping.{Kept, Kept-refl, Kept-trans, replicate-Kept}
use heat_gun.Rpc.Groups.{RpcGroupFollower, RpcGroup, is_excluded, show_one, show_nodes, add_peer}

-- The follower is there, and its node is registered.
abbrev pub Follows : Map ℕ RpcGroupFollower → World → ℕ → Type 0
Follows followers w node =
    (f : RpcGroupFollower) × (followers node ≡ some f)
    × (nd : RpcServerNode) × IsRegistered w f.rpc nd

-- The peer sees the follower's node, unless the follower excludes it.
abbrev pub Shown : Map ℕ RpcGroupFollower → World → ℕ → ℕ → Type 0
Shown followers w peer node =
    (f : RpcGroupFollower)
    → followers node ≡ some f
    → is_excluded f.excluded peer ≡ false
    → node_sees (w.nodes f.rpc) peer ≡ true

module _ (catchup : ℕ → World → List ℕ) (followers : Map ℕ RpcGroupFollower) (peer : ℕ) where
  show_one_lem :
      (f : RpcGroupFollower) (w : World) (nd : RpcServerNode)
      → Inv w
      → IsRegistered w f.rpc nd
      → is_connected w peer ≡ true
      → (w' : World) × (show_one catchup f peer w ≡ some w')
        × Inv w'
        × Kept w w'
        × (is_excluded f.excluded peer ≡ false → node_sees (w'.nodes f.rpc) peer ≡ true)
  unfolding show_one
  show_one_lem f w nd inv reg c = elim (Bool-cases (is_excluded f.excluded peer)) [
    | inl h ↦ (w, rw h refl, inv, Kept-refl w, λ e. absurd (clash h e))
    | inr h ↦
        let body = catchup f.rpc w in
        let (w', e, i, s) = replicate-Inv w inv f.rpc peer nd reg body in
        let (v, e', k) = replicate-Kept body f.rpc peer nd w reg in
        (w', rw h e, i, subst (Kept w) (some-injective v w' (sym e' ∙ e)) k, λ g. rw c at s)
  ]
    where
      clash : {b : Bool} → b ≡ true → b ≡ false → ⊥
      clash h e = cc

  show_nodes_lem :
      (nodes : List ℕ) (w : World)
      → Inv w
      → is_connected w peer ≡ true
      → All (Follows followers w) nodes
      → (w' : World) × (show_nodes catchup followers nodes peer w ≡ some w')
        × Inv w'
        × Kept w w'
        × All (Shown followers w' peer) nodes
  unfolding show_nodes
  show_nodes_lem [] w inv c fs = (w, refl, inv, Kept-refl w, tt)
  show_nodes_lem (node ∷ nodes) w inv c fs =
      let (f, at, nd, reg) = fs.0 in
      let (v, e, i, k, s) = show_one_lem f w nd inv reg c in
      let (u, e', i', k', ss) =
        show_nodes_lem nodes v i (k.connected peer ∙ c)
          (All-imp (Follows followers w) (Follows followers v) nodes (λ x h. still v k x h) fs.1) in
      (
        u,
        rw (at, e) e',
        i',
        Kept-trans w v u k k',
        (
          (λ g at' free.
              let same : f ≡ g = some-injective f g (sym at ∙ at') in
              rw (← same) (k'.sees f.rpc peer (s (rw (← same) at free)))),
          ss,
        ),
      )
    where
      still : (v : World) → Kept w v → (x : ℕ) → Follows followers w x → Follows followers v x
      still v k x (f, at, nd, reg) =
          let (nd', reg') = k.registered f.rpc nd reg in (f, at, nd', reg')

-- In a server that is in order, adding a connected peer to a group whose followers have registered
-- nodes does not panic and keeps the server in order; the peer is a member afterwards, and sees the
-- node of every follower that does not exclude it; no peer loses sight of a node,
-- and each is connected afterwards exactly when it was.
pub add_peer-Inv :
    (catchup : ℕ → World → List ℕ) (peer : ℕ) (g : RpcGroup) (w : World)
    → Inv w
    → is_connected w peer ≡ true
    → All (Follows g.followers w) g.nodes
    → (g' : RpcGroup) × (w' : World) × (add_peer catchup peer g w ≡ some (g', w'))
      × (contains peer g'.peers ≡ true)
      × Inv w'
      × All (Shown g.followers w' peer) g.nodes
      × ((n p : ℕ) → node_sees (w.nodes n) p ≡ true → node_sees (w'.nodes n) p ≡ true)
      × ((p : ℕ) → is_connected w' p ≡ is_connected w p)
unfolding add_peer
add_peer-Inv catchup peer g w inv c fs =
    let (w', e, i, k, ss) = show_nodes_lem catchup g.followers peer g.nodes w inv c fs in
    (
      record g { peers = set_insert peer g.peers },
      w',
      rw (c, e) refl,
      contains-set_insert peer peer g.peers ∙ rw (==-refl peer) refl,
      i,
      ss,
      k.sees,
      k.connected,
    )
