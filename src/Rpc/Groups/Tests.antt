-- ===== src/Rpc/Groups/Tests.antt =====
-- A group with one follower, and a peer that joins it.
use heat_gun.Base.{
  ℕ, ◌≡◌, refl, true, List, [], ◌∷◌, Option, none, some, arith, contains, All, insert, empty_map,
  nat_key,
}
use heat_gun.Rpc.Server.{World, RpcServerNode, new, register_node, register_peer, is_connected}
use heat_gun.Rpc.Server.Bits.{node_sees}
use heat_gun.Rpc.Server.Invariant.{Inv}
use heat_gun.Rpc.Server.Arriving.{new-Inv, register_peer-Inv, IsFreshPeer}
use heat_gun.Rpc.Server.Registering.{register_node-Inv}
use heat_gun.Rpc.Groups.{RpcGroup, add_peer}
use heat_gun.Rpc.Groups.Joining.{Follows, Shown, add_peer-Inv}

abbrev value : Option World → World
value none = new
value (some w) = w

abbrev with_peer : World
with_peer = register_peer 7 new

abbrev with_node : World
with_node = value (register_node 3 4 11 0 0 with_peer)

fresh_7 : IsFreshPeer 7 new
unfolding new
fresh_7 = record { absent = refl; unaddressed = tt; unlisted = λ q. refl }

with_node-Inv : Inv with_node
unfolding register_peer new
with_node-Inv =
    let (w, e, i, _, _, _) =
      register_node-Inv with_peer 3 4 11 0 0 (register_peer-Inv new 7 new-Inv fresh_7).0 refl refl
        (omega arith) in
    kept (register_node 3 4 11 0 0 with_peer) w e i
  where
    kept : (o : Option World) (w : World) → o ≡ some w → Inv w → Inv (value o)
    kept o w e i = rw e i

abbrev group : RpcGroup
group = record {
  nodes = 1 ∷ [];
  peers = [];
  followers = insert 1 (record { rpc = 3; excluded = some 8 }) empty_map;
}

connected_7 : is_connected with_node 7 ≡ true
unfolding register_peer register_node new
connected_7 = refl

abbrev node_3 : RpcServerNode
node_3 = record {
  node_id = 1;
  kind_ty = 11;
  visible_to = [];
  queue = 4;
  userdata_ty = 0;
  userdata = 0;
}

Follows-1 : All (Follows group.followers with_node) group.nodes
unfolding register_peer register_node new
Follows-1 = ((record { rpc = 3; excluded = some 8 }, refl, node_3, (refl, refl)), tt)

abbrev catchup : ℕ → World → List ℕ
catchup node w = node ∷ []

add_peer-Inv_example :
    (g' : RpcGroup) × (w' : World) × (add_peer catchup 7 group with_node ≡ some (g', w'))
    × (contains 7 g'.peers ≡ true)
    × Inv w'
    × All (Shown group.followers w' 7) group.nodes
    × ((n p : ℕ) → node_sees (with_node.nodes n) p ≡ true → node_sees (w'.nodes n) p ≡ true)
    × ((p : ℕ) → is_connected w' p ≡ is_connected with_node p)
add_peer-Inv_example = add_peer-Inv catchup 7 group with_node with_node-Inv connected_7 Follows-1
