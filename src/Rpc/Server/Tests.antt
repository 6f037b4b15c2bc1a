-- ===== src/Rpc/Server/Tests.antt =====
-- A run of the server, and the theorems along it: peer 7 arrives, node 3 is registered with queue
-- 4, and is shown to the peer.
use heat_gun.Base.{
  ℕ, ◌≡◌, refl, true, false, [], ◌∷◌, Option, none, some, arith, if◌then◌else◌, nat_key, set_insert,
  ◌==◌,
}
use heat_gun.Rpc.Server.{
  World, RpcServerNode, new, register_node, register_peer, replicate, de_replicate, broadcast,
  unregister, disconnect, flush, create_node, send_message, is_connected, Sent, broadcasted,
  push_action,
}
use heat_gun.Rpc.Server.Bits.{node_sees}
use heat_gun.Rpc.Server.Peers.{peer_sees}
use heat_gun.Rpc.Server.Invariant.{Inv, IsRegistered}
use heat_gun.Rpc.Server.Arriving.{new-Inv, register_peer-Inv, IsFreshPeer}
use heat_gun.Rpc.Server.Registering.{register_node-Inv}
use heat_gun.Rpc.Server.Toggle.{replicate-Inv, de_replicate-Inv}
use heat_gun.Rpc.Server.Leaving.{broadcast-Inv, unregister-Inv}
use heat_gun.Rpc.Server.Disconnecting.{disconnect-Inv}

abbrev value : Option World → World
value none = new
value (some w) = w

abbrev with_peer : World
with_peer = register_peer 7 new

abbrev with_node : World
with_node = value (register_node 3 4 11 0 0 with_peer)

abbrev node_3 : RpcServerNode
node_3 = record {
  node_id = 1;
  kind_ty = 11;
  visible_to = [];
  queue = 4;
  userdata_ty = 0;
  userdata = 0;
}

abbrev shown : World
shown = value (replicate (9 ∷ []) 3 7 with_node)

abbrev node_3_shown : RpcServerNode
node_3_shown = record node_3 { visible_to = 7 ∷ [] }

fresh_7 : IsFreshPeer 7 new
unfolding new
fresh_7 = record { absent = refl; unaddressed = tt; unlisted = λ q. refl }

register_peer-Inv_example : Inv with_peer × (is_connected with_peer 7 ≡ true)
register_peer-Inv_example = register_peer-Inv new 7 new-Inv fresh_7

kept : (o : Option World) (w : World) → o ≡ some w → Inv w → Inv (value o)
kept o w e i = rw e i

register_node-Inv_example :
    (w' : World) × (register_node 3 4 11 0 0 with_peer ≡ some w')
    × Inv w'
    × (nd : RpcServerNode) × IsRegistered w' 3 nd
    × (nd.node_id ≡ with_peer.id_gen)
unfolding register_peer new
register_node-Inv_example =
    register_node-Inv with_peer 3 4 11 0 0 (register_peer-Inv new 7 new-Inv fresh_7).0 refl refl
      (omega arith)

with_node-Inv : Inv with_node
unfolding register_peer new
with_node-Inv =
    let (w, e, i, _, _, _) =
      register_node-Inv with_peer 3 4 11 0 0 (register_peer-Inv new 7 new-Inv fresh_7).0 refl refl
        (omega arith) in
    kept (register_node 3 4 11 0 0 with_peer) w e i

at_node_3 : IsRegistered with_node 3 node_3
unfolding register_peer register_node new
at_node_3 = (refl, refl)

replicate-Inv_example :
    (w' : World) × (replicate (9 ∷ []) 3 7 with_node ≡ some w')
    × Inv w'
    × (if is_connected with_node 7 then (node_sees (w'.nodes 3) 7 ≡ true) else (w' ≡ with_node))
replicate-Inv_example = replicate-Inv with_node with_node-Inv 3 7 node_3 at_node_3 (9 ∷ [])

shown-Inv : Inv shown
shown-Inv =
    let (w, e, i, _) = replicate-Inv with_node with_node-Inv 3 7 node_3 at_node_3 (9 ∷ []) in
    kept (replicate (9 ∷ []) 3 7 with_node) w e i

at_node_3_shown : IsRegistered shown 3 node_3_shown
unfolding register_peer register_node new replicate set_insert
at_node_3_shown = (refl, refl)

de_replicate-Inv_example :
    (w' : World) × (de_replicate 3 7 shown ≡ some w')
    × Inv w'
    × (if is_connected shown 7 then (node_sees (w'.nodes 3) 7 ≡ false) else (w' ≡ shown))
de_replicate-Inv_example = de_replicate-Inv shown shown-Inv 3 7 node_3_shown at_node_3_shown

broadcast-Inv_example :
    if node_3_shown.kind_ty == 11
    then (Inv (push_action (broadcasted 4 (send_message 1 (5 ∷ []))) shown)
        × (broadcast 11 (5 ∷ []) 3 shown
            ≡ some (push_action (broadcasted 4 (send_message 1 (5 ∷ []))) shown)))
    else (broadcast 11 (5 ∷ []) 3 shown ≡ none)
broadcast-Inv_example = broadcast-Inv shown shown-Inv 3 node_3_shown at_node_3_shown 11 (5 ∷ [])

unregister-Inv_example :
    (w' : World) × (unregister 3 shown ≡ some w')
    × Inv w'
    × (w'.id_to_node 1 ≡ none)
    × ((p : ℕ) → peer_sees (w'.peers p) 3 ≡ false)
unregister-Inv_example = unregister-Inv shown shown-Inv 3 node_3_shown at_node_3_shown

at_7 : shown.peers 7 ≡ some (record { vis_set = 3 ∷ []; connected = true })
unfolding register_peer register_node new replicate set_insert
at_7 = refl

disconnect-Inv_example :
    (w' : World) × (disconnect 7 shown ≡ some w')
    × Inv w'
    × (is_connected w' 7 ≡ false)
    × (true ≡ true → (n : ℕ) → node_sees (w'.nodes n) 7 ≡ false)
disconnect-Inv_example =
    disconnect-Inv shown shown-Inv 7 (record { vis_set = 3 ∷ []; connected = true }) at_7

abbrev sent_by : Option (World × Sent) → Sent
sent_by none = []
sent_by (some (w, sent)) = sent

-- The flush sends the creation to the peer.
flush_run : sent_by (flush shown) ≡ (7, create_node 1 11 (9 ∷ [])) ∷ []
unfolding register_peer register_node new replicate set_insert flush
flush_run = refl
