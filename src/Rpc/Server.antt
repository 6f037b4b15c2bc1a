-- ===== src/Rpc/Server.antt =====
-- src/engine/hg-engine-common/src/rpc/server.rs: the replication of nodes to peers. An `Obj` is a
-- number, the state of its component stands in a map, and reading a missing one is the panic of
-- the arena. User code (`catchup`) gives the body of a creation packet and is taken not to change
-- the state of the server; packets are kept decoded.
pub mod Bits
pub mod Peers
pub mod Invariant
pub mod Toggle
pub mod Leaving
pub mod Disconnecting
pub mod Arriving
pub mod Registering
pub mod Keeping
pub mod Flush
pub mod Replay
mod Tests
use heat_gun.Base.{
  ℕ, zero, suc, ◌+◌, ◌-◌, ◌^◌, Bool, true, false, not, ◌&&◌, ◌||◌, List, [], ◌∷◌, ◌++◌, Option,
  none, some, map as map_list, contains, set_insert, set_remove, retain, Map, insert, remove,
  nat_key, ltb, ◌==◌, if◌then◌else◌, ◌>>=◌, empty_map,
}

-- A packet to a client: `RpcCbHeader` with the part that stands before it.
pub data Packet : Type 0 where
  create_node : ℕ → ℕ → List ℕ → Packet
  delete_node : ℕ → Packet
  send_message : ℕ → List ℕ → Packet

-- `QueuedAction`: the queue first, then the peer, then the packet.
pub data QueuedAction : Type 0 where
  replicate_to : ℕ → ℕ → Packet → QueuedAction
  destroy_remotely : ℕ → ℕ → QueuedAction
  broadcasted : ℕ → Packet → QueuedAction
  destroy_node : ℕ → QueuedAction

pub record RpcNodeServerQueue : Type 0 where
  pub node_id : ℕ
  pub visible_to : List ℕ

pub record RpcServerNode : Type 0 where
  pub node_id : ℕ
  pub kind_ty : ℕ
  pub visible_to : List ℕ
  pub queue : ℕ
  pub userdata_ty : ℕ
  pub userdata : ℕ

pub record RpcServerPeer : Type 0 where
  pub vis_set : List ℕ
  pub connected : Bool

-- `RpcServer`, with the components that its operations reach.
pub record World : Type 0 where
  pub id_to_node : Map ℕ ℕ
  pub id_gen : ℕ
  pub action_queue : List QueuedAction
  pub node_queues : List ℕ
  pub nodes : Map ℕ RpcServerNode
  pub peers : Map ℕ RpcServerPeer
  pub queues : Map ℕ RpcNodeServerQueue

-- `RpcServer::new`.
unfoldable pub new : World
new = record {
  id_to_node = empty_map;
  id_gen = 1;
  action_queue = [];
  node_queues = [];
  nodes = empty_map;
  peers = empty_map;
  queues = empty_map;
}

abbrev u64_max : ℕ
u64_max = 2 ^ 64 - 1

-- `register_node`, with the handles that the ECS gives to the new queue and to the new node.
unfoldable pub register_node : ℕ → ℕ → ℕ → ℕ → ℕ → World → Option World
register_node node queue kind_ty userdata_ty userdata w =
    if ltb w.id_gen u64_max
    then some (record w {
      id_gen = w.id_gen + 1;
      queues = insert queue (record { node_id = w.id_gen; visible_to = [] }) w.queues;
      node_queues = set_insert queue w.node_queues;
      nodes =
          insert node
            (record {
              node_id = w.id_gen;
              kind_ty = kind_ty;
              visible_to = [];
              queue = queue;
              userdata_ty = userdata_ty;
              userdata = userdata;
            })
            w.nodes;
      id_to_node = insert w.id_gen node w.id_to_node;
    })
    else none

-- `register_peer`, with the new handle.
unfoldable pub register_peer : ℕ → World → World
register_peer peer w = record w {
  peers = insert peer (record { vis_set = []; connected = true }) w.peers;
}

abbrev pub peer_connected : Option RpcServerPeer → Bool
peer_connected none = false
peer_connected (some p) = p.connected

-- `RpcServerPeer::is_connected`: alive, and not disconnected.
abbrev pub is_connected : World → ℕ → Bool
is_connected w peer = peer_connected (w.peers peer)

abbrev pub push_action : QueuedAction → World → World
push_action a w = record w { action_queue = w.action_queue ++ a ∷ [] }

abbrev peer_insert : ℕ → RpcServerPeer → RpcServerPeer
peer_insert node p = record p { vis_set = set_insert node p.vis_set }

abbrev peer_remove : ℕ → RpcServerPeer → RpcServerPeer
peer_remove node p = record p { vis_set = set_remove node p.vis_set }

-- The end of `replicate`, for a peer that does not see the node yet.
add_replica : List ℕ → ℕ → ℕ → RpcServerNode → World → Option World
add_replica catchup node peer n w = do
  p ← w.peers peer
  some (
      push_action (replicate_to n.queue peer (create_node n.node_id n.kind_ty catchup)) (record w {
        nodes = insert node (record n { visible_to = set_insert peer n.visible_to }) w.nodes;
        peers = insert peer (peer_insert node p) w.peers;
      }))

-- `RpcServerNode::replicate`; the body is what the user's `catchup` yields.
unfoldable pub replicate : List ℕ → ℕ → ℕ → World → Option World
unfolding add_replica
replicate catchup node peer w = if not (is_connected w peer) then some w else (do
  n ← w.nodes node
  if contains peer n.visible_to then some w else add_replica catchup node peer n w)

-- The end of `de_replicate`, for a peer that sees the node.
drop_replica : ℕ → ℕ → RpcServerNode → World → Option World
drop_replica node peer n w = do
  p ← w.peers peer
  some (
      push_action (destroy_remotely n.queue peer) (record w {
        nodes = insert node (record n { visible_to = set_remove peer n.visible_to }) w.nodes;
        peers = insert peer (peer_remove node p) w.peers;
      }))

-- `RpcServerNode::de_replicate`.
unfoldable pub de_replicate : ℕ → ℕ → World → Option World
unfolding drop_replica
de_replicate node peer w = if not (is_connected w peer) then some w else (do
  n ← w.nodes node
  if not (contains peer n.visible_to) then some w else drop_replica node peer n w)

-- `RpcServerNode::broadcast::<K>`; the assertion on the kind is its panic.
unfoldable pub broadcast : ℕ → List ℕ → ℕ → World → Option World
broadcast kind_ty body node w = do
  n ← w.nodes node
  if n.kind_ty == kind_ty
      then some (push_action (broadcasted n.queue (send_message n.node_id body)) w)
      else none

-- The loop over the drained set in `unregister`: every peer forgets the node.
unfoldable pub forget_node : ℕ → List ℕ → Map ℕ RpcServerPeer → Option (Map ℕ RpcServerPeer)
forget_node node [] peers = some peers
forget_node node (peer ∷ rest) peers = do
  p ← peers peer
  forget_node node rest (insert peer (peer_remove node p) peers)

-- `RpcServerNode::unregister`.
unfoldable pub unregister : ℕ → World → Option World
unfolding forget_node
unregister node w = do
  n ← w.nodes node
  peers ← forget_node node n.visible_to w.peers
  some (
      push_action (destroy_node n.queue) (record w {
        id_to_node = remove n.node_id w.id_to_node;
        nodes = insert node (record n { visible_to = [] }) w.nodes;
        peers = peers;
      }))

-- The loop over the drained set in `disconnect`: every node forgets the peer.
unfoldable pub forget_peer : ℕ → List ℕ → Map ℕ RpcServerNode → Option (Map ℕ RpcServerNode)
forget_peer peer [] nodes = some nodes
forget_peer peer (node ∷ rest) nodes = do
  n ← nodes node
  forget_peer peer rest (insert node (record n { visible_to = set_remove peer n.visible_to }) nodes)

-- `RpcServerPeer::disconnect`.
unfoldable pub disconnect : ℕ → World → Option World
unfolding forget_peer
disconnect peer w = do
  p ← w.peers peer
  if not p.connected then some w else (do
    nodes ← forget_peer peer p.vis_set w.nodes
    some (record w {
      nodes = nodes;
      peers = insert peer (record { vis_set = []; connected = false }) w.peers;
    }))

-- What `flush` hands to the transport: a peer and its packet.
abbrev pub Sent : Type 0
Sent = List (ℕ × Packet)

abbrev pub send_all : List ℕ → Packet → Sent
send_all [] packet = []
send_all (peer ∷ peers) packet = (peer, packet) ∷ send_all peers packet

abbrev put_queue : ℕ → RpcNodeServerQueue → List ℕ → World → World
put_queue queue q visible w = record w {
  queues = insert queue (record q { visible_to = visible }) w.queues;
}

-- One round of the loop of `flush`. The entity of a destroyed queue is only condemned here, so its
-- component stays until the entity store flushes.
unfoldable pub perform : QueuedAction → World → Option (World × Sent)
perform (replicate_to queue peer packet) w = if not (is_connected w peer) then some (w, []) else (do
  q ← w.queues queue
  some (put_queue queue q (set_insert peer q.visible_to) w, (peer, packet) ∷ []))
perform (destroy_remotely queue peer) w = if not (is_connected w peer) then some (w, []) else (do
  q ← w.queues queue
  some (put_queue queue q (set_remove peer q.visible_to) w, (peer, delete_node q.node_id) ∷ []))
perform (broadcasted queue packet) w = do q ← w.queues queue; some (w, send_all q.visible_to packet)
perform (destroy_node queue) w = do
  q ← w.queues queue
  some (
    record (put_queue queue q [] w) { node_queues = set_remove queue w.node_queues },
    send_all q.visible_to (delete_node q.node_id),
  )

unfoldable pub perform_all : List QueuedAction → World → Option (World × Sent)
unfolding perform
perform_all [] w = some (w, [])
perform_all (a ∷ actions) w = do
  (w', sent) ← perform a w
  (w'', rest) ← perform_all actions w'
  some (w'', sent ++ rest)

-- The first loop of `flush`: every queue forgets the peers that are gone.
unfoldable pub drop_dead : List ℕ → World → Option World
drop_dead [] w = some w
drop_dead (queue ∷ rest) w = do
  q ← w.queues queue
  drop_dead rest (put_queue queue q (retain (is_connected w) q.visible_to) w)

-- `RpcServer::flush`.
unfoldable pub flush : World → Option (World × Sent)
unfolding perform_all drop_dead
flush w = do
  w' ← drop_dead w.node_queues w
  perform_all w'.action_queue (record w' { action_queue = [] })
