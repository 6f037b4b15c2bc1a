-- ===== src/Mp/Server/Tests.antt =====
-- A server with one node that is shown to the players, and a session that logs in and leaves.
use heat_gun.Base.{
  ℕ, ◌≡◌, ◌≢◌, refl, Bool, true, false, List, [], ◌∷◌, Option, none, some, arith, contains, All,
  insert, empty_map, nat_key, ◌==◌, Bool-cases, inl, inr,
}
use heat_gun.Ecs.Signal.{DeferSignal}
use heat_gun.Rpc.Server.{
  World, RpcServerNode, RpcServerPeer, new, register_node, register_peer, is_connected,
}
use heat_gun.Rpc.Server.Bits.{node_sees, queue_sees}
use heat_gun.Rpc.Server.Invariant.{Inv}
use heat_gun.Rpc.Server.Arriving.{new-Inv, register_peer-Inv, IsFreshPeer}
use heat_gun.Rpc.Server.Registering.{register_node-Inv}
use heat_gun.Rpc.Groups.{RpcGroup}
use heat_gun.Rpc.Groups.Joining.{Follows, Shown}
use heat_gun.Mp.Server.{login, play, MpServerSession, MpServer, data_received, disconnected, handle}
use heat_gun.Mp.Server.Joining.{handle-joins}
use heat_gun.Mp.Server.Leaving.{handle-leaves}

abbrev value : Option World → World
value none = new
value (some w) = w

abbrev with_node : World
with_node = value (register_node 3 4 11 0 0 new)

with_node-Inv : Inv with_node
unfolding new
with_node-Inv =
    let (w, e, i, _, _, _) = register_node-Inv new 3 4 11 0 0 new-Inv refl refl (omega arith) in
    kept (register_node 3 4 11 0 0 new) w e i
  where
    kept : (o : Option World) (w : World) → o ≡ some w → Inv w → Inv (value o)
    kept o w e i = rw e i

abbrev node_3 : RpcServerNode
node_3 = record {
  node_id = 1;
  kind_ty = 11;
  visible_to = [];
  queue = 4;
  userdata_ty = 0;
  userdata = 0;
}

abbrev players : RpcGroup
players = record {
  nodes = 1 ∷ [];
  peers = [];
  followers = insert 1 (record { rpc = 3; excluded = none }) empty_map;
}

Follows-1 : All (Follows players.followers with_node) players.nodes
unfolding register_node new
Follows-1 = ((record { rpc = 3; excluded = none }, refl, node_3, (refl, refl)), tt)

unlisted : (q : ℕ) → queue_sees (with_node.queues q) 7 ≡ false
unfolding register_node new
unlisted q = elim (Bool-cases (4 == q)) [ inl h ↦ rw h refl | inr h ↦ rw h refl ]

fresh_7 : IsFreshPeer 7 with_node
unfolding register_node new
fresh_7 = record { absent = refl; unaddressed = tt; unlisted = unlisted }

abbrev open_signal : DeferSignal
open_signal = record { events = []; frozen = false; readers = 0 }

abbrev session : MpServerSession
session = record { peer = 20; state = login }

abbrev server : MpServer
server = record {
  rpc = with_node;
  all_players = players;
  sessions = insert 20 5 empty_map;
  on_join = open_signal;
  on_quit = open_signal;
  session_objs = insert 5 session empty_map;
  destroyed = [];
  kicked = [];
  should_exit = false;
}

abbrev catchup : ℕ → World → List ℕ
catchup node w = node ∷ []

-- A hello is the name itself, and a message is for the node 1.
abbrev hello : List ℕ → Option (List ℕ)
hello packet = some packet

abbrev message : List ℕ → Option (ℕ × List ℕ)
message packet = some (1, packet)

abbrev inbound : ℕ → ℕ → List ℕ → World → Bool
inbound node peer body w = true

handle-joins_example :
    (m' : MpServer) × (handle catchup hello message inbound (data_received 20 (8 ∷ []) 7) server
      ≡ some m')
    × (m'.session_objs 5 ≡ some (record { peer = 20; state = play 7 (8 ∷ []) }))
    × (m'.on_join.events ≡ 5 ∷ [])
    × (is_connected m'.rpc 7 ≡ true)
    × (contains 7 m'.all_players.peers ≡ true)
    × All (Shown players.followers m'.rpc 7) (1 ∷ [])
    × Inv m'.rpc
handle-joins_example =
    handle-joins catchup hello message inbound server 20 5 7 session (8 ∷ []) (8 ∷ []) with_node-Inv
      Follows-1 fresh_7 (refl, refl) refl refl refl refl

abbrev peer_7 : RpcServerPeer
peer_7 = record { vis_set = []; connected = true }

abbrev in_play : MpServerSession
in_play = record { peer = 20; state = play 7 (8 ∷ []) }

abbrev playing : MpServer
playing = record server {
  rpc = register_peer 7 with_node;
  all_players = record players { peers = 7 ∷ [] };
  session_objs = insert 5 in_play empty_map;
}

at_peer : playing.rpc.peers 7 ≡ some peer_7
unfolding register_peer
at_peer = refl

handle-leaves_example :
    (m' : MpServer) × (handle catchup hello message inbound (disconnected 20) playing ≡ some m')
    × (m'.sessions 20 ≡ none)
    × (m'.on_quit.events ≡ 5 ∷ [])
    × (m'.destroyed ≡ 5 ∷ [])
    × (is_connected m'.rpc 7 ≡ false)
    × (contains 7 m'.all_players.peers ≡ false)
    × ((n : ℕ) → node_sees (m'.rpc.nodes n) 7 ≡ false)
    × Inv m'.rpc
    × ((other : ℕ) → ◌≢◌ {A = ℕ} 20 other → m'.sessions other ≡ playing.sessions other)
handle-leaves_example =
    handle-leaves catchup hello message inbound playing 20 5 7 in_play (8 ∷ []) peer_7
      (register_peer-Inv with_node 7 with_node-Inv fresh_7).0 (refl, refl) refl refl refl at_peer
      refl
