-- ===== src/Mp/Server.antt =====
-- src/engine/hg-engine-common/src/mp/server.rs: the sessions of the peers, on the RPC server, its groups
-- and the deferred signals; with `RpcServer::recv_packet` of rpc/server.rs. The events of the transport
-- come as a list, with the handles that the ECS gives to what they create; what is sent to it is
-- returned. `none` is a panic.
--
-- Parameters: the user's catch-up; the decoding of a hello and of a message, `none` where it fails; and
-- what a node's kind does with a message, which says whether it succeeds and is taken not to change
-- the server.
pub mod Joining
pub mod Leaving
mod Tests
use heat_gun.Base.{
  ℕ, Bool, true, false, not, List, [], ◌∷◌, ◌++◌, Option, none, some, contains, Map, empty_map,
  insert, remove, nat_key, if◌then◌else◌, ◌>>=◌,
}
use heat_gun.Ecs.Signal.{DeferSignal}
use heat_gun.Ecs.Signal
use heat_gun.Rpc.Server.{World, Sent, register_peer, disconnect, flush}
use heat_gun.Rpc.Groups.{RpcGroup, add_peer, remove_peer}

pub data SessionState : Type 0 where
  login : SessionState
  play : ℕ → List ℕ → SessionState

-- `MpServerSession`; its manager is the one server.
pub record MpServerSession : Type 0 where
  pub peer : ℕ
  pub state : SessionState

-- `MpServer`, with the components that it reaches: `session_objs` are the sessions, `destroyed` the
-- entities that were destroyed. `kicked` are the peers that the transport is told to kick, and
-- `should_exit` is the run loop's.
pub record MpServer : Type 0 where
  pub rpc : World
  pub all_players : RpcGroup
  pub sessions : Map ℕ ℕ
  pub on_join : DeferSignal
  pub on_quit : DeferSignal
  pub session_objs : Map ℕ MpServerSession
  pub destroyed : List ℕ
  pub kicked : List ℕ
  pub should_exit : Bool

-- `MpServer::new`, with an empty group of players.
unfoldable pub new : World → MpServer
unfolding Signal.new
new rpc = record {
  rpc = rpc;
  all_players = record { nodes = []; peers = []; followers = empty_map };
  sessions = empty_map;
  on_join = Signal.new;
  on_quit = Signal.new;
  session_objs = empty_map;
  destroyed = [];
  kicked = [];
  should_exit = false;
}

-- `ServerTransportEvent`; a connection comes with the handle of its session, and data with the one
-- that a new RPC peer would get.
pub data ServerTransportEvent : Type 0 where
  connected : ℕ → ℕ → ServerTransportEvent
  disconnected : ℕ → ServerTransportEvent
  data_received : ℕ → List ℕ → ℕ → ServerTransportEvent
  shutdown : ServerTransportEvent

module _ (catchup : ℕ → World → List ℕ) (decode_hello : List ℕ → Option (List ℕ))
    (decode_message : List ℕ → Option (ℕ × List ℕ))
    (process_inbound : ℕ → ℕ → List ℕ → World → Bool) where
  -- `RpcServer::recv_packet`: false is an error.
  unfoldable pub recv_packet : ℕ → List ℕ → World → Option Bool
  recv_packet sender packet w = elim (decode_message packet) [
    | none ↦ some false
    | some (target_id, body) ↦ elim (w.id_to_node target_id) [
      | none ↦ some true
      | some target ↦ w.nodes target >>= λ n.
          if contains sender n.visible_to
          then some (process_inbound target sender body w)
          else some true
    ]
  ]

  -- The login of a session.
  unfoldable pub log_in : ℕ → MpServerSession → List ℕ → ℕ → MpServer → Option (Bool × MpServer)
  unfolding register_peer add_peer Signal.fire
  log_in sess me name new_peer m = do
    on_join ← Signal.fire sess m.on_join
    (group, rpc) ← add_peer catchup new_peer m.all_players (register_peer new_peer m.rpc)
    some (
      true,
      record m {
        rpc = rpc;
        all_players = group;
        on_join = on_join;
        session_objs = insert sess (record me { state = play new_peer name }) m.session_objs;
      },
    )

  -- `MpServerSession::process_recv`.
  unfoldable pub process_recv : ℕ → List ℕ → ℕ → MpServer → Option (Bool × MpServer)
  unfolding log_in recv_packet
  process_recv sess packet new_peer m = m.session_objs sess >>= λ me. elim me.state [
    | login ↦ elim (decode_hello packet) [
      | none ↦ some (false, m)
      | some name ↦ log_in sess me name new_peer m
    ]
    | play peer name ↦ recv_packet peer packet m.rpc >>= λ ok. some (ok, m)
  ]

  -- What a disconnection does to a session that is in play.
  unfoldable pub leave : ℕ → SessionState → MpServer → Option MpServer
  unfolding disconnect remove_peer Signal.fire
  leave sess login m = some m
  leave sess (play peer name) m = do
    rpc ← disconnect peer m.rpc
    on_quit ← Signal.fire sess m.on_quit
    (group, rpc') ← remove_peer peer m.all_players rpc
    some (record m { rpc = rpc'; all_players = group; on_quit = on_quit })

  -- One event of the loop in `process`.
  unfoldable pub handle : ServerTransportEvent → MpServer → Option MpServer
  unfolding process_recv leave
  handle (connected peer sess) m = some (record m {
    sessions = insert peer sess m.sessions;
    session_objs = insert sess (record { peer = peer; state = login }) m.session_objs;
  })
  handle (disconnected peer) m = do
    sess ← m.sessions peer
    me ← m.session_objs sess
    m' ← leave sess me.state (record m { sessions = remove peer m.sessions })
    some (record m' { destroyed = m'.destroyed ++ sess ∷ [] })
  handle (data_received peer packet new_peer) m = do
    sess ← m.sessions peer
    (ok, m') ← process_recv sess packet new_peer m
    some (if ok then m' else record m' { kicked = m'.kicked ++ peer ∷ [] })
  handle shutdown m = some (record m { should_exit = true })

  unfoldable pub handle_all : List ServerTransportEvent → MpServer → Option MpServer
  unfolding handle
  handle_all [] m = some m
  handle_all (ev ∷ evs) m = do m' ← handle ev m; handle_all evs m'

  -- `MpServer::process`; what the RPC server sends is returned.
  unfoldable pub process : List ServerTransportEvent → MpServer → Option (MpServer × Sent)
  unfolding handle_all flush Signal.reset Signal.freeze
  process evs m = do
    on_join ← Signal.reset m.on_join
    on_quit ← Signal.reset m.on_quit
    (rpc, sent) ← flush m.rpc
    m' ← handle_all evs (record m { on_join = on_join; on_quit = on_quit; rpc = rpc })
    some
        (record m' { on_join = Signal.freeze m'.on_join; on_quit = Signal.freeze m'.on_quit }, sent)
