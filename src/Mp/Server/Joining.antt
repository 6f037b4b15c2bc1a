-- ===== src/Mp/Server/Joining.antt =====
-- A session logs in.
use heat_gun.Base.{
  ℕ, ◌≡◌, refl, ◌∙◌, Bool, true, false, List, [], ◌∷◌, ◌++◌, Option, some, contains, insert,
  nat_key, ==-refl, All,
}
use heat_gun.Ecs.Signal.{DeferSignal}
use heat_gun.Ecs.Signal
use heat_gun.Rpc.Server.{World, register_peer, is_connected}
use heat_gun.Rpc.Server.Invariant.{Inv}
use heat_gun.Rpc.Server.Arriving.{IsFreshPeer, register_peer-Inv}
use heat_gun.Rpc.Groups.Joining.{Follows, Shown, add_peer-Inv}
use heat_gun.Mp.Server.{
  login, play, MpServerSession, MpServer, data_received, log_in, process_recv, handle,
}

-- Events can be fired.
abbrev pub Open : DeferSignal → Type 0
Open s = (s.frozen ≡ false) × (s.readers ≡ 0)

pub fire-Open :
    (event : ℕ) (s : DeferSignal)
    → Open s
    → Signal.fire event s ≡ some (record s { events = s.events ++ event ∷ [] })
unfolding Signal.fire
fire-Open event s o = rw (o.0, o.1) refl

module _ (catchup : ℕ → World → List ℕ) (decode_hello : List ℕ → Option (List ℕ))
    (decode_message : List ℕ → Option (ℕ × List ℕ))
    (process_inbound : ℕ → ℕ → List ℕ → World → Bool) where
  -- Where the RPC server is in order, the followers of the players' group have registered nodes and
  -- events can be fired, a hello that can be decoded does not panic: its session is in play under the
  -- name of the hello and was fired as joined, its RPC peer is connected, is a member of the group and
  -- sees the node of every follower that does not exclude it, and the server is in order.
  pub handle-joins :
      (m : MpServer) (id sess new_peer : ℕ) (me : MpServerSession) (packet name : List ℕ)
      → Inv m.rpc
      → All (Follows m.all_players.followers m.rpc) m.all_players.nodes
      → IsFreshPeer new_peer m.rpc
      → Open m.on_join
      → m.sessions id ≡ some sess
      → m.session_objs sess ≡ some me
      → me.state ≡ login
      → decode_hello packet ≡ some name
      → (m' : MpServer) × (handle catchup decode_hello decode_message process_inbound
            (data_received id packet new_peer)
            m
          ≡ some m')
        × (m'.session_objs sess ≡ some (record { peer = me.peer; state = play new_peer name }))
        × (m'.on_join.events ≡ m.on_join.events ++ sess ∷ [])
        × (is_connected m'.rpc new_peer ≡ true)
        × (contains new_peer m'.all_players.peers ≡ true)
        × All (Shown m.all_players.followers m'.rpc new_peer) m.all_players.nodes
        × Inv m'.rpc
  unfolding handle process_recv log_in register_peer
  handle-joins m id sess new_peer me packet name inv follows fresh open_ at at_obj in_login hello =
      let (inv1, here) = register_peer-Inv m.rpc new_peer inv fresh in
      let (group, rpc, e, member, inv2, shown, _, conn) =
        add_peer-Inv catchup new_peer m.all_players (register_peer new_peer m.rpc) inv1 here
          follows in
      (
        record m {
          rpc = rpc;
          all_players = group;
          on_join = record m.on_join { events = m.on_join.events ++ sess ∷ [] };
          session_objs = insert sess (record me { state = play new_peer name }) m.session_objs;
        },
        rw (at, at_obj, in_login, hello, fire-Open sess m.on_join open_, e) refl,
        rw (==-refl sess) refl,
        refl,
        conn new_peer ∙ here,
        member,
        shown,
        inv2,
      )
