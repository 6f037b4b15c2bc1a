-- ===== src/Mp/Server/Leaving.antt =====
-- A peer is disconnected.
use heat_gun.Base.{
  ℕ, ◌≡◌, ◌≢◌, refl, ◌∙◌, Bool, true, false, List, [], ◌∷◌, ◌++◌, Option, none, some, contains,
  set_remove, contains-set_remove, remove, nat_key, ◌==◌, ==_iff, ==-refl, Bool-cases, inl, inr,
}
use heat_gun.Rpc.Server.{World, RpcServerPeer, is_connected}
use heat_gun.Rpc.Server.Bits.{node_sees}
use heat_gun.Rpc.Server.Invariant.{Inv}
use heat_gun.Rpc.Server.Disconnecting.{disconnect-Inv}
use heat_gun.Rpc.Groups.{RpcGroup, remove_peer}
use heat_gun.Mp.Server.{play, MpServerSession, MpServer, disconnected, leave, handle}
use heat_gun.Mp.Server.Joining.{Open, fire-Open}

-- A group forgets a peer that is gone, and leaves the server as it is.
remove_peer-gone :
    (peer : ℕ) (g : RpcGroup) (w : World)
    → is_connected w peer ≡ false
    → (g' : RpcGroup) × (remove_peer peer g w ≡ some (g', w)) × (contains peer g'.peers ≡ false)
unfolding remove_peer
remove_peer-gone peer g w gone = elim (Bool-cases (contains peer g.peers)) [
  | inl h ↦ (
    record g { peers = set_remove peer g.peers },
    rw (h, gone) refl,
    contains-set_remove peer peer g.peers ∙ rw (==-refl peer) refl,
  )
  | inr h ↦ (g, rw h refl, h)
]

module _ (catchup : ℕ → World → List ℕ) (decode_hello : List ℕ → Option (List ℕ))
    (decode_message : List ℕ → Option (ℕ × List ℕ))
    (process_inbound : ℕ → ℕ → List ℕ → World → Bool) where
  -- Where the RPC server is in order and events can be fired, the disconnection of a session in play,
  -- whose RPC peer is connected, does not panic: the session is no longer listed, was fired as quit and
  -- its entity destroyed, its RPC peer is not connected, is no member of the group and seen by no node,
  -- the server is in order, and every other peer keeps its session.
  pub handle-leaves :
      (m : MpServer) (id sess peer : ℕ) (me : MpServerSession) (name : List ℕ) (pd : RpcServerPeer)
      → Inv m.rpc
      → Open m.on_quit
      → m.sessions id ≡ some sess
      → m.session_objs sess ≡ some me
      → me.state ≡ play peer name
      → m.rpc.peers peer ≡ some pd
      → pd.connected ≡ true
      → (m' : MpServer) × (handle catchup decode_hello decode_message process_inbound
            (disconnected id)
            m
          ≡ some m')
        × (m'.sessions id ≡ none)
        × (m'.on_quit.events ≡ m.on_quit.events ++ sess ∷ [])
        × (m'.destroyed ≡ m.destroyed ++ sess ∷ [])
        × (is_connected m'.rpc peer ≡ false)
        × (contains peer m'.all_players.peers ≡ false)
        × ((n : ℕ) → node_sees (m'.rpc.nodes n) peer ≡ false)
        × Inv m'.rpc
        × ((other : ℕ) → id ≢ other → m'.sessions other ≡ m.sessions other)
  unfolding handle leave
  handle-leaves m id sess peer me name pd inv open_ at at_obj in_play at_peer conn =
      let (rpc, e, inv', gone, unseen) = disconnect-Inv m.rpc inv peer pd at_peer in
      let (group, e', out) = remove_peer-gone peer m.all_players rpc gone in
      (
        record m {
          rpc = rpc;
          all_players = group;
          sessions = remove id m.sessions;
          on_quit = record m.on_quit { events = m.on_quit.events ++ sess ∷ [] };
          destroyed = m.destroyed ++ sess ∷ [];
        },
        rw (at, at_obj, in_play, e, fire-Open sess m.on_quit open_, e') refl,
        rw (==-refl id) refl,
        refl,
        refl,
        gone,
        out,
        unseen conn,
        inv',
        λ other ne. elim (Bool-cases (id == other)) [
          | inl g ↦ absurd (ne ((==_iff id other).0 g))
          | inr g ↦ rw g refl
        ],
      )
