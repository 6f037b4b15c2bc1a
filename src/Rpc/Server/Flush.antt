-- ===== src/Rpc/Server/Flush.antt =====
-- `flush` runs, brings every queue up to date with its node, and sends each connected peer packets
-- that lead from what the queue said of the peer to what the queue says.
mod Steps
mod Run
mod Dead
use heat_gun.Base.{
  ℕ, ◌<◌, ◌≡◌, ◌>>=◌, Bool, true, false, List, [], ◌∷◌, Option, none, some, arith, All, is_some,
  IsNodup,
}
use heat_gun.Rpc.Server.{
  RpcNodeServerQueue, World, QueuedAction, is_connected, drop_dead, perform_all, Sent,
}
use heat_gun.Rpc.Server.Bits.{queue_sees, effects, all_allowed}
use heat_gun.Rpc.Server.Peers.{Mutual}
use heat_gun.Rpc.Server.Replay.{replay}
use heat_gun.Rpc.Server.Flush.Steps.{SameQueue, Frame, Done}

-- What a flush does to the queues, as one step.
record Flushed (w w' : World) (sent : Sent) : Type 0 where
  nodes : w'.nodes ≡ w.nodes
  peers : w'.peers ≡ w.peers
  id_to_node : w'.id_to_node ≡ w.id_to_node
  id_gen : w'.id_gen ≡ w.id_gen
  drained : w'.action_queue ≡ []
  ids : (q : ℕ) → SameQueue (w'.queues q) (w.queues q)
  live : All (λ q. is_some (w'.queues q) ≡ true) w'.node_queues
  sees :
      (q p : ℕ)
      → is_connected w p ≡ true
      → queue_sees (w'.queues q) p ≡ effects q p w.action_queue (queue_sees (w.queues q) p)
  told :
      (q p : ℕ) (qu : RpcNodeServerQueue)
      → w.queues q ≡ some qu
      → is_connected w p ≡ true
      → replay qu.node_id p sent (queue_sees (w.queues q) p)
        ≡ some (effects q p w.action_queue (queue_sees (w.queues q) p))
  sets : (q : ℕ) (qu : RpcNodeServerQueue) → w'.queues q ≡ some qu → IsNodup qu.visible_to
