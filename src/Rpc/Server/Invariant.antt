-- ===== src/Rpc/Server/Invariant.antt =====
-- The invariant of the server: for every registered node and connected peer, the queued actions
-- lead from what the peer has been told to what the node says.
use heat_gun.Base.{ℕ, ◌<◌, ◌≡◌, true, Option, none, some, contains, nat_key, All, is_some, IsNodup}
use heat_gun.Rpc.Server.{
  QueuedAction, replicate_to, destroy_remotely, broadcasted, destroy_node, RpcNodeServerQueue,
  RpcServerNode, World, is_connected, create_node, delete_node, send_message,
}
use heat_gun.Rpc.Server.Peers.{Mutual}
use heat_gun.Rpc.Server.Bits.{queue_sees, effects, all_allowed}

abbrev pub action_queue_of : QueuedAction → ℕ
action_queue_of (replicate_to q p packet) = q
action_queue_of (destroy_remotely q p) = q
action_queue_of (broadcasted q packet) = q
action_queue_of (destroy_node q) = q

-- A packet that is queued names the node of its queue.
abbrev pub Names : Option RpcNodeServerQueue → QueuedAction → Type 0
Names none a = ⊥
Names (some q) (replicate_to _ p (create_node id kind body)) = id ≡ q.node_id
Names (some q) (replicate_to _ p (delete_node id)) = ⊥
Names (some q) (replicate_to _ p (send_message id body)) = ⊥
Names (some q) (destroy_remotely _ p) = Unit
Names (some q) (broadcasted _ (create_node id kind body)) = ⊥
Names (some q) (broadcasted _ (delete_node id)) = ⊥
Names (some q) (broadcasted _ (send_message id body)) = id ≡ q.node_id
Names (some q) (destroy_node _) = Unit

-- The node `n` has the state `nd`, and the server knows it.
abbrev pub IsRegistered : World → ℕ → RpcServerNode → Type 0
IsRegistered w n nd = (w.nodes n ≡ some nd) × (w.id_to_node nd.node_id ≡ some n)

pub record Inv (w : World) : Type 0 where
  pub settled :
      (n p : ℕ) (nd : RpcServerNode)
      → IsRegistered w n nd
      → is_connected w p ≡ true
      → effects nd.queue p w.action_queue (queue_sees (w.queues nd.queue) p)
        ≡ contains p nd.visible_to
  pub in_order :
      (q p : ℕ)
      → is_connected w p ≡ true
      → all_allowed q p w.action_queue (queue_sees (w.queues q) p) ≡ true
  pub owner :
      (m n : ℕ) (md nd : RpcServerNode)
      → IsRegistered w m md
      → IsRegistered w n nd
      → md.queue ≡ nd.queue
      → m ≡ n
  pub own_queue :
      (n : ℕ) (nd : RpcServerNode)
      → IsRegistered w n nd
      → (q : RpcNodeServerQueue) × (w.queues nd.queue ≡ some q) × (q.node_id ≡ nd.node_id)
  pub live_queues : All (λ q. is_some (w.queues q) ≡ true) w.node_queues
  pub named : All (λ a. Names (w.queues (action_queue_of a)) a) w.action_queue
  pub queue_sets : (q : ℕ) (qu : RpcNodeServerQueue) → w.queues q ≡ some qu → IsNodup qu.visible_to
  pub queue_ids :
      (q r : ℕ) (qu ru : RpcNodeServerQueue)
      → w.queues q ≡ some qu
      → w.queues r ≡ some ru
      → qu.node_id ≡ ru.node_id
      → q ≡ r
  pub below_gen : (q : ℕ) (qu : RpcNodeServerQueue) → w.queues q ≡ some qu → qu.node_id < w.id_gen
  pub symmetric : Mutual w.nodes w.peers
