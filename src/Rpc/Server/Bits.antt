-- ===== src/Rpc/Server/Bits.antt =====
-- One queue and one peer: what the queued actions do to the question whether the peer has been told
-- of the node, and which of them are in order.
use heat_gun.Base.{
  ℕ, ◌≡◌, refl, Bool, true, false, not, ◌&&◌, List, [], ◌∷◌, ◌++◌, Option, none, some, arith,
  contains, ◌==◌, if◌then◌else◌,
}
use heat_gun.Rpc.Server.{
  QueuedAction, replicate_to, destroy_remotely, broadcasted, destroy_node, RpcNodeServerQueue,
  RpcServerNode,
}

-- The peer is in the set of the queue.
abbrev pub queue_sees : Option RpcNodeServerQueue → ℕ → Bool
queue_sees none p = false
queue_sees (some q) p = contains p q.visible_to

-- The peer is in the set of the node.
abbrev pub node_sees : Option RpcServerNode → ℕ → Bool
node_sees none p = false
node_sees (some n) p = contains p n.visible_to

abbrev pub effect : ℕ → ℕ → QueuedAction → Bool → Bool
effect q p (replicate_to q' p' packet) b = if q' == q && p' == p then true else b
effect q p (destroy_remotely q' p') b = if q' == q && p' == p then false else b
effect q p (broadcasted q' packet) b = b
effect q p (destroy_node q') b = if q' == q then false else b

abbrev pub effects : ℕ → ℕ → List QueuedAction → Bool → Bool
effects q p [] b = b
effects q p (a ∷ actions) b = effects q p actions (effect q p a b)

-- A node is created where it is unknown, and deleted where it is known.
abbrev pub allowed : ℕ → ℕ → QueuedAction → Bool → Bool
allowed q p (replicate_to q' p' packet) b = if q' == q && p' == p then not b else true
allowed q p (destroy_remotely q' p') b = if q' == q && p' == p then b else true
allowed q p (broadcasted q' packet) b = true
allowed q p (destroy_node q') b = true

abbrev pub all_allowed : ℕ → ℕ → List QueuedAction → Bool → Bool
all_allowed q p [] b = true
all_allowed q p (a ∷ actions) b = allowed q p a b && all_allowed q p actions (effect q p a b)

pub effects-append :
    (q p : ℕ) (actions : List QueuedAction) (a : QueuedAction) (b : Bool)
    → effects q p (actions ++ a ∷ []) b ≡ effect q p a (effects q p actions b)
effects-append q p [] a b = refl
effects-append q p (x ∷ actions) a b = effects-append q p actions a (effect q p x b)

pub all_allowed-append :
    (q p : ℕ) (actions : List QueuedAction) (a : QueuedAction) (b : Bool)
    → all_allowed q p (actions ++ a ∷ []) b
      ≡ (all_allowed q p actions b && allowed q p a (effects q p actions b))
all_allowed-append q p [] a b = ground arith
all_allowed-append q p (x ∷ actions) a b =
    ground (arith, all_allowed-append q p actions a (effect q p x b))
