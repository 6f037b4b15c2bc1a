-- ===== src/Rpc/Server/Arriving.antt =====
-- A server at its start, and the registration of a node or a peer under a handle that is new.
use heat_gun.Base.{
  ℕ, ◌≡◌, refl, sym, ap, ◌∙◌, Bool, true, false, List, [], ◌∷◌, Option, none, some, arith, contains,
  nat_key, ◌==◌, ==_iff, ==-refl, All, is_some, Bool-cases, inl, inr, Map,
}
use mathlib.Core.Bool.{false≢true}
use heat_gun.Rpc.Server.{
  QueuedAction, replicate_to, destroy_remotely, broadcasted, destroy_node, RpcNodeServerQueue,
  RpcServerNode, World, new, register_peer, is_connected,
}
use heat_gun.Rpc.Server.Bits.{queue_sees, node_sees, effect, effects, allowed, all_allowed}
use heat_gun.Rpc.Server.Peers.{peer_sees}
use heat_gun.Rpc.Server.Invariant.{Inv, Names, action_queue_of}

-- A new server is in order.
pub new-Inv : Inv new
unfolding new
new-Inv = record {
  settled = λ n p nd reg c. absurd (false≢true c);
  in_order = λ q p c. refl;
  owner = λ m n md nd rm rn. absurd (false≢true (ap is_some rm.0));
  own_queue = λ n nd reg. absurd (false≢true (ap is_some reg.0));
  live_queues = tt;
  named = tt;
  queue_sets = λ q qu e. absurd (false≢true (ap is_some e));
  queue_ids = λ q r qu ru e. absurd (false≢true (ap is_some e));
  below_gen = λ q qu e. absurd (false≢true (ap is_some e));
  symmetric = λ n p. refl;
}

-- The action does not speak of the peer.
abbrev pub Unaddressed : ℕ → QueuedAction → Type 0
Unaddressed p (replicate_to q p' packet) = (p' == p) ≡ false
Unaddressed p (destroy_remotely q p') = (p' == p) ≡ false
Unaddressed p (broadcasted q packet) = Unit
Unaddressed p (destroy_node q) = Unit

-- A handle that the arena has not given out before stands nowhere.
pub record IsFreshPeer (p : ℕ) (w : World) : Type 0 where
  pub absent : w.peers p ≡ none
  pub unaddressed : All (Unaddressed p) w.action_queue
  pub unlisted : (q : ℕ) → queue_sees (w.queues q) p ≡ false

Unaddressed-effect :
    (q p : ℕ) (a : QueuedAction)
    → Unaddressed p a
    → (effect q p a false ≡ false) × (allowed q p a false ≡ true)
Unaddressed-effect q p (replicate_to q' p' packet) u = ground arith
Unaddressed-effect q p (destroy_remotely q' p') u = ground arith
Unaddressed-effect q p (broadcasted q' packet) u = (refl, refl)
Unaddressed-effect q p (destroy_node q') u = ground arith

Unaddressed-effects :
    (q p : ℕ) (actions : List QueuedAction)
    → All (Unaddressed p) actions
    → (effects q p actions false ≡ false) × (all_allowed q p actions false ≡ true)
Unaddressed-effects q p [] u = (refl, refl)
Unaddressed-effects q p (a ∷ actions) u =
    let (e, o) = Unaddressed-effect q p a u.0 in rw (e, o) (Unaddressed-effects q p actions u.1)

-- Registering a peer under a handle that stands nowhere yet keeps the invariant, and the peer is
-- connected.
pub register_peer-Inv :
    (w : World) (p : ℕ)
    → Inv w
    → IsFreshPeer p w
    → Inv (register_peer p w) × (is_connected (register_peer p w) p ≡ true)
unfolding register_peer
register_peer-Inv w p inv fresh = (
  record {
    settled = λ n x nd reg c. elim (Bool-cases (p == x)) [
      | inl h ↦
          rw (← (==_iff p x).0 h, fresh.unlisted nd.queue)
            ((Unaddressed-effects nd.queue p w.action_queue fresh.unaddressed).0
              ∙ unseen n nd reg.0)
      | inr h ↦ inv.settled n x nd reg (rw h at c)
    ];
    in_order = λ q x c. elim (Bool-cases (p == x)) [
      | inl h ↦
          rw (← (==_iff p x).0 h, fresh.unlisted q)
            (Unaddressed-effects q p w.action_queue fresh.unaddressed).1
      | inr h ↦ inv.in_order q x (rw h at c)
    ];
    owner = inv.owner;
    own_queue = inv.own_queue;
    live_queues = inv.live_queues;
    named = inv.named;
    queue_sets = inv.queue_sets;
    queue_ids = inv.queue_ids;
    below_gen = inv.below_gen;
    symmetric = λ n x. elim (Bool-cases (p == x)) [
      | inl h ↦
          rw (h, ← (==_iff p x).0 h) (inv.symmetric n p ∙ ap (λ o. peer_sees o n) fresh.absent)
      | inr h ↦ rw h (inv.symmetric n x)
    ];
  },
  rw (==-refl p) refl,
)
  where
    unseen : (n : ℕ) (nd : RpcServerNode) → w.nodes n ≡ some nd → false ≡ contains p nd.visible_to
    unseen n nd e =
        sym (ap (λ o. peer_sees o n) fresh.absent)
        ∙ sym (inv.symmetric n p)
        ∙ ap (λ o. node_sees o p) e

pub none_missing :
    (q r : ℕ) (m : Map ℕ RpcNodeServerQueue) → m r ≡ none → is_some (m q) ≡ true → (r == q) ≡ false
none_missing q r m e s = elim (Bool-cases (r == q)) [
  | inl h ↦ absurd (false≢true (ap is_some (sym e) ∙ rw (← (==_iff r q).0 h) at s))
  | inr h ↦ h
]

pub Names-some : (o : Option RpcNodeServerQueue) (a : QueuedAction) → Names o a → is_some o ≡ true
Names-some (some q) a names = refl
Names-some none a names = absurd names

-- No action speaks of a queue that is not there.
other_queue :
    (q p : ℕ) (a : QueuedAction) (b : Bool)
    → (action_queue_of a == q) ≡ false
    → (effect q p a b ≡ b) × (allowed q p a b ≡ true)
other_queue q p (replicate_to q' p' packet) b e = rw e (refl, refl)
other_queue q p (destroy_remotely q' p') b e = rw e (refl, refl)
other_queue q p (broadcasted q' packet) b e = (refl, refl)
other_queue q p (destroy_node q') b e = rw e (refl, refl)

pub other_queues :
    (q p : ℕ) (actions : List QueuedAction) (b : Bool)
    → All (λ a. (action_queue_of a == q) ≡ false) actions
    → (effects q p actions b ≡ b) × (all_allowed q p actions b ≡ true)
other_queues q p [] b h = (refl, refl)
other_queues q p (a ∷ actions) b h =
    let (e, o) = other_queue q p a b h.0 in rw (e, o) (other_queues q p actions b h.1)
