-- ===== src/Rpc/Server/Registering.antt =====
-- The registration of a node, under handles that are new.
use heat_gun.Base.{
  ℕ, ◌+◌, ◌<◌, ◌≡◌, ◌⊎◌, refl, sym, ap, ◌∙◌, true, false, [], none, some, arith, contains,
  set_insert, insert, nat_key, lt→ltb, ◌==◌, ==_iff, ==-refl, All, All-imp, is_some, Bool-cases,
  inl, inr,
}
use mathlib.Core.Option.{some-injective}
use mathlib.Core.Bool.{false≢true}
use heat_gun.Rpc.Server.{
  RpcNodeServerQueue, RpcServerNode, World, register_node, u64_max, is_connected,
}
use heat_gun.Rpc.Server.Bits.{queue_sees, node_sees, effects, all_allowed}
use heat_gun.Rpc.Server.Peers.{Mutual}
use heat_gun.Rpc.Server.Invariant.{Inv, IsRegistered, Names, action_queue_of}
use heat_gun.Rpc.Server.Arriving.{none_missing, Names-some, other_queues}

module _ (w : World) (inv : Inv w) (node queue kind userdata_ty userdata : ℕ)
    (no_node : w.nodes node ≡ none) (no_queue : w.queues queue ≡ none)
    (room : w.id_gen < u64_max) where
  abbrev new_queue : RpcNodeServerQueue
  new_queue = record { node_id = w.id_gen; visible_to = [] }

  abbrev new_node : RpcServerNode
  new_node = record {
    node_id = w.id_gen;
    kind_ty = kind;
    visible_to = [];
    queue = queue;
    userdata_ty = userdata_ty;
    userdata = userdata;
  }

  abbrev registered_world : World
  registered_world = record {
    id_to_node = insert w.id_gen node w.id_to_node;
    id_gen = w.id_gen + 1;
    action_queue = w.action_queue;
    node_queues = set_insert queue w.node_queues;
    nodes = insert node new_node w.nodes;
    peers = w.peers;
    queues = insert queue new_queue w.queues;
  }

  -- A registered node is the new one, or was registered before.
  IsRegistered-cases :
      (n : ℕ) (nd : RpcServerNode)
      → IsRegistered registered_world n nd
      → ((node ≡ n) × (new_node ≡ nd)) ⊎ IsRegistered w n nd
  IsRegistered-cases n nd reg = elim (Bool-cases (node == n)) [
    | inl h ↦ inl ((==_iff node n).0 h, some-injective new_node nd (rw h at reg.0))
    | inr h ↦
        let at : w.nodes n ≡ some nd = rw h at reg.0 in
        elim (Bool-cases (w.id_gen == nd.node_id)) [
          | inl g ↦
              absurd
                (false≢true (sym h ∙ (==_iff node n).1 (some-injective node n (rw g at reg.1))))
          | inr g ↦ inr (at, rw g at reg.1)
        ]
  ]

  own_queue_ne : (n : ℕ) (nd : RpcServerNode) → IsRegistered w n nd → (queue == nd.queue) ≡ false
  own_queue_ne n nd reg =
      let (qu, e, i) = inv.own_queue n nd reg in
      none_missing nd.queue queue w.queues no_queue (ap is_some e)

  actions_ne : All (λ a. (action_queue_of a == queue) ≡ false) w.action_queue
  actions_ne =
      All-imp (λ a. Names (w.queues (action_queue_of a)) a)
        (λ a. (action_queue_of a == queue) ≡ false) w.action_queue
        (λ a names. ==-sym queue (action_queue_of a) (
          none_missing (action_queue_of a) queue w.queues no_queue
            (Names-some (w.queues (action_queue_of a)) a names)))
        inv.named
    where
      ==-sym : (a b : ℕ) → (a == b) ≡ false → (b == a) ≡ false
      ==-sym a b e = ground arith

  queue_cases :
      (q : ℕ) (qu : RpcNodeServerQueue)
      → registered_world.queues q ≡ some qu
      → ((queue ≡ q) × (new_queue ≡ qu)) ⊎ (w.queues q ≡ some qu)
  queue_cases q qu e = elim (Bool-cases (queue == q)) [
    | inl h ↦ inl ((==_iff queue q).0 h, some-injective new_queue qu (rw h at e))
    | inr h ↦ inr (rw h at e)
  ]

  new_in_order :
      (q p : ℕ)
      → is_connected w p ≡ true
      → all_allowed q p w.action_queue (queue_sees (registered_world.queues q) p) ≡ true
  new_in_order q p c = elim (Bool-cases (queue == q)) [
    | inl h ↦
        rw (h, ← (==_iff queue q).0 h) (other_queues queue p w.action_queue false actions_ne).1
    | inr h ↦ rw h (inv.in_order q p c)
  ]

  new_settled :
      (n p : ℕ) (nd : RpcServerNode)
      → IsRegistered registered_world n nd
      → is_connected w p ≡ true
      → effects nd.queue p w.action_queue (queue_sees (registered_world.queues nd.queue) p)
        ≡ contains p nd.visible_to
  new_settled n p nd reg c = elim (IsRegistered-cases n nd reg) [
    | inl (at, e) ↦ rw (← e, ==-refl queue) (other_queues queue p w.action_queue false actions_ne).0
    | inr old ↦ rw (own_queue_ne n nd old) (inv.settled n p nd old c)
  ]

  new_owner :
      (m n : ℕ) (md nd : RpcServerNode)
      → IsRegistered registered_world m md
      → IsRegistered registered_world n nd
      → md.queue ≡ nd.queue
      → m ≡ n
  new_owner m n md nd rm rn e = elim (IsRegistered-cases m md rm) [
    | inl (at, g) ↦ elim (IsRegistered-cases n nd rn) [
      | inl (at', g') ↦ sym at ∙ at'
      | inr old ↦ absurd (clash (own_queue_ne n nd old) (ap (λ (x : RpcServerNode). x.queue) g ∙ e))
    ]
    | inr old ↦ elim (IsRegistered-cases n nd rn) [
      | inl (at', g') ↦
          absurd (clash (own_queue_ne m md old) (ap (λ (x : RpcServerNode). x.queue) g' ∙ sym e))
      | inr old' ↦ inv.owner m n md nd old old' e
    ]
  ]
    where
      clash : {a b : ℕ} → (a == b) ≡ false → a ≡ b → ⊥
      clash e f = false≢true (sym e ∙ (==_iff _ _).1 f)

  new_own_queue :
      (n : ℕ) (nd : RpcServerNode)
      → IsRegistered registered_world n nd
      → (q : RpcNodeServerQueue) × (registered_world.queues nd.queue ≡ some q)
        × (q.node_id ≡ nd.node_id)
  new_own_queue n nd reg = elim (IsRegistered-cases n nd reg) [
    | inl (at, e) ↦ (new_queue, rw (← e, ==-refl queue) refl, rw (← e) refl)
    | inr old ↦ let (qu, e, i) = inv.own_queue n nd old in (qu, rw (own_queue_ne n nd old) e, i)
  ]

  still_there : (q : ℕ) → is_some (w.queues q) ≡ true → is_some (registered_world.queues q) ≡ true
  still_there q s = elim (Bool-cases (queue == q)) [ inl h ↦ rw h refl | inr h ↦ rw h s ]

  new_live : All (λ q. is_some (registered_world.queues q) ≡ true) registered_world.node_queues
  unfolding set_insert
  new_live = elim (Bool-cases (contains queue w.node_queues)) [
    | inl h ↦ rw h old
    | inr h ↦ rw h (rw (==-refl queue) refl, old)
  ]
    where
      old : All (λ q. is_some (registered_world.queues q) ≡ true) w.node_queues
      old =
          All-imp (λ q. is_some (w.queues q) ≡ true)
            (λ q. is_some (registered_world.queues q) ≡ true) w.node_queues still_there
            inv.live_queues

  new_named : All (λ a. Names (registered_world.queues (action_queue_of a)) a) w.action_queue
  new_named =
      All-imp (λ a. Names (w.queues (action_queue_of a)) a)
        (λ a. Names (registered_world.queues (action_queue_of a)) a) w.action_queue
        (λ a names.
          rw
            (none_missing (action_queue_of a) queue w.queues no_queue
              (Names-some (w.queues (action_queue_of a)) a names))
            names)
        inv.named

  new_queue_ids :
      (q r : ℕ) (qu ru : RpcNodeServerQueue)
      → registered_world.queues q ≡ some qu
      → registered_world.queues r ≡ some ru
      → qu.node_id ≡ ru.node_id
      → q ≡ r
  new_queue_ids q r qu ru e f same = elim (queue_cases q qu e) [
    | inl (at, g) ↦ elim (queue_cases r ru f) [
      | inl (at', g') ↦ sym at ∙ at'
      | inr old ↦ absurd (below ru (inv.below_gen r ru old) (sym same ∙ sym (id_of qu g)))
    ]
    | inr old ↦ elim (queue_cases r ru f) [
      | inl (at', g') ↦ absurd (below qu (inv.below_gen q qu old) (same ∙ sym (id_of ru g')))
      | inr old' ↦ inv.queue_ids q r qu ru old old' same
    ]
  ]
    where
      id_of : (qu : RpcNodeServerQueue) → new_queue ≡ qu → w.id_gen ≡ qu.node_id
      id_of qu g = ap (λ (x : RpcNodeServerQueue). x.node_id) g

      below : (qu : RpcNodeServerQueue) → qu.node_id < w.id_gen → qu.node_id ≡ w.id_gen → ⊥
      below qu l e = omega arith

  new_below_gen :
      (q : ℕ) (qu : RpcNodeServerQueue)
      → registered_world.queues q ≡ some qu
      → qu.node_id < w.id_gen + 1
  new_below_gen q qu e = elim (queue_cases q qu e) [
    | inl (at, g) ↦ rw (← g) (omega arith)
    | inr old ↦ weaken (inv.below_gen q qu old)
  ]
    where
      weaken : {a b : ℕ} → a < b → a < b + 1
      weaken l = omega arith

  new_symmetric : Mutual registered_world.nodes w.peers
  new_symmetric n p = elim (Bool-cases (node == n)) [
    | inl h ↦
        rw (h, ← (==_iff node n).0 h) (sym (ap (λ o. node_sees o p) no_node) ∙ inv.symmetric node p)
    | inr h ↦ rw h (inv.symmetric n p)
  ]

  registered_world-Inv : Inv registered_world
  registered_world-Inv = record {
    settled = new_settled;
    in_order = new_in_order;
    owner = new_owner;
    own_queue = new_own_queue;
    live_queues = new_live;
    named = new_named;
    queue_sets = λ q qu e. elim (queue_cases q qu e) [
      | inl (at, g) ↦ rw (← g) tt
      | inr old ↦ inv.queue_sets q qu old
    ];
    queue_ids = new_queue_ids;
    below_gen = new_below_gen;
    symmetric = new_symmetric;
  }

-- While ids are left, registering a node under handles that name no node and no queue succeeds,
-- keeps the invariant, and makes the node known to the server under the next id.
pub register_node-Inv :
    (w : World) (node queue kind userdata_ty userdata : ℕ)
    → Inv w
    → w.nodes node ≡ none
    → w.queues queue ≡ none
    → w.id_gen < u64_max
    → (w' : World) × (register_node node queue kind userdata_ty userdata w ≡ some w')
      × Inv w'
      × (nd : RpcServerNode) × IsRegistered w' node nd
      × (nd.node_id ≡ w.id_gen)
unfolding register_node
register_node-Inv w node queue kind userdata_ty userdata inv no_node no_queue room = (
  registered_world w inv node queue kind userdata_ty userdata no_node no_queue room,
  rw (lt→ltb w.id_gen u64_max room) refl,
  registered_world-Inv w inv node queue kind userdata_ty userdata no_node no_queue room,
  new_node w inv node queue kind userdata_ty userdata no_node no_queue room,
  (rw (==-refl node) refl, rw (==-refl w.id_gen) refl),
  refl,
)
