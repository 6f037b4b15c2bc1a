-- ===== src/Rpc/Server/Toggle.antt =====
-- `replicate`, `de_replicate` and `broadcast` keep the invariant. The first two change one bit of
-- the visibility of one node, and queue the action that tells the peer.
use heat_gun.Base.{
  ℕ, ◌≡◌, ◌≢◌, refl, sym, ap, ◌∙◌, subst, Bool, true, false, not, ◌&&◌, List, Option, none, some,
  arith, contains, set_insert, set_remove, contains-set_insert, contains-set_remove, insert,
  nat_key, ◌==◌, ==_iff, ==-refl, if◌then◌else◌, All-append, Bool-cases, inl, inr, ◌⊎◌, beq-ne,
}
use mathlib.Core.Option.{some-injective}
use mathlib.Core.Bool.{false≢true}
use heat_gun.Rpc.Server.{
  QueuedAction, replicate_to, destroy_remotely, RpcServerNode, RpcServerPeer, World, is_connected,
  push_action, replicate, de_replicate, Packet, peer_connected, add_replica, drop_replica,
  create_node, delete_node, peer_insert, peer_remove,
}
use heat_gun.Rpc.Server.Peers.{
  Mutual, insert_node-sees, insert_peer-sees, remove_node-sees, remove_peer-sees,
}
use heat_gun.Rpc.Server.Bits.{
  queue_sees, node_sees, effect, effects, allowed, all_allowed, effects-append, all_allowed-append,
}
use heat_gun.Rpc.Server.Invariant.{Inv, IsRegistered, Names, action_queue_of}

abbrev toggled : Bool → ℕ → List ℕ → List ℕ
toggled true p xs = set_insert p xs
toggled false p xs = set_remove p xs

abbrev toggling : Bool → ℕ → ℕ → Packet → QueuedAction
toggling true q p packet = replicate_to q p packet
toggling false q p packet = destroy_remotely q p

contains-toggled :
    (on : Bool) (p x : ℕ) (xs : List ℕ)
    → contains x (toggled on p xs) ≡ (if p == x then on else contains x xs)
contains-toggled true p x xs = contains-set_insert p x xs ∙ ground arith
contains-toggled false p x xs = contains-set_remove p x xs ∙ ground arith

effect-toggling :
    (on : Bool) (q p : ℕ) (packet : Packet) (r x : ℕ) (b : Bool)
    → effect r x (toggling on q p packet) b ≡ (if q == r && p == x then on else b)
effect-toggling true q p packet r x b = refl
effect-toggling false q p packet r x b = refl

allowed-toggling :
    (on : Bool) (q p : ℕ) (packet : Packet) (r x : ℕ) (b : Bool)
    → ((q ≡ r) → (p ≡ x) → b ≡ not on)
    → allowed r x (toggling on q p packet) b ≡ true
allowed-toggling true q p packet r x b h = ground (arith, h)
allowed-toggling false q p packet r x b h = ground (arith, h)

module _ (w : World) (v : Inv w) (n : ℕ) (nd : RpcServerNode) (reg : IsRegistered w n nd) (p : ℕ)
    (pd pd' : RpcServerPeer) (at_peer : w.peers p ≡ some pd) (same : pd'.connected ≡ pd.connected)
    (on : Bool) (packet : Packet)
    (named : Names (w.queues nd.queue) (toggling on nd.queue p packet))
    (news : contains p nd.visible_to ≡ not on)
    (symmetric' : Mutual
      (insert n (record nd { visible_to = toggled on p nd.visible_to }) w.nodes)
      (insert p pd' w.peers)) where
  abbrev nd' : RpcServerNode
  nd' = record nd { visible_to = toggled on p nd.visible_to }

  abbrev w' : World
  w' =
      push_action (toggling on nd.queue p packet)
        (record w { nodes = insert n nd' w.nodes; peers = insert p pd' w.peers })

  still_connected : (x : ℕ) → is_connected w' x ≡ is_connected w x
  still_connected x = elim (Bool-cases (p == x)) [
    | inl e ↦ rw (e, ← (==_iff p x).0 e, at_peer) same
    | inr e ↦ rw e
  ]

  -- A node of the new world is one of the old, and only `n` has changed.
  abbrev Came : ℕ → RpcServerNode → RpcServerNode → Type 0
  Came m md od =
      (md.queue ≡ od.queue)
      × (md.node_id ≡ od.node_id)
      × (((nd.queue ≡ md.queue)
            × (md.visible_to ≡ toggled on p od.visible_to)
            × (contains p od.visible_to ≡ not on))
          ⊎ ((nd.queue ≢ md.queue) × (md.visible_to ≡ od.visible_to)))

  came :
      (m : ℕ) (md : RpcServerNode)
      → IsRegistered w' m md
      → (od : RpcServerNode) × IsRegistered w m od × Came m md od
  came m md (e, f) = elim (Bool-cases (n == m)) [
    | inl h ↦
        let eq : n ≡ m = (==_iff n m).0 h in
        let is : nd' ≡ md = some-injective _ _ (rw h at e) in
        (
          nd,
          rw (← eq) reg,
          subst (λ (y : RpcServerNode). Came m y nd) is (refl, refl, inl (refl, refl, news)),
        )
    | inr h ↦
        let ne : n ≢ m = λ eq. absurd (false≢true (sym h ∙ (==_iff n m).1 eq)) in
        (
          md,
          (rw h at e, f),
          (refl, refl, inr ((λ eq. ne (v.owner n m nd md reg (rw h at e, f) eq)), refl)),
        )
  ]

  settled-toggle :
      (m x : ℕ) (md : RpcServerNode)
      → IsRegistered w' m md
      → is_connected w' x ≡ true
      → effects md.queue x w'.action_queue (queue_sees (w.queues md.queue) x)
        ≡ contains x md.visible_to
  settled-toggle m x md r c =
      let (od, old, (q, i, change)) = came m md r in
      let was = v.settled m x od old (sym (still_connected x) ∙ c) in
      effects-append md.queue x w.action_queue (toggling on nd.queue p packet) _
      ∙ effect-toggling on nd.queue p packet md.queue x _
      ∙ elim change [
        | inl (qe, vis, old_bit) ↦
            rw (vis, contains-toggled on p x od.visible_to, ← was, ← q, qe, ==-refl md.queue)
        | inr (ne, vis) ↦ rw (vis, beq-ne nd.queue md.queue ne) (rw q was)
      ]

  in_order-toggle :
      (q x : ℕ)
      → is_connected w' x ≡ true
      → all_allowed q x w'.action_queue (queue_sees (w.queues q) x) ≡ true
  in_order-toggle q x c =
      all_allowed-append q x w.action_queue (toggling on nd.queue p packet) _
      ∙ rw (
        v.in_order q x (sym (still_connected x) ∙ c),
        allowed-toggling on nd.queue p packet q x _
            (λ e f. bit q x e f (sym (still_connected x) ∙ c)),
      )
    where
      bit :
          (q x : ℕ)
          → nd.queue ≡ q
          → p ≡ x
          → is_connected w x ≡ true
          → effects q x w.action_queue (queue_sees (w.queues q) x) ≡ not on
      bit q x e f c = rw (← e, ← f) (v.settled n p nd reg (rw (← f) at c) ∙ news)

  toggle-Inv : Inv w'
  toggle-Inv = record {
    settled = settled-toggle;
    in_order = in_order-toggle;
    owner = λ l m ld md r t e.
        let (od, old, (q, i, change)) = came l ld r in
        let (od', old', (q', i', change')) = came m md t in
        v.owner l m od od' old old' (sym q ∙ e ∙ q');
    own_queue = λ m md r.
        let (od, old, (q, i, change)) = came m md r in
        let (qu, e, f) = v.own_queue m od old in (qu, rw q e, f ∙ sym i);
    live_queues = v.live_queues;
    named = All-append _ w.action_queue _ v.named (named_end on named, tt);
    queue_sets = v.queue_sets;
    queue_ids = v.queue_ids;
    below_gen = v.below_gen;
    symmetric = symmetric';
  }
    where
      named_end :
          (on : Bool)
          → Names (w.queues nd.queue) (toggling on nd.queue p packet)
          → Names
              (w.queues (action_queue_of (toggling on nd.queue p packet)))
              (toggling on nd.queue p packet)
      named_end true h = h
      named_end false h = h

peer_of :
    (o : Option RpcServerPeer) → peer_connected o ≡ true → (pd : RpcServerPeer) × (o ≡ some pd)
peer_of none c = absurd (false≢true c)
peer_of (some pd) c = (pd, refl)

module _ (w : World) (v : Inv w) (n p : ℕ) (nd : RpcServerNode) (reg : IsRegistered w n nd) where
  add_replica-Inv :
      (catchup : List ℕ)
      → is_connected w p ≡ true
      → contains p nd.visible_to ≡ false
      → (w' : World) × (add_replica catchup n p nd w ≡ some w')
        × Inv w'
        × (node_sees (w'.nodes n) p ≡ true)
  unfolding add_replica
  add_replica-Inv catchup c news =
      let (pd, at) = peer_of (w.peers p) c in
      let (q, e, f) = v.own_queue n nd reg in
      let packet = create_node nd.node_id nd.kind_ty catchup in
      let named : Names (w.queues nd.queue) (replicate_to nd.queue p packet) = rw e (sym f) in
      (
        _,
        rw at,
        toggle-Inv w v n nd reg p pd (peer_insert n pd) at refl true packet named news (λ m x.
            insert_node-sees n p x m nd w.nodes reg.0
            ∙ ap (λ b. if n == m && p == x then true else b) (v.symmetric m x)
            ∙ sym (insert_peer-sees n p x m pd w.peers at)),
        rw (==-refl n) (contains-set_insert p p nd.visible_to ∙ rw (==-refl p)),
      )

  drop_replica-Inv :
      is_connected w p ≡ true
      → contains p nd.visible_to ≡ true
      → (w' : World) × (drop_replica n p nd w ≡ some w')
        × Inv w'
        × (node_sees (w'.nodes n) p ≡ false)
  unfolding drop_replica
  drop_replica-Inv c news =
      let (pd, at) = peer_of (w.peers p) c in
      let (q, e, f) = v.own_queue n nd reg in
      let named : Names (w.queues nd.queue) (destroy_remotely nd.queue p) = rw e tt in
      (
        _,
        rw at,
        toggle-Inv w v n nd reg p pd (peer_remove n pd) at refl false (delete_node 0) named news
            (λ m x.
              remove_node-sees n p x m nd w.nodes reg.0
              ∙ ap (λ b. if n == m && p == x then false else b) (v.symmetric m x)
              ∙ sym (remove_peer-sees n p x m pd w.peers at)),
        rw (==-refl n) (contains-set_remove p p nd.visible_to ∙ rw (==-refl p)),
      )

  -- `replicate` of a registered node succeeds and keeps the invariant; a connected peer sees the
  -- node afterwards, and for a peer that is gone nothing changes.
  pub replicate-Inv :
      (catchup : List ℕ)
      → (w' : World) × (replicate catchup n p w ≡ some w')
        × Inv w'
        × (if is_connected w p then (node_sees (w'.nodes n) p ≡ true) else (w' ≡ w))
  unfolding replicate
  replicate-Inv catchup = elim (Bool-cases (is_connected w p)) [
    | inl c ↦ elim (Bool-cases (contains p nd.visible_to)) [
      | inl old ↦ (w, rw (c, reg.0, old), v, rw (c, reg.0) old)
      | inr news ↦
          let (w', e, i, s) = add_replica-Inv catchup c news in
          (w', rw (c, reg.0, news) e, i, rw c s)
    ]
    | inr c ↦ (w, rw c, v, rw c refl)
  ]

  -- `de_replicate` of a registered node succeeds and keeps the invariant; a connected peer does not
  -- see the node afterwards, and for a peer that is gone nothing changes.
  pub de_replicate-Inv :
      (w' : World) × (de_replicate n p w ≡ some w')
      × Inv w'
      × (if is_connected w p then (node_sees (w'.nodes n) p ≡ false) else (w' ≡ w))
  unfolding de_replicate
  de_replicate-Inv = elim (Bool-cases (is_connected w p)) [
    | inl c ↦ elim (Bool-cases (contains p nd.visible_to)) [
      | inl old ↦
          let (w', e, i, s) = drop_replica-Inv c old in (w', rw (c, reg.0, old) e, i, rw c s)
      | inr news ↦ (w, rw (c, reg.0, news), v, rw (c, reg.0) news)
    ]
    | inr c ↦ (w, rw c, v, rw c refl)
  ]
