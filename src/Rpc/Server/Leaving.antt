-- ===== src/Rpc/Server/Leaving.antt =====
-- `broadcast`, `unregister` and `disconnect` keep the invariant.
use heat_gun.Base.{
  ℕ, ◌≡◌, ◌≢◌, refl, sym, ap, ◌∙◌, true, false, ◌&&◌, List, [], Option, none, some, contains, Map,
  insert, remove, nat_key, ◌==◌, ==_iff, ==-refl, if◌then◌else◌, All-append, is_some, Bool-cases,
  inl, inr, beq-ne,
}
use mathlib.Core.Option.{some-injective}
use mathlib.Core.Bool.{false≢true}
use heat_gun.Rpc.Server.{
  QueuedAction, broadcasted, destroy_node, RpcServerNode, RpcServerPeer, World, peer_connected,
  push_action, broadcast, unregister, send_message,
}
use heat_gun.Rpc.Server.Peers.{Mutual, peer_sees, forget_node_lem}
use heat_gun.Rpc.Server.Bits.{effects-append, all_allowed-append}
use heat_gun.Rpc.Server.Invariant.{Inv, IsRegistered}

module _ (w : World) (v : Inv w) (n : ℕ) (nd : RpcServerNode) (reg : IsRegistered w n nd) where
  -- `broadcast` of a registered node panics exactly when the kind is another one; else it keeps the
  -- invariant, and changes the action queue alone.
  pub broadcast-Inv :
      (kind_ty : ℕ) (body : List ℕ)
      → (if nd.kind_ty == kind_ty
          then (Inv (push_action (broadcasted nd.queue (send_message nd.node_id body)) w)
              × (broadcast kind_ty body n w
                  ≡ some (push_action (broadcasted nd.queue (send_message nd.node_id body)) w)))
          else (broadcast kind_ty body n w ≡ none))
  unfolding broadcast
  broadcast-Inv kind_ty body = elim (Bool-cases (nd.kind_ty == kind_ty)) [
    | inl k ↦ rw k (kept, rw (reg.0, k))
    | inr k ↦ rw k (rw (reg.0, k))
  ]
    where
      a : QueuedAction
      a = broadcasted nd.queue (send_message nd.node_id body)

      kept : Inv (push_action (broadcasted nd.queue (send_message nd.node_id body)) w)
      kept = record {
        settled = λ m x md r c. effects-append md.queue x w.action_queue a _ ∙ v.settled m x md r c;
        in_order = λ q x c. all_allowed-append q x w.action_queue a _ ∙ rw (v.in_order q x c);
        owner = v.owner;
        own_queue = v.own_queue;
        live_queues = v.live_queues;
        named =
            All-append _ w.action_queue _ v.named
              (let (q, e, f) = v.own_queue n nd reg in rw e (sym f), tt);
        queue_sets = v.queue_sets;
        queue_ids = v.queue_ids;
        below_gen = v.below_gen;
        symmetric = v.symmetric;
      }

  seen_peers : (p : ℕ) → contains p nd.visible_to ≡ true → is_some (w.peers p) ≡ true
  seen_peers p c = some_if_sees (w.peers p) (sym (v.symmetric n p) ∙ rw reg.0 c)
    where
      some_if_sees : (o : Option RpcServerPeer) → peer_sees o n ≡ true → is_some o ≡ true
      some_if_sees none e = e
      some_if_sees (some p) e = refl

  -- The world after `unregister`, given what the peers become.
  abbrev left : Map ℕ RpcServerPeer → World
  left m = push_action (destroy_node nd.queue) (record w {
    id_to_node = remove nd.node_id w.id_to_node;
    nodes = insert n (record nd { visible_to = [] }) w.nodes;
    peers = m;
  })

  module _ (m : Map ℕ RpcServerPeer)
      (sees : (x y : ℕ)
        → peer_sees (m x) y
          ≡ (if n == y && contains x nd.visible_to then false else peer_sees (w.peers x) y))
      (conn : (x : ℕ) → peer_connected (m x) ≡ peer_connected (w.peers x)) where
    -- The nodes that stay registered are old ones, and none of them is `n`.
    stays :
        (k : ℕ) (md : RpcServerNode)
        → IsRegistered (left m) k md
        → IsRegistered w k md × (nd.queue ≢ md.queue)
    stays k md (e, f) = elim (Bool-cases (nd.node_id == md.node_id)) [
      | inl h ↦ absurd (cc (rw h at f))
      | inr h ↦
          let ne : (n == k) ≡ false = other k md e h in
          let old : IsRegistered w k md = (rw ne at e, rw h at f) in
          (old, λ q. absurd (false≢true (sym ne ∙ (==_iff n k).1 (v.owner n k nd md reg old q))))
    ]
      where
        other :
            (k : ℕ) (md : RpcServerNode)
            → insert n (record nd { visible_to = [] }) w.nodes k ≡ some md
            → (nd.node_id == md.node_id) ≡ false
            → (n == k) ≡ false
        other k md e h = elim (Bool-cases (n == k)) [
          | inr g ↦ g
          | inl g ↦ absurd (
              false≢true (
                sym h
                ∙ (==_iff nd.node_id md.node_id).1
                    (ap (λ (y : RpcServerNode). y.node_id) (some-injective _ md (rw g at e)))))
        ]

    symmetric-left : Mutual (left m).nodes m
    symmetric-left y x = elim (Bool-cases (n == y)) [
      | inl h ↦ rw h (sym (sees x y ∙ rw h (gone y x h)))
      | inr h ↦ rw h (v.symmetric y x ∙ sym (sees x y ∙ rw h))
    ]
      where
        gone :
            (y x : ℕ)
            → (n == y) ≡ true
            → (if contains x nd.visible_to then false else peer_sees (w.peers x) y) ≡ false
        gone y x h = elim (Bool-cases (contains x nd.visible_to)) [
          | inl c ↦ rw c
          | inr c ↦ rw (c, ← (==_iff n y).0 h) (sym (v.symmetric n x) ∙ rw reg.0 c)
        ]

    left-Inv : Inv (left m)
    left-Inv = record {
      settled = λ k x md r c.
          let (old, ne) = stays k md r in
          effects-append md.queue x w.action_queue (destroy_node nd.queue) _
          ∙ rw (beq-ne nd.queue md.queue ne) (v.settled k x md old (sym (conn x) ∙ c));
      in_order = λ q x c.
          all_allowed-append q x w.action_queue (destroy_node nd.queue) _
          ∙ rw (v.in_order q x (sym (conn x) ∙ c));
      owner = λ j k jd kd r t. v.owner j k jd kd (stays j jd r).0 (stays k kd t).0;
      own_queue = λ k md r. v.own_queue k md (stays k md r).0;
      live_queues = v.live_queues;
      named =
          All-append _ w.action_queue _ v.named
            (let (q, e, f) = v.own_queue n nd reg in rw e tt, tt);
      queue_sets = v.queue_sets;
      queue_ids = v.queue_ids;
      below_gen = v.below_gen;
      symmetric = symmetric-left;
    }

  -- `unregister` of a registered node succeeds and keeps the invariant; the id is unknown and no
  -- peer sees the node afterwards.
  pub unregister-Inv :
      (w' : World) × (unregister n w ≡ some w')
      × Inv w'
      × (w'.id_to_node nd.node_id ≡ none)
      × ((p : ℕ) → peer_sees (w'.peers p) n ≡ false)
  unfolding unregister
  unregister-Inv =
      let (m, e, sees, conn) = forget_node_lem n nd.visible_to w.peers seen_peers in
      let inv = left-Inv m sees conn in
      (
        left m,
        rw (reg.0, e),
        inv,
        rw (==-refl nd.node_id),
        λ p. sym (inv.symmetric n p) ∙ rw (==-refl n),
      )
