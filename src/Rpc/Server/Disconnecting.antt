-- ===== src/Rpc/Server/Disconnecting.antt =====
-- `disconnect` keeps the invariant: the peer leaves every node, at once and on both sides.
use heat_gun.Base.{
  ℕ, ◌≡◌, refl, sym, ap, ◌∙◌, true, false, ◌&&◌, [], Option, none, some, arith, contains, Map,
  insert, nat_key, ◌==◌, ==_iff, ==-refl, if◌then◌else◌, is_some, Bool-cases, inl, inr,
}
use mathlib.Core.Bool.{false≢true}
use heat_gun.Rpc.Server.{RpcServerNode, RpcServerPeer, World, is_connected, disconnect}
use heat_gun.Rpc.Server.Peers.{Mutual, SameNode, forget_peer_lem}
use heat_gun.Rpc.Server.Bits.{queue_sees, node_sees, effects}
use heat_gun.Rpc.Server.Invariant.{Inv, IsRegistered}

abbrev gone_peer : RpcServerPeer
gone_peer = record { vis_set = []; connected = false }

same_node :
    (a b : Option RpcServerNode) (md : RpcServerNode)
    → SameNode a b
    → a ≡ some md
    → (od : RpcServerNode) × (b ≡ some od) × (md.node_id ≡ od.node_id) × (md.queue ≡ od.queue)
same_node none b md s e = absurd (cc)
same_node (some a) none md s e = absurd s
same_node (some a) (some b) md s e = (b, refl, ground arith, ground arith)

module _ (w : World) (v : Inv w) (p : ℕ) (pd : RpcServerPeer) (at : w.peers p ≡ some pd) where
  seen_nodes : (n : ℕ) → contains n pd.vis_set ≡ true → is_some (w.nodes n) ≡ true
  seen_nodes n c = some_if_sees (w.nodes n) (v.symmetric n p ∙ rw at c)
    where
      some_if_sees : (o : Option RpcServerNode) → node_sees o p ≡ true → is_some o ≡ true
      some_if_sees none e = e
      some_if_sees (some n) e = refl

  abbrev parted : Map ℕ RpcServerNode → World
  parted m = record w { nodes = m; peers = insert p gone_peer w.peers }

  module _ (m : Map ℕ RpcServerNode)
      (sees : (y x : ℕ)
        → node_sees (m y) x
          ≡ (if p == x && contains y pd.vis_set then false else node_sees (w.nodes y) x))
      (keep : (y : ℕ) → SameNode (m y) (w.nodes y)) where
    others :
        (x : ℕ) → is_connected (parted m) x ≡ true → ((p == x) ≡ false) × (is_connected w x ≡ true)
    others x c = elim (Bool-cases (p == x)) [
      | inl h ↦ absurd (false≢true (rw h at c))
      | inr h ↦ (h, rw h at c)
    ]

    was-IsRegistered :
        (k : ℕ) (md : RpcServerNode)
        → IsRegistered (parted m) k md
        → (od : RpcServerNode) × IsRegistered w k od
          × (md.node_id ≡ od.node_id)
          × (md.queue ≡ od.queue)
    was-IsRegistered k md (e, f) =
        let (od, g, i, q) = same_node (m k) (w.nodes k) md (keep k) e in (od, (g, rw i at f), i, q)

    symmetric-parted : Mutual m (insert p gone_peer w.peers)
    symmetric-parted y x = elim (Bool-cases (p == x)) [
      | inl h ↦ sees y x ∙ rw h (last y x h)
      | inr h ↦ sees y x ∙ rw h (v.symmetric y x)
    ]
      where
        last :
            (y x : ℕ)
            → (p == x) ≡ true
            → (if contains y pd.vis_set then false else node_sees (w.nodes y) x) ≡ false
        last y x h = elim (Bool-cases (contains y pd.vis_set)) [
          | inl c ↦ rw c
          | inr c ↦ rw (c, ← (==_iff p x).0 h) (v.symmetric y p ∙ rw at c)
        ]

    settled-parted :
        (k x : ℕ) (md : RpcServerNode)
        → IsRegistered (parted m) k md
        → is_connected (parted m) x ≡ true
        → effects md.queue x w.action_queue (queue_sees (w.queues md.queue) x)
          ≡ contains x md.visible_to
    settled-parted k x md r c =
        let (ne, d) = others x c in
        let (od, old, i, q) = was-IsRegistered k md r in
        rw q (v.settled k x od old d)
        ∙ ap (λ o. node_sees o x) (sym old.0)
        ∙ sym (sees k x ∙ rw ne)
        ∙ ap (λ o. node_sees o x) r.0

    parted-Inv : Inv (parted m)
    parted-Inv = record {
      settled = settled-parted;
      in_order = λ q x c. v.in_order q x (others x c).1;
      owner = λ j k jd kd r t e.
          let (od, old, i, q) = was-IsRegistered j jd r in
          let (od', old', i', q') = was-IsRegistered k kd t in
          v.owner j k od od' old old' (sym q ∙ e ∙ q');
      own_queue = λ k md r.
          let (od, old, i, q) = was-IsRegistered k md r in
          let (qu, e, f) = v.own_queue k od old in (qu, rw q e, f ∙ sym i);
      live_queues = v.live_queues;
      named = v.named;
      queue_sets = v.queue_sets;
      queue_ids = v.queue_ids;
      below_gen = v.below_gen;
      symmetric = symmetric-parted;
    }

  -- `disconnect` of a peer that is there succeeds and keeps the invariant; the peer is not
  -- connected afterwards, and, if it was connected, no node sees it any more.
  pub disconnect-Inv :
      (w' : World) × (disconnect p w ≡ some w')
      × Inv w'
      × (is_connected w' p ≡ false)
      × (pd.connected ≡ true → (n : ℕ) → node_sees (w'.nodes n) p ≡ false)
  unfolding disconnect
  disconnect-Inv = elim (Bool-cases pd.connected) [
    | inl c ↦
        let (m, e, sees, keep) = forget_peer_lem p pd.vis_set w.nodes seen_nodes in
        let inv = parted-Inv m sees keep in
        (parted m, rw (at, c, e), inv, rw (==-refl p), λ d n. inv.symmetric n p ∙ rw (==-refl p))
    | inr c ↦ (w, rw (at, c), v, rw at c, λ d. absurd (false≢true (sym c ∙ d)))
  ]
