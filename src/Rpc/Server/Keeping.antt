-- ===== src/Rpc/Server/Keeping.antt =====
-- What `replicate` leaves as it is.
use heat_gun.Base.{
  ℕ, ◌≡◌, refl, sym, ◌∙◌, Bool, true, false, ◌&&◌, List, some, contains, set_insert, insert,
  nat_key, ◌==◌, ==_iff, if◌then◌else◌, Bool-cases, Option-cases, inl, inr,
}
use mathlib.Core.Option.{some-injective}
use mathlib.Core.Bool.{false≢true}
use heat_gun.Rpc.Server.{
  RpcServerNode, RpcServerPeer, World, is_connected, replicate, add_replica, peer_insert,
  push_action, replicate_to, create_node,
}
use heat_gun.Rpc.Server.Bits.{node_sees}
use heat_gun.Rpc.Server.Peers.{insert_node-sees, connected-insert}
use heat_gun.Rpc.Server.Invariant.{IsRegistered}

-- Nodes stay registered, peers keep what they see, and stay connected or not.
pub record Kept (w w' : World) : Type 0 where
  pub registered :
      (m : ℕ) (md : RpcServerNode)
      → IsRegistered w m md
      → (md' : RpcServerNode) × IsRegistered w' m md'
  pub sees : (m q : ℕ) → node_sees (w.nodes m) q ≡ true → node_sees (w'.nodes m) q ≡ true
  pub connected : (q : ℕ) → is_connected w' q ≡ is_connected w q

pub Kept-refl : (w : World) → Kept w w
Kept-refl w = record {
  registered = λ m md reg. (md, reg);
  sees = λ m q s. s;
  connected = λ q. refl;
}

pub Kept-trans : (u v w : World) → Kept u v → Kept v w → Kept u w
Kept-trans u v w f g = record {
  registered = λ m md reg. let (md', reg') = f.registered m md reg in g.registered m md' reg';
  sees = λ m q s. g.sees m q (f.sees m q s);
  connected = λ q. g.connected q ∙ f.connected q;
}

still_true : (a b : Bool) → b ≡ true → (if a then true else b) ≡ true
still_true true b e = refl
still_true false b e = e

abbrev shown_to : List ℕ → ℕ → ℕ → RpcServerNode → RpcServerPeer → World → World
shown_to catchup n p nd pd w =
    push_action (replicate_to nd.queue p (create_node nd.node_id nd.kind_ty catchup)) (record w {
      nodes = insert n (record nd { visible_to = set_insert p nd.visible_to }) w.nodes;
      peers = insert p (peer_insert n pd) w.peers;
    })

pub replicate-Kept :
    (catchup : List ℕ) (n p : ℕ) (nd : RpcServerNode) (w : World)
    → IsRegistered w n nd
    → (w' : World) × (replicate catchup n p w ≡ some w') × Kept w w'
unfolding replicate add_replica
replicate-Kept catchup n p nd w reg = elim (Bool-cases (is_connected w p)) [
  | inl c ↦ elim (Bool-cases (contains p nd.visible_to)) [
    | inl old ↦ (w, rw (c, reg.0, old) refl, Kept-refl w)
    | inr news ↦ elim (Option-cases (w.peers p)) [
      | inl e ↦ absurd (false≢true (rw e at c))
      | inr (pd, e) ↦ (
        shown_to catchup n p nd pd w,
        rw (c, reg.0, news, e) refl,
        record {
          registered = λ m md r. elim (Bool-cases (n == m)) [
            | inl h ↦
                let same : nd ≡ md =
                  some-injective nd md (sym reg.0 ∙ rw (← (==_iff n m).0 h) at r.0) in
                (record nd { visible_to = set_insert p nd.visible_to }, (rw h refl, rw same r.1))
            | inr h ↦ (md, (rw h r.0, r.1))
          ];
          sees = λ m q s.
              insert_node-sees n p q m nd w.nodes reg.0
              ∙ still_true (n == m && p == q) (node_sees (w.nodes m) q) s;
          connected = λ q. connected-insert p q pd (peer_insert n pd) w.peers e refl;
        },
      )
    ]
  ]
  | inr c ↦ (w, rw c refl, Kept-refl w)
]
