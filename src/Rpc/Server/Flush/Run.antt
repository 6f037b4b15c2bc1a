-- ===== src/Rpc/Server/Flush/Run.antt =====
-- The queued actions, performed one after the other.
use heat_gun.Base.{
  ℕ, ◌≡◌, ◌>>=◌, refl, sym, ap, ◌∙◌, Bool, true, false, ◌&&◌, List, [], ◌∷◌, ◌++◌, Option, none,
  some, set_insert, &&-false, Map, All, All-imp, Bool-cases, Option-cases, inl, inr, ◌==◌,
}
use mathlib.Core.Option.{some-injective}
use heat_gun.Rpc.Server.{
  RpcServerPeer, QueuedAction, replicate_to, destroy_remotely, broadcasted, destroy_node,
  RpcNodeServerQueue, World, is_connected, peer_connected, Packet, create_node, delete_node,
  send_message, Sent, perform, perform_all, put_queue, send_all,
}
use heat_gun.Rpc.Server.Bits.{queue_sees, effects, allowed}
use heat_gun.Rpc.Server.Invariant.{Names, action_queue_of}
use heat_gun.Rpc.Server.Replay.{replay, replay-append}
use heat_gun.Rpc.Server.Flush.Steps.{
  SameQueue, QueueSets, QueueIds, Frame, Frame-refl, Done, replicate_to-Done, destroy_remotely-Done,
  broadcasted-Done, destroy_node-Done, skip-Done,
}

abbrev pub Ran : World → List QueuedAction → Option (World × Sent) → Type 0
Ran w actions o = (w' : World) × (sent : Sent) × (o ≡ some (w', sent)) × Done w actions w' sent

module _ (w : World) (sets : QueueSets w) (unique : QueueIds w) where
  module _ (q : ℕ) (qu : RpcNodeServerQueue) (at : w.queues q ≡ some qu) where
    run_create :
        (p : ℕ) (packet : Packet)
        → Names (some qu) (replicate_to q p packet)
        → Done w
            (replicate_to q p packet ∷ [])
            (put_queue q qu (set_insert p qu.visible_to) w)
            ((p, packet) ∷ [])
    run_create p (create_node id kind body) names =
        rw names (replicate_to-Done w sets unique q qu at p kind body)
    run_create p (delete_node id) names = absurd names
    run_create p (send_message id body) names = absurd names

    run_message :
        (packet : Packet)
        → Names (some qu) (broadcasted q packet)
        → Done w (broadcasted q packet ∷ []) w (send_all qu.visible_to packet)
    run_message (create_node id kind body) names = absurd names
    run_message (delete_node id) names = absurd names
    run_message (send_message id body) names =
        rw names (broadcasted-Done w sets unique q qu at body)

  run_replicate :
      (q p : ℕ) (packet : Packet)
      → Names (w.queues q) (replicate_to q p packet)
      → Ran w (replicate_to q p packet ∷ []) (perform (replicate_to q p packet) w)
  unfolding perform
  run_replicate q p packet names = elim (Bool-cases (is_connected w p)) [
    | inl c ↦ elim (Option-cases (w.queues q)) [
      | inl e ↦ absurd (rw e at names)
      | inr (qu, e) ↦ (_, _, rw (c, e) refl, run_create q qu e p packet (rw e at names))
    ]
    | inr gone ↦ (
      w,
      [],
      rw gone refl,
      skip-Done w p (replicate_to q p packet) sets (λ r x b h. rw (h, &&-false (q == r)) refl) gone,
    )
  ]

  run_destroy :
      (q p : ℕ)
      → Names (w.queues q) (destroy_remotely q p)
      → Ran w (destroy_remotely q p ∷ []) (perform (destroy_remotely q p) w)
  unfolding perform
  run_destroy q p names = elim (Bool-cases (is_connected w p)) [
    | inl c ↦ elim (Option-cases (w.queues q)) [
      | inl e ↦ absurd (rw e at names)
      | inr (qu, e) ↦ (_, _, rw (c, e) refl, destroy_remotely-Done w sets unique q qu e p)
    ]
    | inr gone ↦ (
      w,
      [],
      rw gone refl,
      skip-Done w p (destroy_remotely q p) sets (λ r x b h. rw (h, &&-false (q == r)) refl) gone,
    )
  ]

  run_broadcast :
      (q : ℕ) (packet : Packet)
      → Names (w.queues q) (broadcasted q packet)
      → Ran w (broadcasted q packet ∷ []) (perform (broadcasted q packet) w)
  unfolding perform
  run_broadcast q packet names = elim (Option-cases (w.queues q)) [
    | inl e ↦ absurd (rw e at names)
    | inr (qu, e) ↦ (_, _, rw e refl, run_message q qu e packet (rw e at names))
  ]

  run_destroy_node :
      (q : ℕ)
      → Names (w.queues q) (destroy_node q)
      → Ran w (destroy_node q ∷ []) (perform (destroy_node q) w)
  unfolding perform
  run_destroy_node q names = elim (Option-cases (w.queues q)) [
    | inl e ↦ absurd (rw e at names)
    | inr (qu, e) ↦ (_, _, rw e refl, destroy_node-Done w sets unique q qu e)
  ]

  run_action :
      (a : QueuedAction) → Names (w.queues (action_queue_of a)) a → Ran w (a ∷ []) (perform a w)
  run_action (replicate_to q p packet) names = run_replicate q p packet names
  run_action (destroy_remotely q p) names = run_destroy q p names
  run_action (broadcasted q packet) names = run_broadcast q packet names
  run_action (destroy_node q) names = run_destroy_node q names

pub Names-same :
    (o r : Option RpcNodeServerQueue) (a : QueuedAction) → SameQueue o r → Names r a → Names o a
Names-same none none a same names = names
Names-same none (some r) a same names = absurd same
Names-same (some o) none a same names = absurd same
Names-same (some o) (some r) (replicate_to q p (create_node id kind body)) same names =
    names ∙ sym same
Names-same (some o) (some r) (replicate_to q p (delete_node id)) same names = absurd names
Names-same (some o) (some r) (replicate_to q p (send_message id body)) same names = absurd names
Names-same (some o) (some r) (destroy_remotely q p) same names = tt
Names-same (some o) (some r) (broadcasted q (create_node id kind body)) same names = absurd names
Names-same (some o) (some r) (broadcasted q (delete_node id)) same names = absurd names
Names-same (some o) (some r) (broadcasted q (send_message id body)) same names = names ∙ sym same
Names-same (some o) (some r) (destroy_node q) same names = tt

pub SameQueue-trans :
    (o p q : Option RpcNodeServerQueue) → SameQueue o p → SameQueue p q → SameQueue o q
SameQueue-trans none none none s t = tt
SameQueue-trans none none (some q) s t = absurd t
SameQueue-trans none (some p) q s t = absurd s
SameQueue-trans (some o) none q s t = absurd s
SameQueue-trans (some o) (some p) none s t = absurd t
SameQueue-trans (some o) (some p) (some q) s t = s ∙ t

pub SameQueue-sym : (o r : Option RpcNodeServerQueue) → SameQueue o r → SameQueue r o
SameQueue-sym none none s = tt
SameQueue-sym none (some r) s = absurd s
SameQueue-sym (some o) none s = absurd s
SameQueue-sym (some o) (some r) s = sym s

pub SameQueue-get :
    (o r : Option RpcNodeServerQueue) (qu : RpcNodeServerQueue)
    → SameQueue o r
    → o ≡ some qu
    → (ru : RpcNodeServerQueue) × (r ≡ some ru) × (qu.node_id ≡ ru.node_id)
SameQueue-get (some o) (some r) qu same e =
    (r, refl, ap (λ (x : RpcNodeServerQueue). x.node_id) (sym (some-injective o qu e)) ∙ same)
SameQueue-get (some o) none qu same e = absurd same
SameQueue-get none r qu same e = absurd (cc)

-- The queues that stand for the same nodes have ids as distinct.
pub QueueIds-same :
    (w w' : World) → ((q : ℕ) → SameQueue (w'.queues q) (w.queues q)) → QueueIds w → QueueIds w'
QueueIds-same w w' ids unique q r qu ru e f same =
    let (qu', e', i) = SameQueue-get (w'.queues q) (w.queues q) qu (ids q) e in
    let (ru', f', j) = SameQueue-get (w'.queues r) (w.queues r) ru (ids r) f in
    unique q r qu' ru' e' f' (sym i ∙ same ∙ j)

pub Frame-trans : (u v w : World) → Frame u v → Frame v w → Frame u w
Frame-trans u v w f g = record {
  nodes = g.nodes ∙ f.nodes;
  peers = g.peers ∙ f.peers;
  id_to_node = g.id_to_node ∙ f.id_to_node;
  id_gen = g.id_gen ∙ f.id_gen;
  action_queue = g.action_queue ∙ f.action_queue;
  ids = λ q. SameQueue-trans (w.queues q) (v.queues q) (u.queues q) (g.ids q) (f.ids q);
  live = λ h. g.live (f.live h);
}

both : (a b : Bool) → (a && b) ≡ true → ((a && true) ≡ true) × (b ≡ true)
both true b h = (refl, h)
both false b h = absurd (cc)

Done-trans :
    (u v w : World) (a : QueuedAction) (actions : List QueuedAction) (sent rest : Sent)
    → Done u (a ∷ []) v sent
    → Done v actions w rest
    → Done u (a ∷ actions) w (sent ++ rest)
Done-trans u v w a actions sent rest f g = record {
  frame = Frame-trans u v w f.frame g.frame;
  sees = λ q p c. g.sees q p (connected p c) ∙ ap (effects q p actions) (f.sees q p c);
  told = λ q p qu e c ok.
      let (ok_a, ok_actions) = both (allowed q p a (queue_sees (u.queues q) p)) _ ok in
      let (qu', e', i) =
        SameQueue-get (u.queues q) (v.queues q) qu
          (SameQueue-sym (v.queues q) (u.queues q) (f.frame.ids q)) e in
      replay-append qu.node_id p sent rest (queue_sees (u.queues q) p)
      ∙ ap (λ o. o >>= replay qu.node_id p rest) (f.told q p qu e c ok_a)
      ∙ rw (i, ← f.sees q p c) (g.told q p qu' e' (connected p c) (rw (f.sees q p c) ok_actions));
  sets = g.sets;
}
  where
    connected : (p : ℕ) → is_connected u p ≡ true → is_connected v p ≡ true
    connected p c = ap (λ (m : Map ℕ RpcServerPeer). peer_connected (m p)) f.frame.peers ∙ c

-- The loop of `flush` runs to its end.
pub run_actions :
    (actions : List QueuedAction) (w : World)
    → QueueSets w
    → QueueIds w
    → All (λ a. Names (w.queues (action_queue_of a)) a) actions
    → Ran w actions (perform_all actions w)
unfolding perform_all
run_actions [] w sets unique named = (
  w,
  [],
  refl,
  record { frame = Frame-refl w; sees = λ q p c. refl; told = λ q p qu e c ok. refl; sets = sets },
)
run_actions (a ∷ actions) w sets unique named =
    let (v, sent, e, f) = run_action w sets unique a named.0 in
    let (u, rest, e', g) = run_actions actions v f.sets (QueueIds-same w v f.frame.ids unique) (
      All-imp (λ a. Names (w.queues (action_queue_of a)) a)
        (λ a. Names (v.queues (action_queue_of a)) a) actions
        (λ a.
          Names-same (v.queues (action_queue_of a)) (w.queues (action_queue_of a)) a
            (f.frame.ids (action_queue_of a)))
        named.1) in
    (u, sent ++ rest, rw (e, e') refl, Done-trans w v u a actions sent rest f g)
