-- ===== src/Rpc/Server/Flush/Steps.antt =====
-- One queued action, performed.
use heat_gun.Base.{
  ℕ, ◌≡◌, refl, sym, ap, ◌∙◌, subst, Bool, true, false, not, ◌&&◌, List, [], ◌∷◌, Option, none,
  some, arith, contains, set_insert, set_remove, contains-set_insert, contains-set_remove,
  set_insert-IsNodup, set_remove-IsNodup, nat_key, ◌==◌, ==_iff, ==-refl, if◌then◌else◌, All,
  All-imp, is_some, Bool-cases, inl, inr, IsNodup,
}
use mathlib.Core.Option.{some-injective}
use mathlib.Core.Bool.{false≢true}
use heat_gun.Rpc.Server.{
  QueuedAction, replicate_to, destroy_remotely, broadcasted, destroy_node, RpcNodeServerQueue,
  World, is_connected, create_node, delete_node, send_message, Sent, send_all, put_queue,
}
use heat_gun.Rpc.Server.Bits.{queue_sees, effect, effects, all_allowed}
use heat_gun.Rpc.Server.Replay.{replay, replay-send_all}

-- The queue keeps its node.
abbrev pub SameQueue : Option RpcNodeServerQueue → Option RpcNodeServerQueue → Type 0
SameQueue none none = Unit {0}
SameQueue none (some q) = ⊥
SameQueue (some q) none = ⊥
SameQueue (some q) (some r) = q.node_id ≡ r.node_id

abbrev pub QueueSets : World → Type 0
QueueSets w = (q : ℕ) (qu : RpcNodeServerQueue) → w.queues q ≡ some qu → IsNodup qu.visible_to

abbrev pub QueueIds : World → Type 0
QueueIds w =
    (q r : ℕ) (qu ru : RpcNodeServerQueue)
    → w.queues q ≡ some qu
    → w.queues r ≡ some ru
    → qu.node_id ≡ ru.node_id
    → q ≡ r

-- The peers and nodes are untouched.
pub record Frame (w w' : World) : Type 0 where
  pub nodes : w'.nodes ≡ w.nodes
  pub peers : w'.peers ≡ w.peers
  pub id_to_node : w'.id_to_node ≡ w.id_to_node
  pub id_gen : w'.id_gen ≡ w.id_gen
  pub action_queue : w'.action_queue ≡ w.action_queue
  pub ids : (q : ℕ) → SameQueue (w'.queues q) (w.queues q)
  pub live :
      All (λ q. is_some (w.queues q) ≡ true) w.node_queues
      → All (λ q. is_some (w'.queues q) ≡ true) w'.node_queues

-- The actions were performed: each queue has followed them, and so has the replay of what each peer was sent.
pub record Done (w : World) (actions : List QueuedAction) (w' : World) (sent : Sent) : Type 0 where
  pub frame : Frame w w'
  pub sees :
      (q p : ℕ)
      → is_connected w p ≡ true
      → queue_sees (w'.queues q) p ≡ effects q p actions (queue_sees (w.queues q) p)
  pub told :
      (q p : ℕ) (qu : RpcNodeServerQueue)
      → w.queues q ≡ some qu
      → is_connected w p ≡ true
      → all_allowed q p actions (queue_sees (w.queues q) p) ≡ true
      → replay qu.node_id p sent (queue_sees (w.queues q) p)
        ≡ some (effects q p actions (queue_sees (w.queues q) p))
  pub sets : QueueSets w'

pub SameQueue-refl : (o : Option RpcNodeServerQueue) → SameQueue o o
SameQueue-refl none = tt
SameQueue-refl (some q) = refl

SameQueue-put :
    (q x : ℕ) (qu : RpcNodeServerQueue) (visible : List ℕ) (w : World)
    → w.queues q ≡ some qu
    → SameQueue ((put_queue q qu visible w).queues x) (w.queues x)
SameQueue-put q x qu visible w e = elim (Bool-cases (q == x)) [
  | inl h ↦ rw (h, ← (==_iff q x).0 h, e)
  | inr h ↦ rw h (SameQueue-refl (w.queues x))
]

pub SameQueue-some :
    (o r : Option RpcNodeServerQueue) → SameQueue o r → is_some r ≡ true → is_some o ≡ true
SameQueue-some (some o) (some r) s e = refl
SameQueue-some none (some r) s e = absurd s
SameQueue-some (some o) none s e = refl
SameQueue-some none none s e = e

All-set_remove :
    (p : ℕ → Bool) (q : ℕ) (qs : List ℕ)
    → All (λ x. p x ≡ true) qs
    → All (λ x. p x ≡ true) (set_remove q qs)
unfolding set_remove
All-set_remove p q [] h = tt
All-set_remove p q (x ∷ qs) h = elim (Bool-cases (x == q)) [
  | inl e ↦ rw e (All-set_remove p q qs h.1)
  | inr e ↦ rw e (h.0, All-set_remove p q qs h.1)
]

replay_create :
    (id rid p' p kind : ℕ) (body : List ℕ) (b same : Bool)
    → (id == rid) ≡ same
    → ((if same && p' == p then not b else true) && true) ≡ true
    → replay rid p ((p', create_node id kind body) ∷ []) b
      ≡ some (if same && p' == p then true else b)
replay_create id rid p' p kind body b same e ok = ground arith

replay_delete :
    (id rid p' p : ℕ) (b same : Bool)
    → (id == rid) ≡ same
    → ((if same && p' == p then b else true) && true) ≡ true
    → replay rid p ((p', delete_node id) ∷ []) b ≡ some (if same && p' == p then false else b)
replay_delete id rid p' p b same e ok = ground arith

pub Frame-refl : (w : World) → Frame w w
Frame-refl w = record {
  nodes = refl;
  peers = refl;
  id_to_node = refl;
  id_gen = refl;
  action_queue = refl;
  ids = λ q. SameQueue-refl (w.queues q);
  live = λ h. h;
}

apart :
    (w : World) (p' p : ℕ) → is_connected w p' ≡ false → is_connected w p ≡ true → (p' == p) ≡ false
apart w p' p gone c = elim (Bool-cases (p' == p)) [
  | inl h ↦ absurd (false≢true (sym gone ∙ rw ((==_iff p' p).0 h) c))
  | inr h ↦ h
]

module _ (w : World) (sets : QueueSets w) (unique : QueueIds w) (q : ℕ) (qu : RpcNodeServerQueue)
    (at : w.queues q ≡ some qu) where
  pub put-Frame : (visible : List ℕ) → Frame w (put_queue q qu visible w)
  put-Frame visible = record {
    nodes = refl;
    peers = refl;
    id_to_node = refl;
    id_gen = refl;
    action_queue = refl;
    ids = λ x. SameQueue-put q x qu visible w at;
    live = λ h.
        All-imp (λ x. is_some (w.queues x) ≡ true)
          (λ x. is_some ((put_queue q qu visible w).queues x) ≡ true) w.node_queues
          (λ x. SameQueue-some _ (w.queues x) (SameQueue-put q x qu visible w at)) h;
  }

  pub put-sets : (visible : List ℕ) → IsNodup visible → QueueSets (put_queue q qu visible w)
  put-sets visible s r ru e = elim (Bool-cases (q == r)) [
    | inl h ↦
        subst (λ (y : RpcNodeServerQueue). IsNodup y.visible_to) (some-injective _ ru (rw h at e)) s
    | inr h ↦ sets r ru (rw h at e)
  ]

  pub put-sees :
      (visible : List ℕ) (r p : ℕ)
      → queue_sees ((put_queue q qu visible w).queues r) p
        ≡ (if q == r then contains p visible else queue_sees (w.queues r) p)
  put-sees visible r p = elim (Bool-cases (q == r)) [ inl h ↦ rw h | inr h ↦ rw h ]

  -- A packet about this queue's node concerns no other queue.
  other_id :
      (r : ℕ) (ru : RpcNodeServerQueue)
      → w.queues r ≡ some ru
      → (qu.node_id == ru.node_id) ≡ (q == r)
  other_id r ru e = elim (Bool-cases (q == r)) [
    | inl h ↦
        let same : qu ≡ ru = some-injective qu ru (sym at ∙ rw (← (==_iff q r).0 h) at e) in
        rw (h, same, ==-refl ru.node_id)
    | inr h ↦ elim (Bool-cases (qu.node_id == ru.node_id)) [
      | inl g ↦ absurd (
          false≢true
            (sym h ∙ (==_iff q r).1 (unique q r qu ru at e ((==_iff qu.node_id ru.node_id).0 g))))
      | inr g ↦ rw (h, g)
    ]
  ]

  pub sees_self : (r p : ℕ) → (q == r) ≡ true → queue_sees (w.queues r) p ≡ contains p qu.visible_to
  sees_self r p h = rw (← (==_iff q r).0 h, at)

  pub replicate_to-Done :
      (p' kind : ℕ) (body : List ℕ)
      → Done w
          (replicate_to q p' (create_node qu.node_id kind body) ∷ [])
          (put_queue q qu (set_insert p' qu.visible_to) w)
          ((p', create_node qu.node_id kind body) ∷ [])
  replicate_to-Done p' kind body = record {
    frame = put-Frame (set_insert p' qu.visible_to);
    sees = λ r p c.
        put-sees (set_insert p' qu.visible_to) r p
        ∙ ground (arith, contains-set_insert p' p qu.visible_to, sees_self r p);
    told = λ r p ru e c ok.
        replay_create qu.node_id ru.node_id p' p kind body (queue_sees (w.queues r) p) (q == r)
          (other_id r ru e) ok;
    sets =
        put-sets (set_insert p' qu.visible_to) (set_insert-IsNodup p' qu.visible_to (sets q qu at));
  }

  pub destroy_remotely-Done :
      (p' : ℕ)
      → Done w
          (destroy_remotely q p' ∷ [])
          (put_queue q qu (set_remove p' qu.visible_to) w)
          ((p', delete_node qu.node_id) ∷ [])
  destroy_remotely-Done p' = record {
    frame = put-Frame (set_remove p' qu.visible_to);
    sees = λ r p c.
        put-sees (set_remove p' qu.visible_to) r p
        ∙ ground (arith, contains-set_remove p' p qu.visible_to, sees_self r p);
    told = λ r p ru e c ok.
        replay_delete qu.node_id ru.node_id p' p (queue_sees (w.queues r) p) (q == r)
          (other_id r ru e) ok;
    sets =
        put-sets (set_remove p' qu.visible_to) (set_remove-IsNodup p' qu.visible_to (sets q qu at));
  }

  pub broadcasted-Done :
      (body : List ℕ)
      → Done w
          (broadcasted q (send_message qu.node_id body) ∷ [])
          w
          (send_all qu.visible_to (send_message qu.node_id body))
  broadcasted-Done body = record {
    frame = Frame-refl w;
    sees = λ r p c. refl;
    told = λ r p ru e c ok.
        replay-send_all ru.node_id p qu.visible_to _ _ (sets q qu at)
        ∙ rw (other_id r ru e) (ground (arith, sees_self r p));
    sets = sets;
  }

  pub destroy_node-Done :
      Done w
        (destroy_node q ∷ [])
        (record (put_queue q qu [] w) { node_queues = set_remove q w.node_queues })
        (send_all qu.visible_to (delete_node qu.node_id))
  destroy_node-Done = record {
    frame = record {
      nodes = refl;
      peers = refl;
      id_to_node = refl;
      id_gen = refl;
      action_queue = refl;
      ids = (put-Frame []).ids;
      live = λ h.
          All-set_remove (λ x. is_some ((put_queue q qu [] w).queues x)) q w.node_queues
            ((put-Frame []).live h);
    };
    sees = λ r p c. put-sees [] r p;
    told = λ r p ru e c ok.
        replay-send_all ru.node_id p qu.visible_to _ _ (sets q qu at)
        ∙ rw (other_id r ru e) (ground (arith, sees_self r p));
    sets = put-sets [] tt;
  }

-- An action for a peer that is gone is skipped, which no connected peer notices.
abbrev pub At : ℕ → QueuedAction → Type 0
At p' a = (q p : ℕ) (b : Bool) → (p' == p) ≡ false → effect q p a b ≡ b

pub skip-Done :
    (w : World) (p' : ℕ) (a : QueuedAction)
    → QueueSets w
    → At p' a
    → is_connected w p' ≡ false
    → Done w (a ∷ []) w []
skip-Done w p' a sets away gone = record {
  frame = Frame-refl w;
  sees = λ q p c. sym (away q p (queue_sees (w.queues q) p) (apart w p' p gone c));
  told =
      λ q p qu e c ok. ap some (sym (away q p (queue_sees (w.queues q) p) (apart w p' p gone c)));
  sets = sets;
}
