-- ===== src/Rpc/Server/Flush/Dead.antt =====
-- The first loop of `flush`, which forgets the peers that are gone.
use heat_gun.Base.{
  ℕ, ◌≡◌, refl, ◌∙◌, true, List, [], ◌∷◌, some, retain, contains-retain, retain-IsNodup, All,
  All-imp, is_some, Bool-cases, Option-cases, inl, inr, ◌==◌,
}
use mathlib.Core.Bool.{false≢true}
use heat_gun.Rpc.Server.{RpcNodeServerQueue, World, is_connected, drop_dead, put_queue}
use heat_gun.Rpc.Server.Flush.Steps.{
  QueueSets, QueueIds, Frame-refl, Done, put-Frame, put-sets, put-sees, sees_self, SameQueue-some,
}
use heat_gun.Rpc.Server.Flush.Run.{Frame-trans, QueueIds-same}

forget-Done :
    (w : World) (sets : QueueSets w) (unique : QueueIds w) (q : ℕ) (qu : RpcNodeServerQueue)
    (at : w.queues q ≡ some qu)
    → Done w [] (put_queue q qu (retain (is_connected w) qu.visible_to) w) []
forget-Done w sets unique q qu at = record {
  frame = put-Frame w sets unique q qu at _;
  sees = λ r p c.
      put-sees w sets unique q qu at (retain (is_connected w) qu.visible_to) r p
      ∙ elim (Bool-cases (q == r)) [
        | inl h ↦
            rw
              (
                h,
                contains-retain (is_connected w) p qu.visible_to,
                c,
                ← sees_self w sets unique q qu at r p h,
              )
              refl
        | inr h ↦ rw h refl
      ];
  told = λ r p ru e c ok. refl;
  sets =
      put-sets w sets unique q qu at _
        (retain-IsNodup (is_connected w) qu.visible_to (sets q qu at));
}

-- The loop runs to its end, and no connected peer notices it.
pub drop_dead_lem :
    (qs : List ℕ) (w : World)
    → QueueSets w
    → QueueIds w
    → All (λ q. is_some (w.queues q) ≡ true) qs
    → (w' : World) × (drop_dead qs w ≡ some w') × Done w [] w' []
unfolding drop_dead
drop_dead_lem [] w sets unique live = (
  w,
  refl,
  record { frame = Frame-refl w; sees = λ q p c. refl; told = λ q p qu e c ok. refl; sets = sets },
)
drop_dead_lem (q ∷ qs) w sets unique live = elim (Option-cases (w.queues q)) [
  | inl e ↦ absurd (false≢true (rw e at live.0))
  | inr (qu, e) ↦
      let f = forget-Done w sets unique q qu e in
      let v : World = put_queue q qu (retain (is_connected w) qu.visible_to) w in
      let (u, r, g) = drop_dead_lem qs v f.sets (QueueIds-same w v f.frame.ids unique) (
        All-imp (λ x. is_some (w.queues x) ≡ true) (λ x. is_some (v.queues x) ≡ true) qs
          (λ x. SameQueue-some (v.queues x) (w.queues x) (f.frame.ids x)) live.1) in
      (
        u,
        rw e r,
        record {
          frame = Frame-trans w v u f.frame g.frame;
          sees = λ r p c. g.sees r p c ∙ f.sees r p c;
          told = λ r p ru e c ok. refl;
          sets = g.sets;
        },
      )
]
