-- ===== src/Rpc/Client/Receiving.antt =====
-- What a packet does to the client's view of the nodes.
use heat_gun.Base.{
  ℕ, ◌≡◌, refl, sym, ap, ◌∙◌, Bool, true, false, ◌&&◌, ◌||◌, List, Option, none, some, arith, Map,
  insert, nat_key, ◌==◌, ==_iff, ==-refl, is_some, Bool-cases, Option-cases, inl, inr, subst,
}
use mathlib.Core.Option.{some-injective}
use mathlib.Core.Bool.{false≢true}
use heat_gun.Rpc.Server.{Packet, create_node, delete_node, send_message}
use heat_gun.Rpc.Client.{
  KindState, RpcClientNode, RpcClient, ClientError, report_error, duplicate_creation, unknown_kind,
  bad_packet, bad_catchup, bad_message, no_deletion_target, no_message_target, push_catchup,
  push_message, push_deletion, kind_mut, lookup_any_node, recv_create, recv_delete, recv_message,
  recv_packet, finish_catchup, finish_message, put_kind, add_node,
}

-- Known nodes exist and have a kind, and no query holds a kind.
pub record Inv (c : RpcClient) : Type 0 where
  pub known :
      (id rpc : ℕ)
      → c.node_id_map id ≡ some rpc
      → (n : RpcClientNode) × (c.nodes rpc ≡ some n)
        × (n.node_id ≡ id)
        × (is_some (c.kinds_by_ty n.kind_id) ≡ true)
  pub named : (s ty : ℕ) → c.kinds_by_name s ≡ some ty → is_some (c.kinds_by_ty ty) ≡ true
  pub free : (ty : ℕ) (k : KindState) → c.kinds_by_ty ty ≡ some k → k.queries ≡ 0

pub insert_some {ℓ} :
    {V : Type ℓ} (k j : ℕ) (v : V) (m : Map ℕ V)
    → is_some (m j) ≡ true
    → is_some (insert k v m j) ≡ true
insert_some k j v m h = elim (Bool-cases (k == j)) [ inl e ↦ rw e refl | inr e ↦ rw e h ]

pub kind_mut_lem :
    (c : RpcClient) (ty : ℕ)
    → Inv c
    → is_some (c.kinds_by_ty ty) ≡ true
    → (k : KindState) × (kind_mut ty c ≡ some k) × (k.queries ≡ 0)
unfolding kind_mut
kind_mut_lem c ty inv s = elim (Option-cases (c.kinds_by_ty ty)) [
  | inl e ↦ absurd (false≢true (rw e at s))
  | inr (k, e) ↦ (k, rw (e, inv.free ty k e) refl, inv.free ty k e)
]

report-Inv : (c : RpcClient) (e : ClientError) → Inv c → Inv (report_error e c)
report-Inv c e inv = record { known = inv.known; named = inv.named; free = inv.free }

pub put_kind-Inv :
    (c : RpcClient) (ty : ℕ) (k : KindState) → Inv c → k.queries ≡ 0 → Inv (put_kind ty k c)
put_kind-Inv c ty k inv q = record {
  known = λ id rpc e.
      let (n, at, i, s) = inv.known id rpc e in
      (n, at, i, insert_some ty n.kind_id k c.kinds_by_ty s);
  named = λ s t e. insert_some ty t k c.kinds_by_ty (inv.named s t e);
  free = λ t l e. elim (Bool-cases (ty == t)) [
    | inl h ↦ subst (λ (x : KindState). x.queries ≡ 0) (some-injective k l (rw h at e)) q
    | inr h ↦ inv.free t l (rw h at e)
  ];
}

add_node-Inv :
    (c : RpcClient) (rpc id ty : ℕ)
    → Inv c
    → c.nodes rpc ≡ none
    → is_some (c.kinds_by_ty ty) ≡ true
    → Inv (add_node rpc id ty c)
add_node-Inv c rpc id ty inv fresh s = record {
  known = λ j r e. elim (Bool-cases (id == j)) [
    | inl h ↦
        let same : rpc ≡ r = some-injective rpc r (rw h at e) in
        (
          record { node_id = id; kind_id = ty; userdata_ty = 0; userdata = 0 },
          rw (← same, ==-refl rpc) refl,
          (==_iff id j).0 h,
          s,
        )
    | inr h ↦ let (n, at, i, t) = inv.known j r (rw h at e) in (n, elsewhere r n at, i, t)
  ];
  named = inv.named;
  free = inv.free;
}
  where
    elsewhere :
        (r : ℕ) (n : RpcClientNode)
        → c.nodes r ≡ some n
        → insert rpc
            (record { node_id = id; kind_id = ty; userdata_ty = 0; userdata = 0 })
            c.nodes
            r
          ≡ some n
    elsewhere r n at = elim (Bool-cases (rpc == r)) [
      | inl h ↦ absurd (false≢true (ap is_some (sym fresh ∙ rw (← (==_iff rpc r).0 h) at at)))
      | inr h ↦ rw h at
    ]

-- The ids that a packet makes known: that of a creation with a kind that is defined.
abbrev pub creates : Option Packet → ℕ → RpcClient → Bool
creates none id c = false
creates (some (create_node j kind_name body)) id c = j == id && is_some (c.kinds_by_name kind_name)
creates (some (delete_node j)) id c = false
creates (some (send_message j body)) id c = false

-- The client after a packet: sound, and aware of what it knew and of what is new.
abbrev Received : (ℕ → Bool) → RpcClient → Option RpcClient → Type 0
Received new c o =
    (c' : RpcClient) × (o ≡ some c')
    × Inv c'
    × ((id : ℕ) → is_some (c'.node_id_map id) ≡ (is_some (c.node_id_map id) || new id))

||-false : (b : Bool) → b ≡ (b || false)
||-false true = refl
||-false false = refl

module _ (decode_catchup decode_message : ℕ → List ℕ → Option ℕ) (c : RpcClient) (inv : Inv c)
    (rpc : ℕ) (fresh : c.nodes rpc ≡ none) where
  catchup-Inv :
      (id ty : ℕ) (body : List ℕ) (k : KindState)
      → is_some (c.kinds_by_ty ty) ≡ true
      → k.queries ≡ 0
      → (c' : RpcClient) × (finish_catchup decode_catchup decode_message rpc ty body k
            (add_node rpc id ty c)
          ≡ c')
        × Inv c'
        × (c'.node_id_map ≡ insert id rpc c.node_id_map)
  unfolding finish_catchup
  catchup-Inv id ty body k s q =
      let added = add_node-Inv c rpc id ty inv fresh s in
      elim (Option-cases (decode_catchup ty body)) [
        | inl e ↦ (
          report_error bad_catchup (add_node rpc id ty c),
          rw (finish_catchup, e) refl,
          report-Inv (add_node rpc id ty c) bad_catchup added,
          refl,
        )
        | inr (packet, e) ↦ (
          put_kind ty (push_catchup rpc packet k) (add_node rpc id ty c),
          rw (finish_catchup, e) refl,
          put_kind-Inv (add_node rpc id ty c) ty (push_catchup rpc packet k) added q,
          refl,
        )
      ]

  now_known :
      (id j : ℕ)
      → is_some (c.node_id_map id) ≡ false
      → is_some (insert id rpc c.node_id_map j) ≡ (is_some (c.node_id_map j) || (id == j && true))
  now_known id j e = elim (Bool-cases (id == j)) [
    | inl h ↦ rw (h, ← (==_iff id j).0 h, e) refl
    | inr h ↦ rw h (||-false (is_some (c.node_id_map j)))
  ]

  already :
      (id j : ℕ)
      → is_some (c.node_id_map id) ≡ true
      → is_some (c.node_id_map j) ≡ (is_some (c.node_id_map j) || (id == j && true))
  already id j e = elim (Bool-cases (id == j)) [
    | inl h ↦ rw (h, ← (==_iff id j).0 h, e) refl
    | inr h ↦ rw h (||-false (is_some (c.node_id_map j)))
  ]

  recv_create-Received :
      (id kind_name : ℕ) (body : List ℕ)
      → Received
          (λ j. id == j && is_some (c.kinds_by_name kind_name))
          c
          (recv_create decode_catchup decode_message rpc id kind_name body c)
  unfolding recv_create
  recv_create-Received id kind_name body = elim (Option-cases (c.kinds_by_name kind_name)) [
    | inl e ↦ (
      report_error (unknown_kind kind_name) c,
      rw (recv_create, e) refl,
      report-Inv c (unknown_kind kind_name) inv,
      λ j. rw e (and_false (id == j) (is_some (c.node_id_map j))),
    )
    | inr (ty, e) ↦
        let s = inv.named kind_name ty e in
        let (k, m, q) = kind_mut_lem c ty inv s in
        elim (Bool-cases (is_some (c.node_id_map id))) [
          | inl old ↦ (
            report_error (duplicate_creation id) c,
            rw (recv_create, e, m, old) refl,
            report-Inv c (duplicate_creation id) inv,
            λ j. rw e (already id j old),
          )
          | inr news ↦
              let (c', f, i, map) = catchup-Inv id ty body k s q in
              (c', rw (recv_create, e, m, news, f) refl, i, λ j. rw (e, map) (now_known id j news))
        ]
  ]
    where
      and_false : (a b : Bool) → b ≡ (b || (a && false))
      and_false a b = ground arith

  recv_delete-Received :
      (id : ℕ) → Received (λ j. false) c (recv_delete decode_catchup decode_message id c)
  unfolding recv_delete lookup_any_node
  recv_delete-Received id = elim (Option-cases (c.node_id_map id)) [
    | inl e ↦ (
      report_error (no_deletion_target id) c,
      rw (recv_delete, e) refl,
      report-Inv c (no_deletion_target id) inv,
      λ j. ||-false (is_some (c.node_id_map j)),
    )
    | inr (r, e) ↦
        let (n, at, i, s) = inv.known id r e in
        let (k, m, q) = kind_mut_lem c n.kind_id inv s in
        (
          put_kind n.kind_id (push_deletion r k) c,
          rw (recv_delete, e, at, m) refl,
          put_kind-Inv c n.kind_id (push_deletion r k) inv q,
          λ j. ||-false (is_some (c.node_id_map j)),
        )
  ]

  recv_message-Received :
      (id : ℕ) (body : List ℕ)
      → Received (λ j. false) c (recv_message decode_catchup decode_message id body c)
  unfolding recv_message lookup_any_node finish_message
  recv_message-Received id body = elim (Option-cases (c.node_id_map id)) [
    | inl e ↦ (
      report_error (no_message_target id) c,
      rw (recv_message, e) refl,
      report-Inv c (no_message_target id) inv,
      λ j. ||-false (is_some (c.node_id_map j)),
    )
    | inr (r, e) ↦
        let (n, at, i, s) = inv.known id r e in
        let (k, m, q) = kind_mut_lem c n.kind_id inv s in
        elim (Option-cases (decode_message n.kind_id body)) [
          | inl d ↦ (
            report_error bad_message c,
            rw (recv_message, e, at, m, finish_message, d) refl,
            report-Inv c bad_message inv,
            λ j. ||-false (is_some (c.node_id_map j)),
          )
          | inr (packet, d) ↦ (
            put_kind n.kind_id (push_message r packet k) c,
            rw (recv_message, e, at, m, finish_message, d) refl,
            put_kind-Inv c n.kind_id (push_message r packet k) inv q,
            λ j. ||-false (is_some (c.node_id_map j)),
          )
        ]
  ]

-- While no query holds a kind, receiving any packet, with a new handle for the node that it may
-- make, does not panic and keeps the client sound; the ids known afterwards are those known before
-- and that of a creation whose kind is defined, so that a deletion makes none unknown.
pub recv_packet-Inv :
    (decode_catchup decode_message : ℕ → List ℕ → Option ℕ) (c : RpcClient) (rpc : ℕ)
    (packet : Option Packet)
    → Inv c
    → c.nodes rpc ≡ none
    → (c' : RpcClient) × (recv_packet decode_catchup decode_message rpc packet c ≡ some c')
      × Inv c'
      × ((id : ℕ)
          → is_some (c'.node_id_map id) ≡ (is_some (c.node_id_map id) || creates packet id c))
unfolding recv_packet
recv_packet-Inv dc dm c rpc none inv fresh = (
  report_error bad_packet c,
  refl,
  report-Inv c bad_packet inv,
  λ j. ||-false (is_some (c.node_id_map j)),
)
recv_packet-Inv dc dm c rpc (some (create_node id kind_name body)) inv fresh =
    recv_create-Received dc dm c inv rpc fresh id kind_name body
recv_packet-Inv dc dm c rpc (some (delete_node id)) inv fresh =
    recv_delete-Received dc dm c inv rpc fresh id
recv_packet-Inv dc dm c rpc (some (send_message id body)) inv fresh =
    recv_message-Received dc dm c inv rpc fresh id body
