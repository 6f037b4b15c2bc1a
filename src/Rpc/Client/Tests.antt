-- ===== src/Rpc/Client/Tests.antt =====
-- A client that has one kind and knows one node.
use heat_gun.Base.{
  ℕ, ◌≡◌, refl, ap, true, ◌||◌, List, [], ◌∷◌, Option, none, some, nat_key, is_some, subst,
  Bool-cases, inl, inr, ◌==◌,
}
use mathlib.Core.Option.{some-injective}
use mathlib.Core.Bool.{false≢true}
use heat_gun.Rpc.Server.{create_node, delete_node}
use heat_gun.Rpc.Client.{
  RpcClient, KindState, report_error, duplicate_creation, recv_packet, new, define,
}
use heat_gun.Rpc.Client.Deleting.{delete_then_create}
use heat_gun.Rpc.Client.Receiving.{Inv, creates, recv_packet-Inv}

abbrev value : Option RpcClient → RpcClient
value none = new
value (some c) = c

-- A body of one number is a packet.
abbrev read_one : ℕ → List ℕ → Option ℕ
read_one ty [] = none
read_one ty (x ∷ xs) = some x

abbrev defined : RpcClient
defined = value (define 20 21 new)

defined-Inv : Inv defined
unfolding define new
defined-Inv = record {
  known = λ id rpc e. absurd (false≢true (ap is_some e));
  named = λ s ty e. named_21 s ty e;
  free = λ ty k e. elim (Bool-cases (21 == ty)) [
    | inl h ↦ subst (λ (x : KindState). x.queries ≡ 0) (some-injective _ k (rw h at e)) refl
    | inr h ↦ absurd (false≢true (ap is_some (rw h at e)))
  ];
}
  where
    named_21 :
        (s ty : ℕ) → defined.kinds_by_name s ≡ some ty → is_some (defined.kinds_by_ty ty) ≡ true
    named_21 s ty e = elim (Bool-cases (20 == s)) [
      | inl h ↦ rw (← some-injective 21 ty (rw h at e)) refl
      | inr h ↦ absurd (false≢true (ap is_some (rw h at e)))
    ]

abbrev knowing : RpcClient
knowing = value (recv_packet read_one read_one 5 (some (create_node 1 20 (9 ∷ []))) defined)

fresh_5 : defined.nodes 5 ≡ none
unfolding define new
fresh_5 = refl

knowing-Inv : Inv knowing
knowing-Inv =
    let (c, e, i, _) =
      recv_packet-Inv read_one read_one defined 5 (some (create_node 1 20 (9 ∷ []))) defined-Inv
        fresh_5 in
    kept (recv_packet read_one read_one 5 (some (create_node 1 20 (9 ∷ []))) defined) c e i
  where
    kept : (o : Option RpcClient) (c : RpcClient) → o ≡ some c → Inv c → Inv (value o)
    kept o c e i = rw e i

recv_packet-Inv_example :
    (c' : RpcClient) × (recv_packet read_one read_one 5 (some (create_node 1 20 (9 ∷ []))) defined
      ≡ some c')
    × Inv c'
    × ((id : ℕ)
        → is_some (c'.node_id_map id) ≡ (
            is_some (defined.node_id_map id)
            || creates (some (create_node 1 20 (9 ∷ []))) id defined))
recv_packet-Inv_example =
    recv_packet-Inv read_one read_one defined 5 (some (create_node 1 20 (9 ∷ []))) defined-Inv
      fresh_5

knows_1 : knowing.node_id_map 1 ≡ some 5
unfolding define new recv_packet
knows_1 = refl

kind_20 : knowing.kinds_by_name 20 ≡ some 21
unfolding define new recv_packet
kind_20 = refl

delete_then_create_example :
    (c' : RpcClient) × (recv_packet read_one read_one 6 (some (delete_node 1)) knowing ≡ some c')
    × (c'.protocol_errors ≡ knowing.protocol_errors)
    × (recv_packet read_one read_one 7 (some (create_node 1 20 (8 ∷ []))) c'
        ≡ some (report_error (duplicate_creation 1) c'))
delete_then_create_example =
    delete_then_create read_one read_one knowing 1 5 20 21 6 7 (8 ∷ []) knowing-Inv knows_1 kind_20
