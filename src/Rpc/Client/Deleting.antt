-- ===== src/Rpc/Client/Deleting.antt =====
-- After the deletion of a node, its id is still taken.
use heat_gun.Base.{ℕ, ◌≡◌, refl, List, Option, some, nat_key}
use heat_gun.Rpc.Server.{create_node, delete_node}
use heat_gun.Rpc.Client.{
  KindState, RpcClientNode, RpcClient, report_error, duplicate_creation, push_deletion, kind_mut,
  lookup_any_node, recv_create, recv_delete, recv_packet, put_kind,
}
use heat_gun.Rpc.Client.Receiving.{Inv, kind_mut_lem, put_kind-Inv, insert_some}

module _ (dc dm : ℕ → List ℕ → Option ℕ) (c : RpcClient) (id : ℕ) where
  deletion :
      (rpc r : ℕ) (n : RpcClientNode) (k : KindState)
      → c.node_id_map id ≡ some rpc
      → c.nodes rpc ≡ some n
      → kind_mut n.kind_id c ≡ some k
      → recv_packet dc dm r (some (delete_node id)) c
        ≡ some (put_kind n.kind_id (push_deletion rpc k) c)
  unfolding recv_packet recv_delete lookup_any_node
  deletion rpc r n k e at m = rw (recv_packet, recv_delete, e, at, m) refl

  refused :
      (kind_name ty r rpc : ℕ) (body : List ℕ) (k : KindState)
      → c.kinds_by_name kind_name ≡ some ty
      → kind_mut ty c ≡ some k
      → c.node_id_map id ≡ some rpc
      → recv_packet dc dm r (some (create_node id kind_name body)) c
        ≡ some (report_error (duplicate_creation id) c)
  unfolding recv_packet recv_create
  refused kind_name ty r rpc body k named m e = rw (recv_packet, recv_create, named, m, e) refl

-- In a sound client that knows an id, the deletion of that node is received without an error being
-- reported for it, and the creation of a node under the same id, of a kind that is defined, is
-- refused afterwards as a duplicate.
pub delete_then_create :
    (decode_catchup decode_message : ℕ → List ℕ → Option ℕ) (c : RpcClient)
    (id rpc kind_name ty r r' : ℕ) (body : List ℕ)
    → Inv c
    → c.node_id_map id ≡ some rpc
    → c.kinds_by_name kind_name ≡ some ty
    → (c' : RpcClient) × (recv_packet decode_catchup decode_message r (some (delete_node id)) c
        ≡ some c')
      × (c'.protocol_errors ≡ c.protocol_errors)
      × (recv_packet decode_catchup decode_message r' (some (create_node id kind_name body)) c'
          ≡ some (report_error (duplicate_creation id) c'))
delete_then_create dc dm c id rpc kind_name ty r r' body inv e named =
    let (n, at, i, s) = inv.known id rpc e in
    let (k, m, q) = kind_mut_lem c n.kind_id inv s in
    let c' = put_kind n.kind_id (push_deletion rpc k) c in
    let (k', m', q') = kind_mut_lem c' ty (put_kind-Inv c n.kind_id (push_deletion rpc k) inv q) (
      insert_some n.kind_id ty (push_deletion rpc k) c.kinds_by_ty
        (inv.named kind_name ty named)) in
    (
      c',
      deletion dc dm c id rpc r n k e at m,
      refl,
      refused dc dm c' id kind_name ty r' rpc body k' named m' e,
    )
