-- ===== src/Rpc/Client.antt =====
-- src/engine/hg-engine-common/src/rpc/client.rs: the client's side of the replication. Kinds, their
-- names, node handles and bodies are numbers; `none` is a panic. The kinds' own packets are decoded
-- by parameters.
pub mod Receiving
pub mod Deleting
mod Tests
use heat_gun.Base.{
  ℕ, ◌+◌, ◌-◌, Bool, true, false, not, List, [], ◌∷◌, ◌++◌, Option, none, some, Map, insert,
  nat_key, empty_map, ◌==◌, if◌then◌else◌, ◌>>=◌, is_some, ◌⊎◌, inl, inr,
}
use heat_gun.Rpc.Server.{Packet, create_node, delete_node, send_message}

-- `KindState`, with the number of queries that hold its `Arc`.
pub record KindState : Type 0 where
  pub catchups : List (ℕ × ℕ)
  pub messages : List (ℕ × ℕ)
  pub deletions : List ℕ
  pub queries : ℕ

pub record RpcClientNode : Type 0 where
  pub node_id : ℕ
  pub kind_id : ℕ
  pub userdata_ty : ℕ
  pub userdata : ℕ

-- The errors that `recv_packet` reports.
pub data ClientError : Type 0 where
  bad_packet : ClientError
  unknown_kind : ℕ → ClientError
  duplicate_creation : ℕ → ClientError
  bad_catchup : ClientError
  no_deletion_target : ℕ → ClientError
  no_message_target : ℕ → ClientError
  bad_message : ClientError

-- `RpcClient`, with the nodes that the handles reach.
pub record RpcClient : Type 0 where
  pub node_id_map : Map ℕ ℕ
  pub kinds_by_name : Map ℕ ℕ
  pub kinds_by_ty : Map ℕ KindState
  pub send_queue : List (ℕ × List ℕ)
  pub protocol_errors : List ClientError
  pub frozen : Bool
  pub nodes : Map ℕ RpcClientNode

unfoldable pub new : RpcClient
new = record {
  node_id_map = empty_map;
  kinds_by_name = empty_map;
  kinds_by_ty = empty_map;
  send_queue = [];
  protocol_errors = [];
  frozen = true;
  nodes = empty_map;
}

-- `define::<K>`, for a kind with its name and its type.
unfoldable pub define : ℕ → ℕ → RpcClient → Option RpcClient
define name ty c =
    if is_some (c.kinds_by_name name)
    then none
    else some (record c {
      kinds_by_name = insert name ty c.kinds_by_name;
      kinds_by_ty =
          insert ty (record { catchups = []; messages = []; deletions = []; queries = 0 })
            c.kinds_by_ty;
    })

abbrev pub report_error : ClientError → RpcClient → RpcClient
report_error e c = record c { protocol_errors = c.protocol_errors ++ e ∷ [] }

abbrev put_kind : ℕ → KindState → RpcClient → RpcClient
put_kind ty k c = record c { kinds_by_ty = insert ty k c.kinds_by_ty }

-- `kinds_by_ty.get_mut(ty).unwrap()` and `Arc::get_mut(..).unwrap()`.
unfoldable pub kind_mut : ℕ → RpcClient → Option KindState
kind_mut ty c = do k ← c.kinds_by_ty ty; if k.queries == 0 then some k else none

abbrev push_catchup : ℕ → ℕ → KindState → KindState
push_catchup rpc packet k = record k { catchups = k.catchups ++ (rpc, packet) ∷ [] }

abbrev push_message : ℕ → ℕ → KindState → KindState
push_message rpc packet k = record k { messages = k.messages ++ (rpc, packet) ∷ [] }

abbrev push_deletion : ℕ → KindState → KindState
push_deletion rpc k = record k { deletions = k.deletions ++ rpc ∷ [] }

-- `lookup_any_node`.
unfoldable pub lookup_any_node : ℕ → RpcClient → Option ℕ
lookup_any_node id c = c.node_id_map id

-- The new node of a creation, under the handle that the entity store gives out.
abbrev add_node : ℕ → ℕ → ℕ → RpcClient → RpcClient
add_node rpc id ty c = record c {
  node_id_map = insert id rpc c.node_id_map;
  nodes = insert rpc (record { node_id = id; kind_id = ty; userdata_ty = 0; userdata = 0 }) c.nodes;
}

module _ (decode_catchup decode_message : ℕ → List ℕ → Option ℕ) where
  -- The end of a creation: the node is in the map when its body fails to parse.
  unfoldable pub finish_catchup : ℕ → ℕ → List ℕ → KindState → RpcClient → RpcClient
  finish_catchup rpc ty body k c = elim (decode_catchup ty body) [
    | none ↦ report_error bad_catchup c
    | some packet ↦ put_kind ty (push_catchup rpc packet k) c
  ]

  unfoldable pub recv_create : ℕ → ℕ → ℕ → List ℕ → RpcClient → Option RpcClient
  unfolding kind_mut finish_catchup
  recv_create rpc id kind_name body c = elim (c.kinds_by_name kind_name) [
    | none ↦ some (report_error (unknown_kind kind_name) c)
    | some ty ↦ kind_mut ty c >>= λ k.
        if is_some (c.node_id_map id)
        then some (report_error (duplicate_creation id) c)
        else some (finish_catchup rpc ty body k (add_node rpc id ty c))
  ]

  unfoldable pub recv_delete : ℕ → RpcClient → Option RpcClient
  unfolding kind_mut lookup_any_node
  recv_delete id c = elim (lookup_any_node id c) [
    | none ↦ some (report_error (no_deletion_target id) c)
    | some rpc ↦ c.nodes rpc >>= λ n.
        kind_mut n.kind_id c >>= λ k. some (put_kind n.kind_id (push_deletion rpc k) c)
  ]

  finish_message : ℕ → ℕ → List ℕ → KindState → RpcClient → RpcClient
  finish_message rpc ty body k c = elim (decode_message ty body) [
    | none ↦ report_error bad_message c
    | some packet ↦ put_kind ty (push_message rpc packet k) c
  ]

  unfoldable pub recv_message : ℕ → List ℕ → RpcClient → Option RpcClient
  unfolding kind_mut lookup_any_node finish_message
  recv_message id body c = elim (lookup_any_node id c) [
    | none ↦ some (report_error (no_message_target id) c)
    | some rpc ↦ c.nodes rpc >>= λ n.
        kind_mut n.kind_id c >>= λ k. some (finish_message rpc n.kind_id body k c)
  ]

  -- `recv_packet`, with the handle of the entity that a creation makes. A packet whose parts do not
  -- parse is `none`.
  unfoldable pub recv_packet : ℕ → Option Packet → RpcClient → Option RpcClient
  unfolding recv_create recv_delete recv_message
  recv_packet rpc none c = some (report_error bad_packet c)
  recv_packet rpc (some (create_node id kind_name body)) c = recv_create rpc id kind_name body c
  recv_packet rpc (some (delete_node id)) c = recv_delete id c
  recv_packet rpc (some (send_message id body)) c = recv_message id body c

-- `RpcClientNode::send::<K>`; the assertion on the kind is its panic.
unfoldable pub send : ℕ → ℕ → List ℕ → RpcClient → Option RpcClient
send ty rpc packet c = do
  n ← c.nodes rpc
  if n.kind_id == ty
      then some (record c { send_queue = c.send_queue ++ (n.node_id, packet) ∷ [] })
      else none

-- `flush_sends`.
unfoldable pub flush_sends : RpcClient → List (ℕ × List ℕ) × RpcClient
flush_sends c = (c.send_queue, record c { send_queue = [] })

-- `freeze`; its assertion is a panic.
unfoldable pub freeze : RpcClient → Option RpcClient
freeze c = if c.frozen then none else some (record c { frozen = true })

-- `bind_userdata`.
unfoldable pub bind_userdata : ℕ → ℕ → ℕ → RpcClient → Option RpcClient
bind_userdata rpc ty value c = do
  n ← c.nodes rpc
  some (record c { nodes = insert rpc (record n { userdata_ty = ty; userdata = value }) c.nodes })

-- The errors of a lookup by type: `NoSuchNode`, and `BadKind` with both types.
pub data LookupError : Type 0 where
  no_such_node : ℕ → LookupError
  bad_kind : ℕ → ℕ → ℕ → LookupError

-- `opt_userdata::<T>`.
unfoldable pub opt_userdata : ℕ → RpcClientNode → LookupError ⊎ ℕ
opt_userdata ty n =
    if n.userdata_ty == ty then inr n.userdata else inl (bad_kind n.node_id ty n.userdata_ty)

-- `lookup_node::<T>`; a handle without its component is a panic.
unfoldable pub lookup_node : ℕ → ℕ → RpcClient → Option (LookupError ⊎ ℕ)
unfolding lookup_any_node opt_userdata
lookup_node ty id c = elim (lookup_any_node id c) [
  | none ↦ some (inl (no_such_node id))
  | some rpc ↦ c.nodes rpc >>= λ n. some (opt_userdata ty n)
]
