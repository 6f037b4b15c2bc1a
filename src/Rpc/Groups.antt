-- ===== src/Rpc/Groups.antt =====
-- src/engine/hg-engine-common/src/rpc/groups.rs: groups of nodes that are shown to a set of peers.
-- The catch-up of a node is a parameter, as in the server. `none` is a panic.
pub mod Joining
mod Tests
use heat_gun.Base.{
  ℕ, Bool, true, false, not, List, [], ◌∷◌, Option, none, some, contains, set_insert, set_remove,
  Map, insert, nat_key, ◌==◌, if◌then◌else◌, ◌>>=◌,
}
use heat_gun.Rpc.Server.{World, is_connected, replicate, de_replicate}

pub record RpcGroupFollower : Type 0 where
  pub rpc : ℕ
  pub excluded : Option ℕ

-- `RpcGroupInner`, with the followers that its handles reach.
pub record RpcGroup : Type 0 where
  pub nodes : List ℕ
  pub peers : List ℕ
  pub followers : Map ℕ RpcGroupFollower

abbrev pub is_excluded : Option ℕ → ℕ → Bool
is_excluded none peer = false
is_excluded (some p) peer = p == peer

module _ (catchup : ℕ → World → List ℕ) where
  show_one : RpcGroupFollower → ℕ → World → Option World
  show_one f peer w =
      if is_excluded f.excluded peer then some w else replicate (catchup f.rpc w) f.rpc peer w

  -- The loop of `add_peer`.
  unfoldable pub show_nodes : Map ℕ RpcGroupFollower → List ℕ → ℕ → World → Option World
  unfolding show_one
  show_nodes followers [] peer w = some w
  show_nodes followers (node ∷ nodes) peer w = do
    f ← followers node
    w' ← show_one f peer w
    show_nodes followers nodes peer w'

  -- `RpcGroup::add_peer`.
  unfoldable pub add_peer : ℕ → RpcGroup → World → Option (RpcGroup × World)
  unfolding show_nodes
  add_peer peer g w = if not (is_connected w peer) then some (g, w) else (do
    w' ← show_nodes g.followers g.nodes peer w
    some (record g { peers = set_insert peer g.peers }, w'))

  -- `retain` in `add_node`: peers that are gone are dropped, the others see the node.
  unfoldable pub show_to : RpcGroupFollower → List ℕ → World → Option (List ℕ × World)
  unfolding show_one
  show_to f [] w = some ([], w)
  show_to f (peer ∷ peers) w =
      if not (is_connected w peer)
      then show_to f peers w
      else (do w' ← show_one f peer w; (kept, w'') ← show_to f peers w'; some (peer ∷ kept, w''))

  -- `RpcGroup::add_node`, with the handle of the new follower.
  unfoldable pub add_node : ℕ → ℕ → Option ℕ → RpcGroup → World → Option (RpcGroup × World)
  unfolding show_to
  add_node follower target excluded g w =
      let f : RpcGroupFollower = record { rpc = target; excluded = excluded } in
      show_to f g.peers w >>= λ (kept, w'). some (
        record {
          nodes = set_insert follower g.nodes;
          peers = kept;
          followers = insert follower f g.followers;
        },
        w',
      )

-- The loop of `remove_peer`.
unfoldable pub hide_nodes : Map ℕ RpcGroupFollower → List ℕ → ℕ → World → Option World
hide_nodes followers [] peer w = some w
hide_nodes followers (node ∷ nodes) peer w = do
  f ← followers node
  w' ← if is_excluded f.excluded peer then some w else de_replicate f.rpc peer w
  hide_nodes followers nodes peer w'

-- `RpcGroup::remove_peer`.
unfoldable pub remove_peer : ℕ → RpcGroup → World → Option (RpcGroup × World)
unfolding hide_nodes
remove_peer peer g w =
    if not (contains peer g.peers)
    then some (g, w)
    else (if not (is_connected w peer)
        then some (record g { peers = set_remove peer g.peers }, w)
        else (do
          w' ← hide_nodes g.followers g.nodes peer w
          some (record g { peers = set_remove peer g.peers }, w')))

-- `retain` in `unregister`.
unfoldable pub hide_from : ℕ → List ℕ → World → Option (List ℕ × World)
hide_from node [] w = some ([], w)
hide_from node (peer ∷ peers) w = if not (is_connected w peer) then hide_from node peers w else (do
  w' ← de_replicate node peer w
  (kept, w'') ← hide_from node peers w'
  some (peer ∷ kept, w''))

-- `RpcGroupFollower::unregister`.
unfoldable pub unregister : ℕ → RpcGroup → World → Option (RpcGroup × World)
unfolding hide_from
unregister follower g w = do
  f ← g.followers follower
  (kept, w') ← hide_from f.rpc g.peers w
  some (record g { nodes = set_remove follower g.nodes; peers = kept }, w')
