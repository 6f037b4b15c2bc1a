-- ===== src/Lib.antt =====
-- heat-gun: a game engine in Rust, and the parts of it that carry state and protocols.
--
-- The parts, their files and the code (paths from the root, in engine/ below src/):
--   Iter/Merge: hg-utils/src/iter/merge.rs, the iterators `MergeIter` and `RemoveIter`. `merge_next`
--     and `remove_next` are their `next`; `merge_all` and `remove_all` run them to the end, on fuel
--     that is one more than the number of items that are left, and every step uses up an item.
--   Ecs/Archetype: hg-ecs/src/archetype.rs, the `ArchetypeStore`, which uses the iterators. The hash
--     function is a parameter, the hash table a list of entries, a component's id a number.
--   Ecs/Entity: hg-ecs/src/entity.rs, the word of an `EntityInfo` that holds its place among its
--     parent's children and whether it is condemned. Ecs/Entity/Tree: the tree of the entities; no
--     iteration over children is alive. `try_deep_get` has fuel, a round for each ancestor.
--     Ecs/Entity/Members: the end of `flush`, which moves the members of the archetypes; no iteration
--     holds the query state, on which `flush` panics.
--   Ecs/Signal: hg-ecs/src/signal.rs, the deferred signals.
--   Rpc/Server: hg-engine-common/src/rpc/server.rs, the replication of nodes to peers. The components
--     that the handles reach stand in maps of one `World`.
--   Rpc/Client: hg-engine-common/src/rpc/client.rs, the other end. `recv_packet` is split by the kind
--     of the packet; the decoding of the kinds' own packets is a parameter.
--   Rpc/Groups: hg-engine-common/src/rpc/groups.rs, groups of nodes, on the server's `replicate` and
--     `de_replicate`.
--   Mp/Server: hg-engine-common/src/mp/server.rs, the sessions, which drive the RPC server, its groups
--     and the signals by the events of the transport; and `recv_packet` of rpc/server.rs.
--   Collide/Group: hg-engine-common/src/collide/group.rs, the members of the groups of colliders, and
--     the panic of their changes while an iteration over the group is alive.
--   Net/MultiPart and Net/Frame: hg-engine-common/src/net/serialize.rs and codec.rs, the format of a
--     packet and of the stream. Net/Varint is the crate varuint, with its documented laws. The loop
--     over the parts has fuel for one round more than there are parts, and each round takes one.
--   Net/BackPressure: hg-engine-common/src/net/back_pressure.rs, the counters of what may be sent. The
--     future of `wait` is polled in three atomic steps, and a task dropped in two.
--   Tile/Map and Tile/Palette: hg-engine-common/src/tile/map.rs and palette.rs. `put` is `set`.
--   Draw/Depth and Draw/Runs: hg-ctx2d/src/base/depth.rs. Draw/Chunks and Draw/Buffers: hg-ctx2d/src/
--     base/buffer.rs, the bytes that wait for an upload, and the buffers with their local copies. A
--     write has fuel for a round for each byte, and each round takes one at least.
-- The server hands `Packet`s to a transport, which frames them, and the client receives them.
-- Rpc/Server/Replay says which order of packets the server's stream keeps. It is not what the client
-- accepts: the client keeps the id of a node that was deleted, and refuses to create it again
-- (Rpc/Client/Deleting).
-- Base holds the tests, lists, maps and sets that the parts share. A panic is `none`.
--
-- Not modelled: of the entity store `destroy_now` and the queue of `flush`; the session of the client,
-- the collider bus and its tree of bounding volumes; and drawing, windows, floating-point geometry,
-- the transports, the macros, and the assembly of the game, which call other libraries or hold no
-- state of their own.
pub mod Base
pub mod Collide
pub mod Draw
pub mod Ecs
pub mod Iter
pub mod Mp
pub mod Net
pub mod Rpc
pub mod Tile
