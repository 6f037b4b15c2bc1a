-- ===== src/Rpc/Server/Replay.antt =====
-- The packets that the server sends, replayed for one node id at one peer: a creation shows the node
-- and must find it not shown, a deletion hides it and a message leaves it, and both must find it shown;
-- `none` is a packet out of turn. This is the discipline of the server's stream, not the client of
-- rpc/client.rs, which keeps the id of a node it deleted and refuses a creation that follows.
use heat_gun.Base.{
  ℕ, ◌≡◌, ◌>>=◌, refl, Bool, true, false, List, [], ◌∷◌, ◌++◌, Option, none, some, arith, contains,
  ◌==◌, ==_iff, if◌then◌else◌, IsNodup, Bool-cases, inl, inr,
}
use heat_gun.Rpc.Server.{Packet, create_node, delete_node, send_message, Sent, send_all}

abbrev pub replay_one : ℕ → Packet → Bool → Option Bool
replay_one id (create_node j kind body) b =
    if j == id then (if b then none else some true) else some b
replay_one id (delete_node j) b = if j == id then (if b then some false else none) else some b
replay_one id (send_message j body) b = if j == id then (if b then some true else none) else some b

-- The packets of one peer, in the order in which they are sent.
abbrev pub replay : ℕ → ℕ → Sent → Bool → Option Bool
replay id p [] b = some b
replay id p ((x, packet) ∷ sent) b =
    (if x == p then replay_one id packet b else some b) >>= replay id p sent

pub replay-append :
    (id p : ℕ) (s t : Sent) (b : Bool)
    → replay id p (s ++ t) b ≡ (replay id p s b >>= replay id p t)
replay-append id p [] t b = refl
replay-append id p ((x, packet) ∷ s) t b =
    both (if x == p then replay_one id packet b else some b) (replay-append id p s t)
  where
    both :
        (o : Option Bool)
        → ((c : Bool) → replay id p (s ++ t) c ≡ (replay id p s c >>= replay id p t))
        → (o >>= replay id p (s ++ t)) ≡ ((o >>= replay id p s) >>= replay id p t)
    both none ih = refl
    both (some c) ih = ih c

replay-unsent :
    (id p : ℕ) (ps : List ℕ) (packet : Packet) (b : Bool)
    → contains p ps ≡ false
    → replay id p (send_all ps packet) b ≡ some b
replay-unsent id p [] packet b h = refl
replay-unsent id p (x ∷ ps) packet b h = ground (arith, replay-unsent id p ps packet b)

-- A packet that goes to a set of peers is replayed once at each of them.
pub replay-send_all :
    (id p : ℕ) (ps : List ℕ) (packet : Packet) (b : Bool)
    → IsNodup ps
    → replay id p (send_all ps packet) b
      ≡ (if contains p ps then replay_one id packet b else some b)
replay-send_all id p [] packet b s = refl
replay-send_all id p (x ∷ ps) packet b s = elim (Bool-cases (x == p)) [
  | inl h ↦ rw h (once (replay_one id packet b) (rw (← (==_iff x p).0 h) s.0))
  | inr h ↦ rw h (replay-send_all id p ps packet b s.1)
]
  where
    once : (o : Option Bool) → contains p ps ≡ false → (o >>= replay id p (send_all ps packet)) ≡ o
    once none c = refl
    once (some d) c = replay-unsent id p ps packet d c
