-- ===== src/Tile/Map/Position.antt =====
-- A position is its chunk and its place in the chunk.
use heat_gun.Base.{
  ℕ, ◌+◌, ◌-◌, ◌*◌, ◌/◌, ◌%◌, ◌<◌, ◌≡◌, refl, sym, ap, ◌∙◌, Bool, true, false, ◌&&◌, arith, ◌==◌,
  ==_iff,
}
use heat_gun.Tile.Map.{
  ℤ, pos, negsuc, IVec2, int_eq, vec_eq, div_euclid, rem_euclid, chunk_of, rel_of,
}

div_mod_eq : (m n : ℕ) → (m == n) ≡ (m / 16 == n / 16 && m % 16 == n % 16)
div_mod_eq m n = ground arith

flip_eq : (a b : ℕ) → a < 16 → b < 16 → (15 - a == 15 - b) ≡ (a == b)
flip_eq a b h k = ground arith

int_eq-split :
    (a b : ℤ) → int_eq a b ≡ (int_eq (div_euclid a) (div_euclid b) && rem_euclid a == rem_euclid b)
unfolding div_euclid rem_euclid
int_eq-split (pos m) (pos n) = div_mod_eq m n
int_eq-split (pos m) (negsuc n) = refl
int_eq-split (negsuc m) (pos n) = refl
int_eq-split (negsuc m) (negsuc n) =
    div_mod_eq m n
    ∙ ap (λ b. m / 16 == n / 16 && b) (sym (flip_eq (m % 16) (n % 16) (omega arith) (omega arith)))

rem_euclid-lt : (a : ℤ) → rem_euclid a < 16
unfolding rem_euclid
rem_euclid-lt (pos n) = omega arith
rem_euclid-lt (negsuc n) = omega arith

rel_eq : (a b c d : ℕ) → a < 16 → c < 16 → (b * 16 + a == d * 16 + c) ≡ (a == c && b == d)
rel_eq a b c d h k = ground arith

pub rel_of-lt : (p : IVec2) → rel_of p < 256
unfolding rel_of
rel_of-lt p = bound (rem_euclid p.x) (rem_euclid p.y) (rem_euclid-lt p.x) (rem_euclid-lt p.y)
  where
    bound : (a b : ℕ) → a < 16 → b < 16 → b * 16 + a < 256
    bound a b h k = omega arith

swap : (a b c d : Bool) → ((a && b) && (c && d)) ≡ ((a && c) && (b && d))
swap a b c d = ground arith

-- Two positions are the same exactly when their chunks and their places in the chunk are.
pub vec_eq-split :
    (p q : IVec2) → vec_eq p q ≡ (vec_eq (chunk_of p) (chunk_of q) && rel_of p == rel_of q)
unfolding chunk_of rel_of
vec_eq-split p q =
    rw
      (
        int_eq-split p.x q.x,
        int_eq-split p.y q.y,
        rel_eq (rem_euclid p.x) (rem_euclid p.y) (rem_euclid q.x) (rem_euclid q.y)
            (rem_euclid-lt p.x) (rem_euclid-lt q.x),
      )
      (swap (int_eq (div_euclid p.x) (div_euclid q.x)) (rem_euclid p.x == rem_euclid q.x)
        (int_eq (div_euclid p.y) (div_euclid q.y)) (rem_euclid p.y == rem_euclid q.y))

int_eq-eq : (a b : ℤ) → int_eq a b ≡ true → a ≡ b
int_eq-eq (pos m) (pos n) h = ap pos ((==_iff m n).0 h)
int_eq-eq (pos m) (negsuc n) h = absurd (cc)
int_eq-eq (negsuc m) (pos n) h = absurd (cc)
int_eq-eq (negsuc m) (negsuc n) h = ap negsuc ((==_iff m n).0 h)

int_eq_refl : (a : ℤ) → int_eq a a ≡ true
int_eq_refl (pos n) = (==_iff n n).1 refl
int_eq_refl (negsuc n) = (==_iff n n).1 refl

pub vec_eq-eq : (p q : IVec2) → vec_eq p q ≡ true → p ≡ q
vec_eq-eq p q h =
    let (a, b) = both (int_eq p.x q.x) (int_eq p.y q.y) h in
    λ i. record { x = int_eq-eq p.x q.x a i; y = int_eq-eq p.y q.y b i }
  where
    both : (a b : Bool) → (a && b) ≡ true → (a ≡ true) × (b ≡ true)
    both true b h = (refl, h)
    both false b h = absurd (cc)

pub vec_eq_refl : (p : IVec2) → vec_eq p p ≡ true
vec_eq_refl p = rw (int_eq_refl p.x, int_eq_refl p.y) refl
