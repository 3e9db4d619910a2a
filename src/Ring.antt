-- ===== src/Ring.antt =====
-- The index arithmetic of a ring of `n` cells, which the byte buffers and the block buffers of
-- 1.0.x/ProdExplUnits/sourcecode/buffer_read_write_fun.cxx share: stepping an index, the number of steps
-- between two indices, and the list of the cells between them.
pub mod Segment
use mitcbcu.Common.{
  ℕ, zero, suc, ◌+◌, ◌-◌, ◌<◌, ◌≤◌, ◌≡◌, ◌≢◌, arith, leb, ◌==◌, if◌then◌else◌, List, [], ◌∷◌,
}

-- The next index, going round at `n`.
abbrev pub next : ℕ → ℕ → ℕ
next n i = if suc i == n then 0 else suc i

-- The steps from `r` on to `w`.
abbrev pub distance : ℕ → ℕ → ℕ → ℕ
distance n r w = if leb r w then w - r else n - r + w

-- The `k` cells from `r` on.
abbrev pub segment {ℓ} : {A : Type ℓ} → (ℕ → A) → ℕ → ℕ → ℕ → List A
segment f n r zero = []
segment f n r (suc k) = f r ∷ segment f n (next n r) k

pub next-lt : (n i : ℕ) → i < n → next n i < n
next-lt n i h = ground arith

pub distance-lt : (n r w : ℕ) → r < n → w < n → distance n r w < n
distance-lt n r w hr hw = ground arith

pub distance_self : (n r : ℕ) → distance n r r ≡ 0
distance_self n r = ground arith

pub distance-eq_zero : (n r w : ℕ) → r < n → w < n → distance n r w ≡ 0 → r ≡ w
distance-eq_zero n r w hr hw h = ground arith

-- Moving the left end shortens the way, and moving the right end makes it longer.
pub distance-next_left :
    (n r w : ℕ) → r < n → w < n → r ≢ w → suc (distance n (next n r) w) ≡ distance n r w
distance-next_left n r w hr hw h = ground arith

pub distance-next_right :
    (n r w : ℕ) → r < n → w < n → next n w ≢ r → distance n r (next n w) ≡ suc (distance n r w)
distance-next_right n r w hr hw h = ground arith

-- The ring is full exactly when one more step of the right end would meet the left end.
pub distance_full : (n r w : ℕ) → r < n → w < n → next n w ≡ r → suc (distance n r w) ≡ n
distance_full n r w hr hw h = ground arith

-- Steps on the way from `r` to `w` leave the rest of the way.
pub distance_split :
    (n r m w : ℕ)
    → r < n
    → m < n
    → w < n
    → distance n r m ≤ distance n r w
    → distance n r m + distance n m w ≡ distance n r w
distance_split n r m w hr hm hw h = ground arith
