-- ===== src/Prelude/Mem.antt =====
-- Byte-addressed memory, with little-endian loads and stores of a number of bytes.
use Prim.Native.Nat.{ℕ, zero, suc, ◌+◌, ◌*◌, ◌/◌, ◌%◌, ◌^◌, ◌≤◌, ◌<◌}
use mathlib.Core.Path.{◌≡◌, refl, ap₂}
use mathlib.Core.Logic.{◌⊎◌, inl, inr}
use native.Mathlib.Nat.{pow-suc}
use native.Mathlib.Omega.{arith}
use mac_ify.Prelude.Tests.{◌==◌, if◌then◌else◌}

abbrev pub Memory : Type 0
Memory = ℕ → ℕ

-- One byte is written.
unfoldable pub poke : Memory → ℕ → ℕ → Memory
poke m a v x = if x == a then v else m x

unfoldable pub load : ℕ → Memory → ℕ → ℕ
load zero m a = 0
load (suc w) m a = m a + 256 * load w m (a + 1)

unfoldable pub store : ℕ → Memory → ℕ → ℕ → Memory
unfolding poke
store zero m a v = m
store (suc w) m a v = store w (poke m a (v % 256)) (a + 1) (v / 256)

-- A store changes no byte outside its own.
pub store_away : (w : ℕ) (m : Memory) (a v x : ℕ) → (x < a) ⊎ (a + w ≤ x) → store w m a v x ≡ m x
unfolding store
store_away zero m a v x h = refl
store_away (suc w) m a v x h = ground (arith, store_away w (poke m a (v % 256)) (a + 1) (v / 256) x)

-- A load sees only its own bytes.
pub load_cong :
    (w : ℕ) (m n : Memory) (a : ℕ)
    → ((x : ℕ) → a ≤ x → x < a + w → m x ≡ n x)
    → load w m a ≡ load w n a
unfolding load
load_cong zero m n a h = refl
load_cong (suc w) m n a h =
    ap₂ (λ x y. x + 256 * y) (h a (omega arith) (omega arith))
      (load_cong w m n (a + 1) (λ x p q. h x (omega arith) (omega arith)))

-- What was stored is read back, if it fits.
pub load-store : (w : ℕ) (m : Memory) (a v : ℕ) → v < 256 ^ w → load w (store w m a v) a ≡ v
unfolding load store
load-store zero m a v h = omega arith
load-store (suc w) m a v h = ground (
  arith,
  store_away w (poke m a (v % 256)) (a + 1) (v / 256) a (inl (omega arith)),
  load-store w (poke m a (v % 256)) (a + 1) (v / 256) (omega (arith, pow-suc 256 w)),
)

-- A load of bytes that a store leaves alone.
pub load-store_away :
    (w k : ℕ) (m : Memory) (a b v : ℕ)
    → (b + k ≤ a) ⊎ (a + w ≤ b)
    → load k (store w m a v) b ≡ load k m b
load-store_away w k m a b v h =
    load_cong k (store w m a v) m b (λ x p q. store_away w m a v x (apart x p q h))
  where
    apart : (x : ℕ) → b ≤ x → x < b + k → (b + k ≤ a) ⊎ (a + w ≤ b) → (x < a) ⊎ (a + w ≤ x)
    apart x p q (inl l) = inl (omega arith)
    apart x p q (inr r) = inr (omega arith)
