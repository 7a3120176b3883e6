-- ===== src/Shim/Sigset/Members.antt =====
-- The members of the sets of shim/signal/sigset.c.
use mac_ify.Prelude.{ℕ, ◌+◌, ◌-◌, ◌^◌, ◌≤◌, ◌<◌, ◌≡◌, ◌≢◌, ◌⊎◌, refl, arith}
use mac_ify.Prelude.{true, false, not, ◌&&◌, ◌||◌, Memory, load, load-store}
use mac_ify.Prelude.{store_away, bit_and, bit_or, bit_and-bit_or, bit_and_assoc, bit_and-le, has}
use mac_ify.Prelude.{all_below, all_below_sound, ltb, ◌==◌, if◌then◌else◌, zero-and, bit_and-zero}
use mac_ify.Prelude.{bit_or-zero, le-bit_or, bit_or-lt}
use mac_ify.Shim.Sigset.{signal_bit, all_but, sigaddset, sigdelset, sigemptyset, sigfillset}
use mac_ify.Shim.Sigset.{sigismember}

-- The bits of two signals of 32, and the bit of one without another, checked for all of them.
bits_table :
    all_below 32 (λ s. all_below 32 (λ t.
      (bit_and (2 ^ s) (2 ^ t) == (if s == t then 2 ^ t else 0))
      && (bit_and (2 ^ 32 - 1 - 2 ^ s) (2 ^ t) == (if s == t then 0 else 2 ^ t))))
    ≡ true
unfolding all_below
bits_table = refl

bits_row :
    (s t : ℕ)
    → s < 32
    → t < 32
    → (bit_and (2 ^ s) (2 ^ t) ≡ (if s == t then 2 ^ t else 0))
      × (bit_and (2 ^ 32 - 1 - 2 ^ s) (2 ^ t) ≡ (if s == t then 0 else 2 ^ t))
bits_row s t hs ht =
    let row = all_below_sound 32 _ s bits_table hs in
    let cell = all_below_sound 32 _ t row ht in ground (arith, cell)

module _ (s t : ℕ) (from : 1 ≤ s) (to : s ≤ 32) (from' : 1 ≤ t) (to' : t ≤ 32) where
  bit_of_bit : bit_and (signal_bit s) (signal_bit t) ≡ (if s == t then signal_bit t else 0)
  bit_of_bit = ground (arith, (bits_row (s - 1) (t - 1) (omega arith) (omega arith)).0)

  bit_of_rest : bit_and (all_but 32 s) (signal_bit t) ≡ (if s == t then 0 else signal_bit t)
  bit_of_rest = ground (arith, (bits_row (s - 1) (t - 1) (omega arith) (omega arith)).1)

-- A bit is not 0, fits 32 bits, and is in the set of all.
power_table :
    all_below 32
      (λ s. ltb (2 ^ s) (2 ^ 32) && not (2 ^ s == 0) && (bit_and (2 ^ 32 - 1) (2 ^ s) == 2 ^ s))
    ≡ true
unfolding all_below
power_table = refl

signal_bit_lem :
    (s : ℕ)
    → 1 ≤ s
    → s ≤ 32
    → (signal_bit s < 2 ^ 32)
      × (signal_bit s ≢ 0)
      × (bit_and (2 ^ 32 - 1) (signal_bit s) ≡ signal_bit s)
signal_bit_lem s from to =
    let row = all_below_sound 32 _ (s - 1) power_table (omega arith) in ground (arith, row)

-- A bit is in a sum if it is in either part.
has-or : (m b k : ℕ) → has (bit_or m b) k ≡ (has b k || has m k)
unfolding has
has-or m b k =
    ground (
      arith,
      bit_and-bit_or m b k,
      le-bit_or (bit_and m k) (bit_and b k),
      bit_or-zero (bit_and m k),
    )

module _ (s t : ℕ) (from : 1 ≤ s) (to : s ≤ 32) (from' : 1 ≤ t) (to' : t ≤ 32) where
  has_bit : has (signal_bit s) (signal_bit t) ≡ (s == t)
  unfolding has
  has_bit = ground (arith, bit_of_bit s t from to from' to', (signal_bit_lem t from' to').1)

  has-rest :
      (m : ℕ)
      → has (bit_and m (all_but 32 s)) (signal_bit t) ≡ (not (s == t) && has m (signal_bit t))
  unfolding has
  has-rest m =
      rw (bit_and_assoc m (all_but 32 s) (signal_bit t), bit_of_rest s t from to from' to')
        (ground (arith, bit_and-zero m))

-- The four operations on a set of 4 bytes, for signals from 1 to 32: a signal that is added is a
-- member afterwards and one that is removed is not, the others are as they were, an emptied set has
-- no member and a filled one has all.
sigismember-macos :
    (mem : Memory) (set s t : ℕ)
    → load 4 mem set < 2 ^ 32
    → 1 ≤ s
    → s ≤ 32
    → 1 ≤ t
    → t ≤ 32
    → (sigismember true (sigaddset true mem set s) set t ≡ (s == t || sigismember true mem set t))
      × (sigismember true (sigdelset true mem set s) set t
          ≡ (not (s == t) && sigismember true mem set t))
      × (sigismember true (sigemptyset true mem set) set t ≡ false)
      × (sigismember true (sigfillset true mem set) set t ≡ true)
unfolding sigismember sigaddset sigdelset sigemptyset sigfillset
sigismember-macos mem set s t bytes from to from' to' =
    let own = signal_bit_lem s from to in
    let other = signal_bit_lem t from' to' in
    (
      rw
          (
            load-store 4 mem set (bit_or (load 4 mem set) (signal_bit s))
                (bit_or-lt 32 (load 4 mem set) (signal_bit s) bytes own.0),
            has-or (load 4 mem set) (signal_bit s) (signal_bit t),
            has_bit s t from to from' to',
          )
          refl,
      rw
          (
            load-store 4 mem set (bit_and (load 4 mem set) (all_but 32 s))
                (omega (arith, bit_and-le (load 4 mem set) (all_but 32 s))),
            has-rest s t from to from' to' (load 4 mem set),
          )
          refl,
      rw (load-store 4 mem set 0 (omega arith)) (unfold has in rw (zero-and (signal_bit t)) refl),
      rw (load-store 4 mem set 0xFFFFFFFF (omega arith)) (unfold has in ground (arith, other)),
    )

-- For a macOS caller the operations change no byte beyond the four of its set.
pub sigset_macos_frame :
    (mem : Memory) (set s x : ℕ)
    → (x < set) ⊎ (set + 4 ≤ x)
    → (sigaddset true mem set s x ≡ mem x)
      × (sigdelset true mem set s x ≡ mem x)
      × (sigemptyset true mem set x ≡ mem x)
      × (sigfillset true mem set x ≡ mem x)
unfolding sigaddset sigdelset sigemptyset sigfillset
sigset_macos_frame mem set s x away = (
  store_away 4 mem set _ x away,
  store_away 4 mem set _ x away,
  store_away 4 mem set _ x away,
  store_away 4 mem set _ x away,
)
