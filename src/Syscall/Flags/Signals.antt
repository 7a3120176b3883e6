-- ===== src/Syscall/Flags/Signals.antt =====
-- What `translate_kill_signal` of src/syscall/flag_translation.c does to the signals of macOS.
use mac_ify.Prelude.{ℕ, ◌≡◌, ◌<◌, ◌≤◌, ◌⊎◌, refl, Bool, true, ◌&&◌, ◌||◌, not, ltb, leb, ◌==◌}
use mac_ify.Prelude.{pos, all_below, all_below_sound, arith}
use mac_ify.Syscall.Flags.{kill_number, translate_kill_signal}

abbrev pair_ok : ℕ → ℕ → Bool
pair_ok m n =
    not (kill_number m == kill_number n)
    || (m == n)
    || (kill_number m == 10)
    || (m == 0)
    || (n == 0)

abbrev row_ok : ℕ → Bool
row_ok m = (m == 0 || leb 1 (kill_number m)) && ltb (kill_number m) 32 && all_below 32 (pair_ok m)

table_ok : all_below 32 row_ok ≡ true
unfolding all_below kill_number
table_ok = refl

kill_number_row : (m : ℕ) → m < 32 → row_ok m ≡ true
kill_number_row m h = all_below_sound 32 row_ok m table_ok h

-- The number that a signal of macOS is sent as is a signal of Linux.
pub kill_number_bounds : (m : ℕ) → 1 ≤ m → m < 32 → (1 ≤ kill_number m) × (kill_number m < 32)
kill_number_bounds m pos_m below = ground (arith, kill_number_row m below)

kill_number_pair : (m n : ℕ) → m < 32 → n < 32 → pair_ok m n ≡ true
kill_number_pair m n hm hn =
    all_below_sound 32 (pair_ok m) n (ground (arith, kill_number_row m hm)) hn

-- Two different signals of macOS, from 1 to 31, are sent as different signals of Linux, unless
-- both are sent as SIGUSR1 (10).
translate_kill_signal-injective :
    (m n : ℕ)
    → 1 ≤ m
    → m < 32
    → 1 ≤ n
    → n < 32
    → translate_kill_signal (pos m) ≡ translate_kill_signal (pos n)
    → (m ≡ n) ⊎ (translate_kill_signal (pos m) ≡ pos 10)
unfolding translate_kill_signal
translate_kill_signal-injective m n pm hm pn hn e = ground (arith, kill_number_pair m n hm hn)
