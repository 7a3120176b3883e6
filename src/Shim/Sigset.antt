-- ===== src/Shim/Sigset.antt =====
-- shim/signal/sigset.c: the operations on signal sets. A set of a caller in macOS text has 4 bytes;
-- any other caller has glibc's set of 128, of which the first 8 hold the signals. A macOS caller's
-- signal is from 1 to 32, since C leaves other shifts undefined.
pub mod Members
use mac_ify.Prelude.{ℕ, zero, suc, ◌+◌, ◌-◌, ◌^◌, Bool, true, ◌&&◌, Memory, load, store, poke}
use mac_ify.Prelude.{bit_and, bit_or}
use mac_ify.Prelude.{has, ltb, leb, if◌then◌else◌}

abbrev pub signal_bit : ℕ → ℕ
signal_bit signum = 2 ^ (signum - 1)

-- `signum > 0 && signum <= 64`
abbrev pub in_words : ℕ → Bool
in_words signum = ltb 0 signum && leb signum 64

-- `~(1u << (signum - 1))` and `~(1UL << (signum - 1))`
abbrev pub all_but : ℕ → ℕ → ℕ
all_but w signum = 2 ^ w - 1 - signal_bit signum

unfoldable pub sigaddset : Bool → Memory → ℕ → ℕ → Memory
sigaddset is_macos mem set signum =
    if is_macos
    then store 4 mem set (bit_or (load 4 mem set) (signal_bit signum))
    else if in_words signum
    then store 8 mem set (bit_or (load 8 mem set) (signal_bit signum))
    else mem

unfoldable pub sigdelset : Bool → Memory → ℕ → ℕ → Memory
sigdelset is_macos mem set signum =
    if is_macos
    then store 4 mem set (bit_and (load 4 mem set) (all_but 32 signum))
    else if in_words signum
    then store 8 mem set (bit_and (load 8 mem set) (all_but 64 signum))
    else mem

-- `memset(set, byte, n)`
unfoldable pub set_bytes : ℕ → Memory → ℕ → ℕ → Memory
set_bytes n mem set byte x = if leb set x && ltb x (set + n) then byte else mem x

unfoldable pub sigemptyset : Bool → Memory → ℕ → Memory
sigemptyset is_macos mem set = if is_macos then store 4 mem set 0 else set_bytes 128 mem set 0

unfoldable pub sigfillset : Bool → Memory → ℕ → Memory
sigfillset is_macos mem set =
    if is_macos then store 4 mem set 0xFFFFFFFF else set_bytes 128 mem set 0xFF

unfoldable pub sigismember : Bool → Memory → ℕ → ℕ → Bool
sigismember is_macos mem set signum =
    if is_macos
    then has (load 4 mem set) (signal_bit signum)
    else in_words signum && has (load 8 mem set) (signal_bit signum)
