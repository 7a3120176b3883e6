-- ===== src/Shim/Pthread/Convert.antt =====
-- The conversion of macOS's locks to glibc's, shim/pthread/sync.c.
use mac_ify.Prelude.{ℕ, ◌+◌, ◌-◌, ◌≤◌, ◌<◌, ◌≡◌, ◌≢◌, ◌⊎◌, ◌↔◌, inl, inr, refl, ap, arith}
use mac_ify.Prelude.{none, some, Bool, Memory, load, Option-cases}
use mac_ify.Shim.Pthread.{Initializers, MutexKind, copy_bytes, kind_of, convert_macos_mutex}
use mac_ify.Shim.Pthread.{normal, recursive, errorcheck, adaptive}
use mac_ify.Shim.Pthread.{mutex_sig, destroy, mutex_op, sync_errno_out, RealOp}

copy_bytes_away :
    (n : ℕ) (bytes : ℕ → ℕ) (mem : Memory) (p x : ℕ)
    → (x < p) ⊎ (p + n ≤ x)
    → copy_bytes n bytes mem p x ≡ mem x
unfolding copy_bytes
copy_bytes_away n bytes mem p x away = ground arith

convert_found :
    (init : Initializers) (mem : Memory) (m : ℕ) (kind : MutexKind)
    → kind_of (load 4 mem m) ≡ some kind
    → convert_macos_mutex init mem m ≡ copy_bytes init.mutex_size (init.mutex_init kind) mem m
unfolding convert_macos_mutex
convert_found init mem m kind found = rw (found, convert_macos_mutex) refl

convert_other :
    (init : Initializers) (mem : Memory) (m : ℕ)
    → kind_of (load 4 mem m) ≡ none
    → convert_macos_mutex init mem m ≡ mem
unfolding convert_macos_mutex
convert_other init mem m other = rw (other, convert_macos_mutex) refl

-- The signatures of macOS's mutexes, with the kind of glibc's mutex that stands for each.
abbrev pub IsStatic : ℕ → MutexKind → Type 0
IsStatic sig kind =
    ((sig ≡ 0x32AAABA7) × (kind ≡ normal))
    ⊎ ((sig ≡ 0x32AAABA2) × (kind ≡ recursive))
    ⊎ ((sig ≡ 0x32AAABA1) × (kind ≡ errorcheck))
    ⊎ ((sig ≡ 0x32AAABA3) × (kind ≡ adaptive))

-- The memory that glibc is handed for a mutex at `m`.
pub record Handed (init : Initializers) (mem : Memory) (m : ℕ) (handed : Memory) : Type 0 where
  pub converted :
      (kind : MutexKind) (i : ℕ)
      → IsStatic (load 4 mem m) kind
      → i < init.mutex_size
      → handed (m + i) ≡ init.mutex_init kind i
  pub left_alone :
      ((kind : MutexKind) → ¬ IsStatic (load 4 mem m) kind) → (x : ℕ) → handed x ≡ mem x
  pub outside : (x : ℕ) → (x < m) ⊎ (m + init.mutex_size ≤ x) → handed x ≡ mem x

kind_of-IsStatic : (sig : ℕ) (kind : MutexKind) → (kind_of sig ≡ some kind) ↔ IsStatic sig kind
unfolding kind_of
kind_of-IsStatic sig normal = (λ h. ground arith, λ h. ground arith)
kind_of-IsStatic sig recursive = (λ h. ground arith, λ h. ground arith)
kind_of-IsStatic sig errorcheck = (λ h. ground arith, λ h. ground arith)
kind_of-IsStatic sig adaptive = (λ h. ground arith, λ h. ground arith)

copy_bytes_inside :
    (n : ℕ) (bytes : ℕ → ℕ) (mem : Memory) (p i : ℕ)
    → i < n
    → copy_bytes n bytes mem p (p + i) ≡ bytes i
unfolding copy_bytes
copy_bytes_inside n bytes mem p i low =
    let back : p + i - p ≡ i = omega arith in ground (arith, ap bytes back)

convert_macos_mutex-Handed :
    (init : Initializers) (mem : Memory) (m : ℕ)
    → Handed init mem m (convert_macos_mutex init mem m)
convert_macos_mutex-Handed init mem m = record {
  converted = λ kind i static low.
      rw (convert_found init mem m kind ((kind_of-IsStatic (load 4 mem m) kind).1 static))
        (copy_bytes_inside init.mutex_size (init.mutex_init kind) mem m i low);
  left_alone = λ none_of x. elim (Option-cases (kind_of (load 4 mem m))) [
    | inl other ↦ rw (convert_other init mem m other) refl
    | inr (kind, found) ↦ absurd (none_of kind ((kind_of-IsStatic (load 4 mem m) kind).0 found))
  ];
  outside = λ x away. elim (Option-cases (kind_of (load 4 mem m))) [
    | inl other ↦ rw (convert_other init mem m other) refl
    | inr (kind, found) ↦
        rw (convert_found init mem m kind found) (copy_bytes_away _ _ mem m x away)
  ];
}

-- A call that locks or unlocks a mutex hands glibc's function the program's memory, in which a mutex that
-- begins with one of macOS's four signatures has become, byte for byte, glibc's initialiser of the same kind,
-- and everything else, any other mutex included, is as it was; the call leaves the memory that glibc's
-- function leaves, and its result is that function's, as an error of macOS where the caller lies in macOS
-- text.
pub mutex_op-Handed :
    (init : Initializers) (real : RealOp) (is_macos : Bool) (mem : Memory) (m : ℕ)
    → (handed : Memory) × Handed init mem m handed
      × (mutex_op init real is_macos mem m
          ≡ (sync_errno_out is_macos (real handed m).0, (real handed m).1))
unfolding mutex_op
mutex_op-Handed init real is_macos mem m =
    (convert_macos_mutex init mem m, convert_macos_mutex-Handed init mem m, refl)

-- A mutex of macOS that is recursive, error-checking or first-fit is handed to glibc's
-- `pthread_mutex_destroy` in macOS's layout; only a normal one is kept from it.
pub destroy-raw :
    (real : RealOp) (mem : Memory) (m : ℕ) (kind : MutexKind)
    → kind_of (load 4 mem m) ≡ some kind
    → ((destroy mutex_sig real mem m ≡ real mem m) × (kind ≢ MutexKind.normal))
      ⊎ ((destroy mutex_sig real mem m ≡ (0, mem)) × (kind ≡ MutexKind.normal))
unfolding destroy kind_of
destroy-raw real mem m kind found = ground arith
