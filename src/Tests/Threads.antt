-- ===== src/Tests/Threads.antt =====
-- Runs of shim/pthread/sync.c and shim/pthread/core.c.
use mac_ify.Prelude.{ℕ, ◌+◌, true, ◌≡◌, refl, [], ◌∷◌, entry, Memory}
use mac_ify.Shim.Pthread.{Initializers, MutexKind, mutex_op, sync_errno_out}
use mac_ify.Shim.Pthread.Convert.{Handed, mutex_op-Handed}
use mac_ify.Shim.Pthread.Spin.{Spin, Phase, trying, set_phase, test_and_set, start, call_lock}
use mac_ify.Shim.Pthread.Spin.{try_outer, Reach, begin, next, IsLocked, Reach-IsLocked}

-- The initialisers begin with a 0, and have the kind in the 17th byte, as glibc's have.
abbrev kind_byte : MutexKind → ℕ
kind_byte MutexKind.normal = 0
kind_byte MutexKind.recursive = 1
kind_byte MutexKind.errorcheck = 2
kind_byte MutexKind.adaptive = 3

abbrev init : Initializers
init = record {
  mutex_init = λ kind. entry ((16, kind_byte kind) ∷ []);
  cond_init = λ i. 0;
  rwlock_init = λ i. 0;
  mutex_size = 40;
  cond_size = 48;
  rwlock_size = 56;
}

-- A recursive mutex at 0x100.
abbrev with_mutex : Memory
with_mutex = entry ((0x100, 0xA2) ∷ (0x101, 0xAB) ∷ (0x102, 0xAA) ∷ (0x103, 0x32) ∷ (0x130, 9) ∷ [])

mutex_op-Handed_example :
    (handed : Memory) × Handed init with_mutex 0x100 handed
    × (mutex_op init (λ mem m. (mem (m + 16), mem)) true with_mutex 0x100
        ≡ (sync_errno_out true (handed 0x110), handed))
mutex_op-Handed_example = mutex_op-Handed init (λ mem m. (mem (m + 16), mem)) true with_mutex 0x100

-- Thread 1 gets the lock while thread 2 is trying.
abbrev both : Spin
both = record start { phase = set_phase (set_phase start.phase 1 trying) 2 trying }

both-Reach : Reach both
unfolding set_phase
both-Reach = next (next begin (call_lock 1 refl)) (call_lock 2 refl)

Reach-IsLocked_example : IsLocked (test_and_set both 1 Phase.waiting)
unfolding set_phase
Reach-IsLocked_example = Reach-IsLocked (next both-Reach (try_outer 1 refl))
