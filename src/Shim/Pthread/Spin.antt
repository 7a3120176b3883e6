-- ===== src/Shim/Pthread/Spin.antt =====
-- The spin locks of shim/pthread/core.c. Each access of the lock is a step of one thread, and the threads
-- take their steps in any order. Only a thread that holds the lock unlocks it, as its users have to.
use mac_ify.Prelude.{ℕ, ◌≡◌, ◌≢◌, refl, ◌∙◌, ap, sym, arith, Bool, ◌==◌, if◌then◌else◌}

-- `outside`, in the outer loop of `OSSpinLockLock` (`trying`), in its inner loop (`waiting`), or between
-- `OSSpinLockLock`, or a successful `OSSpinLockTry`, and `OSSpinLockUnlock`.
pub data Phase : Type 0 where
  outside trying waiting holding : Phase

pub record Spin : Type 0 where
  pub lock : ℕ
  pub phase : ℕ → Phase

unfoldable pub set_phase : (ℕ → Phase) → ℕ → Phase → ℕ → Phase
set_phase phase t p u = if u == t then p else phase u

-- `__sync_lock_test_and_set(lock, 1)`: the phase after it depends on the old value.
unfoldable pub test_and_set : Spin → ℕ → Phase → Spin
test_and_set s t failed = record {
  lock = 1;
  phase = set_phase s.phase t (if s.lock == 0 then holding else failed);
}

-- A step of the thread `t`.
pub data Step (s : Spin) : Spin → Type 0 where
  call_lock :
      (t : ℕ) → s.phase t ≡ outside → Step s (record s { phase = set_phase s.phase t trying })
  try_outer : (t : ℕ) → s.phase t ≡ trying → Step s (test_and_set s t waiting)
  look :
      (t : ℕ)
      → s.phase t ≡ waiting
      → Step s (record s { phase = set_phase s.phase t (if s.lock == 0 then trying else waiting) })
  call_try : (t : ℕ) → s.phase t ≡ outside → Step s (test_and_set s t outside)
  unlock :
      (t : ℕ)
      → s.phase t ≡ holding
      → Step s (record { lock = 0; phase = set_phase s.phase t outside })

-- All threads are outside, and the lock is 0.
abbrev pub start : Spin
start = record { lock = 0; phase = λ t. outside }

pub data Reach : Spin → Type 0 where
  begin : Reach start
  next : {s s' : Spin} → Reach s → Step s s' → Reach s'

-- The lock is 0 and no thread holds it, or it is not and there is one holder.
pub data IsLocked (s : Spin) : Type 0 where
  free : s.lock ≡ 0 → ((t : ℕ) → s.phase t ≢ holding) → IsLocked s
  taken :
      (h : ℕ)
      → s.lock ≢ 0
      → s.phase h ≡ holding
      → ((t : ℕ) → s.phase t ≡ holding → t ≡ h)
      → IsLocked s

-- A holder is no thread that does not hold.
other_thread : (s : Spin) (h t : ℕ) → s.phase h ≡ holding → s.phase t ≢ holding → h ≢ t
other_thread s h t holds old e = old (ap s.phase (sym e) ∙ holds)

-- A thread that gets no hold keeps the lock's state.
set_phase-IsLocked :
    (s : Spin) (t : ℕ) (p : Phase)
    → s.phase t ≢ holding
    → p ≢ holding
    → IsLocked s
    → IsLocked (record s { phase = set_phase s.phase t p })
unfolding set_phase
set_phase-IsLocked s t p old new (free z none_holds) = free z (λ u. ground (arith, none_holds u))
set_phase-IsLocked s t p old new (taken h nz holds one) =
    taken h nz (ground (arith, other_thread s h t holds old)) (λ u. ground (arith, one u))

test_and_set-IsLocked :
    (s : Spin) (t : ℕ) (failed : Phase)
    → s.phase t ≢ holding
    → failed ≢ holding
    → IsLocked s
    → IsLocked (test_and_set s t failed)
unfolding set_phase test_and_set
test_and_set-IsLocked s t failed old new (free z none_holds) =
    taken t (omega arith) (ground arith) (λ u. ground (arith, none_holds u))
test_and_set-IsLocked s t failed old new (taken h nz holds one) =
    taken h (omega arith) (ground (arith, other_thread s h t holds old))
      (λ u. ground (arith, one u))

unlock-IsLocked :
    (s : Spin) (t : ℕ)
    → s.phase t ≡ holding
    → IsLocked s
    → IsLocked (record { lock = 0; phase = set_phase s.phase t outside })
unfolding set_phase
unlock-IsLocked s t holds (free z none_holds) = absurd (none_holds t holds)
unlock-IsLocked s t holds (taken h nz holds' one) =
    free refl (λ u. ground (arith, one u, one t holds))

looked_at : (b : Bool) → (if b then trying else waiting) ≢ holding
looked_at b = ground arith

Step-IsLocked : {s s' : Spin} → Step s s' → IsLocked s → IsLocked s'
Step-IsLocked {s = s} (call_lock t e) v = set_phase-IsLocked s t trying (λ h. cc) (λ h. cc) v
Step-IsLocked {s = s} (try_outer t e) v = test_and_set-IsLocked s t waiting (λ h. cc) (λ h. cc) v
Step-IsLocked {s = s} (look t e) v = set_phase-IsLocked s t _ (λ h. cc) (looked_at (s.lock == 0)) v
Step-IsLocked {s = s} (call_try t e) v = test_and_set-IsLocked s t outside (λ h. cc) (λ h. cc) v
Step-IsLocked {s = s} (unlock t e) v = unlock-IsLocked s t e v

-- However the threads take their steps from the start on, the lock is 0 and no thread holds it, or it is
-- not 0 and exactly one thread holds it: no two threads are between `OSSpinLockLock` and
-- `OSSpinLockUnlock`, and no lock is left taken that nobody holds.
pub Reach-IsLocked : {s : Spin} → Reach s → IsLocked s
Reach-IsLocked begin = free refl (λ t h. cc)
Reach-IsLocked (next r st) = Step-IsLocked st (Reach-IsLocked r)
