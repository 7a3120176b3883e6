-- ===== src/Shim/GoSignal.antt =====
-- shim/signal/go_signal.c: the handler that the shim installs for a Go binary in place of its own. Traces
-- are left out; glibc's `sigprocmask` is not asked for its result.
pub mod Delivery
use mac_ify.Prelude.{ℕ, ◌+◌, Option, none, some, Bool, true, false, not, ◌&&◌, ◌||◌, Memory, load}
use mac_ify.Prelude.{ltb, ◌==◌, if◌then◌else◌, ℤ, pos, negsuc}
use mac_ify.Shim.Sigaction.{SignalEnv, SavedHandlers}

-- `*(uint64_t *)p`, of a pointer other than NULL.
unfoldable pub field_at : Memory → ℕ → ℕ → ℕ
field_at mem p off = if p == 0 then 0 else load 8 mem (p + off)

-- `go_is_ready`; `ready` is `macify_go_signal_ready`. `g.m` is at 0x30, `m.gsignal` at 0x48 and `m.curg` at
-- 0xb8.
unfoldable pub go_is_ready : SignalEnv → Memory → Bool → Bool
go_is_ready env mem ready =
    let g = field_at mem env.tls_g_addr 0 in
    let m = field_at mem g 0x30 in
    ready || (not (field_at mem m 0x48 == 0) && not (field_at mem m 0xb8 == 0))

-- SI_USER, SI_KERNEL, and SI_QUEUE, SI_TIMER, SI_MESGQ, SI_ASYNCIO, SI_SIGIO and SI_TKILL from -1 down.
unfoldable pub is_async : ℤ → Bool
is_async (pos n) = n == 0 || n == 128
is_async (negsuc n) = ltb n 6

-- `si_code`, if there is an `info`.
unfoldable pub sync_fault : Option ℤ → Bool
sync_fault none = true
sync_fault (some si_code) = not (is_async si_code)

-- The program's handler is called, or the crash handler, or the signal is blocked for later.
pub data Delivered : Type 0 where
  called : ℕ → Delivered
  crashed deferred : Delivered

-- The delivery, and `macify_go_signal_ready` after it.
unfoldable pub go_signal_wrapper :
    SignalEnv → SavedHandlers → Memory → Bool → ℕ → Option ℤ → Delivered × Bool
go_signal_wrapper env saved mem ready sig info =
    let is_ready = go_is_ready env mem ready in
    if is_ready
    then (if ltb sig 32 && not (saved sig == 0) then called (saved sig) else deferred, true)
    else (if sync_fault info then crashed else deferred, ready)
