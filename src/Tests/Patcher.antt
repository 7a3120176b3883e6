-- ===== src/Tests/Patcher.antt =====
-- Runs of src/syscall/patcher.c.
use mac_ify.Prelude.{ℕ, ◌≤◌, ◌≡◌, ◌⊎◌, inl, inr, refl, arith, load, some, false}
use mac_ify.Syscall.Patcher.Go.{patch_go_systemstack}
use mac_ify.Syscall.Patcher.Scan.{patch_found, patch_syscalls_in_range}
use mac_ify.Syscall.Patcher.Sites.{patch_found-fast, patch_syscalls_in_range_frame}
use mac_ify.Syscall.Patcher.Trampolines.{Patch, patch_go_systemstack-Patch}
use mac_ify.Syscall.Table.{bsd_to_linux, bsd_arg_flags}
use mac_ify.Tests.Data.{getpid_text, getpid_state, systemstack_text}

patch_found-fast_example :
    let st' = patch_found false getpid_state 5 (some 0) in
    (load 4 st'.text 1 ≡ 39)
    × ((x : ℕ) → (x ≤ 0) ⊎ (5 ≤ x) → st'.text x ≡ getpid_text x)
    × (st'.fast ≡ 1)
    × (st'.slow ≡ 0)
unfolding bsd_to_linux bsd_arg_flags
patch_found-fast_example =
    patch_found-fast getpid_state 5 0 20 (omega arith) refl (omega arith) (omega arith) refl

patch_syscalls_in_range_frame_example :
    (patch_syscalls_in_range false 7 getpid_state 0 7).text 7 ≡ 0
patch_syscalls_in_range_frame_example =
    patch_syscalls_in_range_frame false 7 getpid_state 0 7 7 (omega arith) (inr (inl (omega arith)))

patch_go_systemstack-Patch_example :
    Patch 80 systemstack_text (patch_go_systemstack 80 systemstack_text)
patch_go_systemstack-Patch_example = patch_go_systemstack-Patch 80 systemstack_text (omega arith)
