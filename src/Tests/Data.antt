-- ===== src/Tests/Data.antt =====
-- The concrete inputs of the tests.
use mac_ify.Prelude.{
  ℕ, zero, suc, ◌+◌, ◌%◌, ◌^◌, List, [], ◌∷◌, ◌++◌, true, Memory, ◌==◌, if◌then◌else◌,
}
use mac_ify.Prelude.{pos}
use mac_ify.Syscall.Machine.{Machine, Kernel, Env}
use mac_ify.Syscall.Sigill.Result.{Call}
use mac_ify.Fixups.Image.{Image}
use mac_ify.Fixups.Bind.{BindState}
use mac_ify.Fixups.Rebase.{RebaseState}
use mac_ify.Fixups.Stubs.{Noted}
use mac_ify.Fixups.Chained.{FixState, Tables}
use mac_ify.Syscall.Patcher.Scan.{PatchState}

-- The bytes of the list from 0 on, and then zeros.
abbrev pub from_list : List ℕ → Memory
from_list [] x = 0
from_list (b ∷ bytes) zero = b
from_list (b ∷ bytes) (suc x) = from_list bytes x

abbrev pub no_memory : Memory
no_memory x = 0

-- A kernel that returns its first argument, and reports EBADF for the number 5.
abbrev pub test_kernel : Kernel
test_kernel nr args mem = (if nr == 5 then 18446744073709551607 else args.a1 % 2 ^ 64, mem)

abbrev pub test_env : Env
test_env = record {
  lenient = true;
  tls_g_addr = 0x1000;
  go_signal_wrapper = 0;
  saved_go_handlers = 0;
  linux_sa = 0x2000;
  linux_old_sa = 0x2100;
  linux_set_sigprocmask = 0x2200;
  linux_oset_sigprocmask = 0x2300;
  linux_ss_sigaltstack = 0x2400;
  linux_oss_sigaltstack = 0x2500;
  fallback_sigstack = 0x3000;
  kpath = 0x2600;
  proc_fd_path = λ fd. 47 ∷ 0 ∷ [];
}

-- A thread that asks for the call with the number `nr` of the BSD class.
abbrev pub thread : ℕ → Machine
thread nr = record {
  regs = record {
    rax = 0x2000000 + nr;
    rdi = 3;
    rsi = 7;
    rdx = 9;
    r10 = 0;
    r8 = 0;
    r9 = 0;
    rip = 0x400;
    efl = 2;
  };
  mem = no_memory;
  errno = 0;
  slow_path_calls = 0;
}

abbrev pub call_with : ℕ → ℕ → Call
call_with a1 a2 = record {
  args = record { a1 = a1; a2 = a2; a3 = 0; a4 = 0; a5 = 0; a6 = 0 };
  mem = no_memory;
  save_oldact = 0;
  save_oset = 0;
  save_oss = 0;
}

-- Two segments of a page at 0x10000 and 0x20000, and one library.
abbrev pub test_image : Image
test_image = record {
  nsegments = 2;
  vmaddr = λ i. if i == 0 then 0x10000 else 0x20000;
  vmsize = λ i. 0x1000;
  is_pagezero = λ i. i == 5;
  ndylibs = 1;
  slide = 0x5000;
  resolve = λ i name. 0x7000;
  resolve_flat = λ name. 0x7100;
  stub = 0x6000;
  copies = λ name. true;
}

abbrev pub no_names : Noted
no_names = record { count = 0; names = [] }

abbrev pub bind_at : ℕ → BindState
bind_at seg_index = record {
  p = [];
  ordinal = pos 1;
  symbol_name = b'_' ∷ b'a' ∷ [];
  bind_type = 1;
  addend = 4;
  seg_offset = 16;
  seg_index = seg_index;
  mem = no_memory;
  noted = no_names;
}

abbrev pub rebase_at : RebaseState
rebase_at = record { p = []; type = 1; seg_offset = 16; seg_index = 1; mem = no_memory }

-- A rebase entry at 0x10000 with the target 0x40.
abbrev pub fix_state : FixState
fix_state = record {
  mem = λ x. if x == 0x10000 then 0x40 else 0;
  noted = no_names;
  load_base = 0x10000;
}

abbrev pub fix_tables : Tables
fix_tables = record { hdr = 0x100; imports_base = 0x200; symbols_base = 0x300; name_bound = 16 }

-- `mov eax, 0x2000014; syscall` as the patcher looks for it, for getpid (20).
abbrev pub getpid_text : Memory
getpid_text = from_list (0xB8 ∷ 20 ∷ 0 ∷ 0 ∷ 0x20 ∷ 0x0F ∷ 0x05 ∷ [])

abbrev pub getpid_state : PatchState
getpid_state = record { text = getpid_text; fast = 0; slow = 0 }

-- The code of `systemstack` that switches back, its return, and padding from 24 on.
abbrev pub systemstack_text : Memory
systemstack_text =
    let code =
      0x65 ∷ 0x48 ∷ 0x89 ∷ 0x04 ∷ 0x25 ∷ 0x30 ∷ 0x00 ∷ 0x00 ∷ 0x00 ∷ 0x48 ∷ 0x8b ∷ 0x60 ∷ 0x38
      ∷ 0x48 ∷ 0x8b ∷ 0x68 ∷ 0x60 ∷ 0x90 ∷ 0x5d ∷ 0xc3 ∷ 0x90 ∷ 0x90 ∷ 0x90 ∷ 0x90 ∷ [] in
    from_list (code ++ padding 48)
  where
    padding : ℕ → List ℕ
    padding zero = []
    padding (suc n) = 0xCC ∷ padding n
