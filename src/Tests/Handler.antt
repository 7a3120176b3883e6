-- ===== src/Tests/Handler.antt =====
-- Runs of the handler of src/syscall/sigill_handler.c.
use mac_ify.Prelude.{◌-◌, ◌^◌, ◌≡◌, refl, arith}
use mac_ify.Syscall.Machine.{Machine, resumed}
use mac_ify.Syscall.Sigill.{sigill_handler, call_of}
use mac_ify.Syscall.Sigill.Result.{finish_slow_result}
use mac_ify.Syscall.SlowPath.Result.{Convention, finish_slow_result-Convention, counted}
use mac_ify.Syscall.SlowPath.Result.{sigill_handler-plain, sigill_handler-result}
use mac_ify.Syscall.SlowPath.Resume.{sigill_handler-resumes}
use mac_ify.Syscall.Table.{bsd_to_linux, bsd_arg_flags}
use mac_ify.Tests.Data.{test_kernel, test_env, thread}

-- close(3)
sigill_handler-plain_example :
    (m' : Machine) × (sigill_handler test_env test_kernel (thread 6) ≡ resumed m')
    × Convention (counted (thread 6)) 3 m'
unfolding bsd_to_linux bsd_arg_flags
sigill_handler-plain_example =
    sigill_handler-plain test_env test_kernel (thread 6) 6 (λ nr args mem. ground arith) refl
      (omega arith) (omega arith) (omega arith) refl

close_run :
    sigill_handler test_env test_kernel (thread 6)
    ≡ resumed (finish_slow_result (counted (thread 6)) 3)
unfolding bsd_to_linux bsd_arg_flags call_of
close_run =
    sigill_handler-result test_env test_kernel (thread 6) 6 refl (omega arith) (omega arith)
      (omega arith) refl

finish_slow_result-Convention_example :
    Convention (thread 6) (2 ^ 64 - 9) (finish_slow_result (thread 6) (2 ^ 64 - 9))
finish_slow_result-Convention_example =
    finish_slow_result-Convention (thread 6) (2 ^ 64 - 9) (omega arith)

sigill_handler-resumes_example : (finish_slow_result (counted (thread 6)) 3).regs.rip ≡ 0x402
sigill_handler-resumes_example =
    sigill_handler-resumes test_env test_kernel (thread 6)
      (finish_slow_result (counted (thread 6)) 3) close_run
