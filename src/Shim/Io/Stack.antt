-- ===== src/Shim/Io/Stack.antt =====
-- What shim/io/flags.c leaves of the main stack.
use mac_ify.Prelude.{ℕ, ◌+◌, ◌^◌, ◌≤◌, ◌<◌, ◌≡◌, ◌≢◌, ◌↔◌, ◌⊎◌, arith, [], ◌∷◌}
use mac_ify.Shim.Io.{MainStack, unmap_call, unmap_memory}

-- Ranges that are not empty and do not wrap around the address space are handed to the system exactly
-- when they have no byte of the main stack; otherwise nothing is unmapped.
unmap_memory-stack :
    (st : MainStack) (addr len : ℕ)
    → st.base ≢ 0
    → 0 < st.size
    → 0 < len
    → st.base + st.size < 2 ^ 64
    → addr + len < 2 ^ 64
    → ((unmap_memory st addr len ≡ unmap_call addr len ∷ [])
        ↔ ((addr + len ≤ st.base) ⊎ (st.base + st.size ≤ addr)))
      × ((addr + len ≤ st.base) ⊎ (st.base + st.size ≤ addr) ⊎ (unmap_memory st addr len ≡ []))
unfolding unmap_memory
unmap_memory-stack st addr len some_stack nonempty some_range fits fits' = ground arith
