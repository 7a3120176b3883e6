-- ===== src/Tests/Fixups.antt =====
-- Runs of the interpreters of src/fixups.c.
use mac_ify.Fixups.Bind.{stuck}
use mac_ify.Fixups.Bind.{execute_binds}
use mac_ify.Fixups.Bind.Fuel.{execute_binds-ne-stuck}
use mac_ify.Fixups.Chained.{execute_chained_fixups}
use mac_ify.Fixups.Chained.Safety.{FixedAt, execute_chained_fixups-FixedAt}
use mac_ify.Fixups.Image.{add_u64}
use mac_ify.Fixups.Leb.{read_uleb128}
use mac_ify.Fixups.Leb.RoundTrip.{encode_uleb128, read_uleb128-encode}
use mac_ify.Fixups.Rebase.{RebaseState, rebase_times, execute_rebases}
use mac_ify.Fixups.Rebase.Slide.{rebase_times-slots}
use mac_ify.Prelude.{ℕ, ◌+◌, ◌*◌, ◌≤◌, ◌<◌, ◌≡◌, ◌≢◌, inl, refl, arith, [], ◌∷◌, ◌++◌}
use mac_ify.Prelude.{load, some, true, ◌==◌, if◌then◌else◌}
use mac_ify.Tests.Data.{test_image, rebase_at, fix_state, no_memory, no_names}

execute_binds-ne-stuck_example :
    execute_binds test_image 0 64 0x40000 4096 no_memory no_names ≢ stuck
execute_binds-ne-stuck_example =
    execute_binds-ne-stuck test_image 0 64 0x40000 4096 no_memory no_names

-- Two slots from 0x20010, eight bytes apart.
rebase_times-slots_example :
    (s' : RebaseState) × (rebase_times test_image 8 2 rebase_at ≡ mac_ify.Fixups.Rebase.next s')
    × ((i b : ℕ)
        → i < 2
        → b ≡ 0x20010 + i * 16
        → load 8 s'.mem b ≡ add_u64 (load 8 no_memory b) 0x5000)
    × ((b k : ℕ) → b + k ≤ 0x20010 → load k s'.mem b ≡ load k no_memory b)
rebase_times-slots_example =
    rebase_times-slots test_image 8 2 rebase_at (omega arith) refl (omega arith)

read_uleb128-encode_example :
    read_uleb128 (encode_uleb128 624485 ++ (7 ∷ [])) ≡ some (624485, 7 ∷ [])
read_uleb128-encode_example = read_uleb128-encode 624485 (7 ∷ []) (omega arith)

execute_chained_fixups-FixedAt_example :
    FixedAt 0x9000 0 (execute_chained_fixups test_image true 0 64 0x40000 4096 16 fix_state)
execute_chained_fixups-FixedAt_example =
    execute_chained_fixups-FixedAt test_image true 0 64 0x40000 4096 16 fix_state 0x9000
      (λ i h. inl (if_low i))
  where
    if_low : (i : ℕ) → 0x9000 < (if i == 0 then 0x10000 else 0x20000)
    if_low i = ground arith
