-- ===== src/Fixups/Bind/Fuel.antt =====
-- The interpreter of src/fixups.c ends: every round takes an opcode, so the fuel suffices.
use mac_ify.Prelude.{ℕ, zero, suc, ◌+◌, ◌≤◌, ◌<◌, ◌≡◌, ◌≢◌, refl, List, [], ◌∷◌, arith, length}
use mac_ify.Prelude.{Option, none, some, Memory, if_elim, Bool, true, false, if◌then◌else◌, ◌==◌}
use mac_ify.Prelude.{leb, bit_or, ltb, ◌%◌, ◌^◌, take}
use mac_ify.Fixups.Bind.{max_name, bind_slots, bind_start, dylib_index, noted_after}
use mac_ify.Fixups.Bind.{slot_written}
use mac_ify.Fixups.Leb.{group_at, uleb_loop, read_uleb128, sleb_loop, read_sleb128}
use mac_ify.Fixups.Bind.{BindState, Flow, next, returned, undefined, stuck, ◌>>=◌, with_uleb}
use mac_ify.Fixups.Bind.{with_sleb}
use mac_ify.Fixups.Bind.{split_zero, do_bind, bind_times, set_symbol, bind_op, bind_step}
use mac_ify.Fixups.Bind.{bind_loop, execute_binds}
use mac_ify.Fixups.Image.{Image, bytes_at, add_u64}
use mac_ify.Fixups.Stubs.{Noted}

-- An operand leaves no more opcodes than there were.
pub uleb_loop-length :
    (p q : List ℕ) (r s v : ℕ) → uleb_loop p r s ≡ some (v, q) → length q ≤ length p
unfolding uleb_loop
uleb_loop-length [] q r s v e = ground arith
uleb_loop-length (b ∷ p) q r s v e =
    ground (arith, uleb_loop-length p q (bit_or r (group_at b s)) (s + 7) v)

pub sleb_loop-length :
    (p q : List ℕ) (r s last v : ℕ) → sleb_loop p r s last ≡ some (v, q) → length q ≤ length p
unfolding sleb_loop
sleb_loop-length [] q r s last v e = ground arith
sleb_loop-length (b ∷ p) q r s last v e =
    ground (arith, sleb_loop-length p q (bit_or r (group_at b s)) (s + 7) b v)

-- What an opcode leads on to has at most `n` opcodes left, and it does not run out of fuel.
data Within (n : ℕ) : Flow → Type 0 where
  goes_on : (s : BindState) → length s.p ≤ n → Within n (next s)
  returns : (rc : Bool) (s : BindState) → Within n (returned rc s)
  faults : Within n undefined

if-Within :
    (n : ℕ) (b : Bool) {f g : Flow} → Within n f → Within n g → Within n (if b then f else g)
if-Within n b = if_elim (Within n) b

>>=-Within :
    (n : ℕ) {f : Flow} {k : BindState → Flow}
    → Within n f
    → ((s : BindState) → length s.p ≤ n → Within n (k s))
    → Within n (f >>= k)
>>=-Within n (goes_on s h) g = g s h
>>=-Within n (returns rc s) g = returns rc s
>>=-Within n faults g = faults

module _ (n : ℕ) (s : BindState) (h : length s.p ≤ n) where
  operand-Within :
      (o : Option (ℕ × List ℕ)) (k : ℕ → BindState → Flow)
      → ((v : ℕ) (q : List ℕ) → o ≡ some (v, q) → length q ≤ length s.p)
      → ((v : ℕ) (s' : BindState) → length s'.p ≤ n → Within n (k v s'))
      → Within n (elim o [ none ↦ undefined | some (v, p) ↦ k v (record s { p = p }) ])
  operand-Within none k shrinks g = faults
  operand-Within (some (v, p)) k shrinks g =
      let smaller = shrinks v p refl in g v (record s { p = p }) (omega arith)

  with_uleb-Within :
      (k : ℕ → BindState → Flow)
      → ((v : ℕ) (s' : BindState) → length s'.p ≤ n → Within n (k v s'))
      → Within n (with_uleb s k)
  unfolding with_uleb read_uleb128
  with_uleb-Within k g =
      operand-Within (uleb_loop s.p 0 0) k (λ v q e. uleb_loop-length s.p q 0 0 v e) g

  with_sleb-Within :
      (k : ℕ → BindState → Flow)
      → ((v : ℕ) (s' : BindState) → length s'.p ≤ n → Within n (k v s'))
      → Within n (with_sleb s k)
  unfolding with_sleb read_sleb128
  with_sleb-Within k g =
      operand-Within (sleb_loop s.p 0 0 0) k (λ v q e. sleb_loop-length s.p q 0 0 0 v e) g

split_zero-length : (p name q : List ℕ) → split_zero p ≡ some (name, q) → length q ≤ length p
unfolding split_zero
split_zero-length [] name q e = cc
split_zero-length (b ∷ p) name q e =
    at (split_zero p) refl (λ name' p' f. split_zero-length p name' p' f)
  where
    at :
        (o : Option (List ℕ × List ℕ))
        → split_zero p ≡ o
        → ((name' p' : List ℕ) → split_zero p ≡ some (name', p') → length p' ≤ length p)
        → length q ≤ suc (length p)
    at none f ih = ground (arith, e, f)
    at (some (name', p')) f ih = ground (arith, e, f, ih name' p' f)

set_symbol-Within : (n : ℕ) (s : BindState) → length s.p ≤ n → Within n (set_symbol s)
unfolding set_symbol
set_symbol-Within n s h = at (split_zero s.p) refl
  where
    at :
        (o : Option (List ℕ × List ℕ))
        → split_zero s.p ≡ o
        → Within n (elim o [
          | none ↦ returned false (record s { p = [] })
          | some (name, p) ↦ next (record s { p = p; symbol_name = take max_name name })
        ])
    at none e = returns false _
    at (some (name, p)) e = let shorter = split_zero-length s.p name p e in goes_on _ (omega arith)

do_bind-Within : (n : ℕ) (img : Image) (s : BindState) → length s.p ≤ n → Within n (do_bind img s)
unfolding do_bind
do_bind-Within n img s h =
    elim (dylib_index img s.ordinal)
      as (λ o. Within n (elim o [
        | none ↦ returned false s
        | some index ↦
            let noted = noted_after img index s in
            if leb img.nsegments s.seg_index
            then returned false (record s { noted = noted })
            else next (record s {
              noted = noted;
              mem = if s.bind_type == 1 then slot_written img index s else s.mem;
              seg_offset = add_u64 s.seg_offset 8;
            })
      ])) [
        | none ↦ returns false s
        | some index ↦ if-Within n (leb img.nsegments s.seg_index) (returns false _) (goes_on _ h)
      ]

bind_times-Within :
    (left n : ℕ) (img : Image) (skip : ℕ) (s : BindState)
    → length s.p ≤ n
    → Within n (bind_times img skip left s)
unfolding bind_times
bind_times-Within zero n img skip s h = goes_on s h
bind_times-Within (suc left) n img skip s h =
    elim (dylib_index img s.ordinal)
      as (λ o. Within n (elim o [
        | none ↦ returned false s
        | some index ↦ bind_times img skip left (record s {
          mem = slot_written img index s;
          seg_offset = add_u64 s.seg_offset (8 + skip);
        })
      ])) [
        | none ↦ returns false s
        | some index ↦
            bind_times-Within left n img skip
              (record s {
                mem = slot_written img index s;
                seg_offset = add_u64 s.seg_offset (8 + skip);
              })
              h
      ]

bind_slots-Within :
    (n : ℕ) (img : Image) (op imm : ℕ) (s : BindState)
    → length s.p ≤ n
    → Within n (bind_slots img op imm s)
unfolding bind_slots
bind_slots-Within n img op imm s h = if-Within n (op == 0x90) (do_bind-Within n img s h) (
    if-Within n (op == 0xA0)
      (>>=-Within n (do_bind-Within n img s h)
        (λ s1 g. with_uleb-Within n s1 g _ (λ v s' g'. goes_on _ g')))
      (if-Within n (op == 0xB0) (>>=-Within n (do_bind-Within n img s h) (λ s1 g. goes_on _ g)) (
        if-Within n (op == 0xC0)
          (with_uleb-Within n s h _ (λ count s1 g.
            with_uleb-Within n s1 g _ (λ skip s2 g'. bind_times-Within count n img skip s2 g')))
          (returns false s))))

bind_op-Within :
    (n : ℕ) (img : Image) (op imm : ℕ) (s : BindState)
    → length s.p ≤ n
    → Within n (bind_op img op imm s)
unfolding bind_op
bind_op-Within n img op imm s h =
    if-Within n (op == 0x00) (if-Within n (length s.p == 0) (returns true s) (goes_on _ h)) (
      if-Within n (op == 0x10) (goes_on _ h) (
        if-Within n (op == 0x20) (with_uleb-Within n s h _ (λ v s' g. goes_on _ g)) (
          if-Within n (op == 0x30) (goes_on _ h) (
            if-Within n (op == 0x40) (set_symbol-Within n s h) (
              if-Within n (op == 0x50) (goes_on _ h) (
                if-Within n (op == 0x60) (with_sleb-Within n s h _ (λ v s' g. goes_on _ g)) (
                  if-Within n (op == 0x70) (with_uleb-Within n s h _ (λ v s' g. goes_on _ g)) (
                    if-Within n (op == 0x80) (with_uleb-Within n s h _ (λ v s' g. goes_on _ g))
                      (bind_slots-Within n img op imm s h)))))))))

bind_step-Within :
    (n : ℕ) (img : Image) (s : BindState) (p : List ℕ)
    → length p ≤ suc n
    → Within n (bind_step img s p)
unfolding bind_step
bind_step-Within n img s [] h = returns true s
bind_step-Within n img s (b ∷ p) h = bind_op-Within n img _ _ (record s { p = p }) (omega arith)

bind_step-nil :
    (img : Image) (s : BindState) (p : List ℕ) → length p ≡ 0 → bind_step img s p ≡ returned true s
unfolding bind_step
bind_step-nil img s [] h = refl
bind_step-nil img s (b ∷ p) h = absurd (omega arith)

returned-ne-stuck : (rc : Bool) (s : BindState) → returned rc s ≢ stuck
returned-ne-stuck rc s e = cc

step-ne-stuck :
    (n : ℕ) {f : Flow} {k : BindState → Flow}
    → Within n f
    → ((s : BindState) → length s.p ≤ n → k s ≢ stuck)
    → (f >>= k) ≢ stuck
step-ne-stuck n (goes_on s h) g = g s h
step-ne-stuck n (returns rc s) g = λ e. cc
step-ne-stuck n faults g = λ e. cc

bind_loop-ne-stuck :
    (fuel : ℕ) (img : Image) (s : BindState) → length s.p < fuel → bind_loop fuel img s ≢ stuck
unfolding bind_loop
bind_loop-ne-stuck zero img s h = absurd (omega arith)
bind_loop-ne-stuck (suc zero) img s h = rw (bind_step-nil img s s.p (omega arith)) (λ e. cc)
bind_loop-ne-stuck (suc (suc fuel)) img s h =
    step-ne-stuck fuel (bind_step-Within fuel img s s.p (omega arith))
      (λ s' g. bind_loop-ne-stuck (suc fuel) img s' (omega arith))

pub length-bytes_at : (n : ℕ) (mem : Memory) (p : ℕ) → length (bytes_at n mem p) ≡ n
unfolding bytes_at
length-bytes_at zero mem p = refl
length-bytes_at (suc n) mem p = omega (arith, length-bytes_at n mem (p + 1))

-- The interpreter of the bind opcodes always ends: on every range of opcodes the fuel suffices.
pub execute_binds-ne-stuck :
    (img : Image) (off size file_data file_size : ℕ) (mem : Memory) (noted : Noted)
    → execute_binds img off size file_data file_size mem noted ≢ stuck
unfolding execute_binds bind_start
execute_binds-ne-stuck img off size file_data file_size mem noted =
    if_elim (λ f. f ≢ stuck) (size == 0) (returned-ne-stuck true _)
      (if_elim (λ f. f ≢ stuck) (ltb file_size ((off + size) % 2 ^ 32)) (returned-ne-stuck false _)
        (bind_loop-ne-stuck (suc size) img
          (bind_start (bytes_at size mem (file_data + off)) mem noted)
          (omega (arith, length-bytes_at size mem (file_data + off)))))
