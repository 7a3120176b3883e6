-- ===== src/Loader/Stdio/Decode.antt =====
-- The places of the getc and putc macros that src/main.c looks for. A displacement of one byte is its pattern.
use mac_ify.Prelude.{ℕ, ◌+◌, ◌-◌, ◌/◌, ◌%◌, ◌^◌, Option, none, some, Bool, true, false, ◌&&◌}
use mac_ify.Prelude.{◌||◌, not, Memory, has, bit_and, ltb, leb, ◌==◌, if◌then◌else◌}

-- `dec_op`; `base` is none for -1.
pub record DecOp : Type 0 where
  pub reg : ℕ
  pub base : Option ℕ
  pub disp : ℕ
  pub len : ℕ

unfoldable pub is_rex : Memory → ℕ → ℕ → Bool
is_rex text n at = ltb at n && bit_and (text at) 0xF0 == 0x40

unfoldable pub with_disp : Memory → ℕ → ℕ → ℕ → ℕ → ℕ → Option DecOp
with_disp text n at p reg base =
    if leb n p
    then none
    else some (record { reg = reg; base = some base; disp = text p; len = p + 1 - at })

-- The part after the modrm byte, which ends at `p`; `r` and `b` are 8 for the bits R and B of the prefix.
unfoldable pub decode_modrm : Memory → ℕ → ℕ → ℕ → ℕ → ℕ → ℕ → Option DecOp
decode_modrm text n at p r b modrm =
    let reg = modrm / 8 % 8 + r in
    let rm = modrm % 8 + b in
    if modrm / 64 == 3
    then (if rm == reg
        then some (record { reg = reg; base = none; disp = 0; len = p - at })
        else none)
    else if not (modrm / 64 == 1)
    then none
    else if modrm % 8 == 4
    then (if leb n p || not (text p / 8 % 8 == 4)
        then none
        else with_disp text n at (p + 1) reg (text p % 8 + b))
    else with_disp text n at p reg rm

unfoldable pub dec_getc_op : Memory → ℕ → ℕ → ℕ → Option DecOp
dec_getc_op text n at opcode =
    let rex = if is_rex text n at then text at else 0 in
    let p = if is_rex text n at then at + 1 else at in
    if leb n p || not (text p == opcode) || leb n (p + 1)
    then none
    else decode_modrm text n at (p + 2) (if has rex 4 then 8 else 0) (if has rex 1 then 8 else 0)
        (text (p + 1))

unfoldable pub base_is : Option ℕ → ℕ → Bool
base_is none b = false
base_is (some a) b = a == b

-- What is rewritten for a getc macro: the store, and the branch.
pub record GetcSite : Type 0 where
  pub store_at : ℕ
  pub store_len : ℕ
  pub jmp_off : ℕ
  pub is_forced : Bool
  pub jmp_len : ℕ

-- `force_jmp` and `jmp_len`.
unfoldable pub jump_form : Memory → ℕ → ℕ → Option (Bool × ℕ)
jump_form text size at =
    if leb size (at + 1)
    then none
    else if text at == 0x7e
    then some (true, 2)
    else if text at == 0x7f
    then some (false, 2)
    else if text at == 0x0f && ltb (at + 5) size && (text (at + 1) == 0x8e || text (at + 1) == 0x8f)
    then some (text (at + 1) == 0x8e, 6)
    else none

unfoldable pub getc_jump : Memory → ℕ → ℕ → DecOp → ℕ → Option GetcSite
getc_jump text size store_at st jmp_off = elim (jump_form text size jmp_off) [
  | none ↦ none
  | some form ↦ some (record {
    store_at = store_at;
    store_len = st.len;
    jmp_off = jmp_off;
    is_forced = form.0;
    jmp_len = form.1;
  })
]

-- `test rL, rL`
unfoldable pub getc_test : Memory → ℕ → ℕ → DecOp → ℕ → Option GetcSite
getc_test text size store_at st l =
    let at = store_at + st.len in
    elim (dec_getc_op text size at 0x85) [
      | none ↦ none
      | some ts ↦ elim ts.base [
        | some b ↦ none
        | none ↦ if ts.reg == l then getc_jump text size store_at st (at + ts.len) else none
      ]
    ]

-- `mov [rB+8], rD`
unfoldable pub getc_store : Memory → ℕ → ℕ → ℕ → ℕ → ℕ → Option GetcSite
getc_store text size store_at b d l = elim (dec_getc_op text size store_at 0x89) [
  | none ↦ none
  | some st ↦
      if st.disp == 8 && base_is st.base b && st.reg == d
      then getc_test text size store_at st l
      else none
]

-- `mov rL, [rB+8]` of `k` bytes before `lea rD, [rL-1]` at `i`.
unfoldable pub getc_load : Memory → ℕ → ℕ → ℕ → ℕ → DecOp → Option GetcSite
getc_load text size i k l lea =
    if ltb i k then none else elim (dec_getc_op text size (i - k) 0x8b) [
      | none ↦ none
      | some ld ↦ elim ld.base [
        | none ↦ none
        | some b ↦
            if ld.len == k && ld.disp == 8 && ld.reg == l
            then getc_store text size (i + lea.len) b lea.reg l
            else none
      ]
    ]

abbrev pub or_site : Option GetcSite → Option GetcSite → Option GetcSite
or_site none s = s
or_site (some r) s = some r

-- -1 is 0xFF.
unfoldable pub getc_site : Memory → ℕ → ℕ → Option GetcSite
getc_site text size i = elim (dec_getc_op text size i 0x8d) [
  | none ↦ none
  | some lea ↦ elim lea.base [
    | none ↦ none
    | some l ↦
        if lea.disp == 0xFF
        then or_site (getc_load text size i 5 l lea)
            (or_site (getc_load text size i 4 l lea) (getc_load text size i 3 l lea))
        else none
  ]
]

-- `slow`, an offset of 64 bits from the text's start, and `rel`.
pub record PutcSite : Type 0 where
  pub slow : ℕ
  pub rel : ℕ

-- `p + (int8_t)b`
unfoldable pub plus_disp8 : ℕ → ℕ → ℕ
plus_disp8 p b = if ltb b 128 then (p + b) % 2 ^ 64 else (p + b + 2 ^ 64 - 256) % 2 ^ 64

unfoldable pub has_mod1 : ℕ → Bool
has_mod1 modrm = bit_and modrm 0xC0 == 0x40

-- The four instructions before the branch at `i + 11`.
unfoldable pub putc_prologue : Memory → ℕ → Bool
putc_prologue text i =
    let r1 = text (i + 1) / 8 % 8 in
    let r2 = text (i + 4) / 8 % 8 in
    text i == 0x8b
    && has_mod1 (text (i + 1))
    && not (text (i + 1) % 8 == 4)
    && text (i + 2) == 0x0c
    && text (i + 3) == 0x8d
    && has_mod1 (text (i + 4))
    && text (i + 4) % 8 == r1
    && text (i + 5) == 0xff
    && text (i + 6) == 0x89
    && has_mod1 (text (i + 7))
    && text (i + 7) / 8 % 8 == r2
    && text (i + 7) % 8 == text (i + 1) % 8
    && text (i + 8) == 0x0c
    && text (i + 9) == 0x85
    && bit_and (text (i + 10)) 0xC0 == 0xC0
    && text (i + 10) / 8 % 8 == r1
    && text (i + 10) % 8 == r1

-- Where the check at `p` goes to `__swbuf`, in the shapes A and C.
unfoldable pub slow_check : Memory → ℕ → Option ℕ
slow_check text p =
    if text p == 0x74
    then some (plus_disp8 (p + 2) (text (p + 1)))
    else if text p == 0x3c && text (p + 1) == 0x0a && text (p + 2) == 0x74
    then some (plus_disp8 (p + 4) (text (p + 3)))
    else if text p == 0x3b && text (p + 3) == 0x7e
    then some (plus_disp8 (p + 5) (text (p + 4)))
    else if text p == 0x3d && text (p + 5) == 0x7e
    then some (plus_disp8 (p + 7) (text (p + 6)))
    else none

unfoldable pub slow_label : Memory → ℕ → Option ℕ
slow_label text i =
    if text (i + 11) == 0x7e
    then some (plus_disp8 (i + 13) (text (i + 12)))
    else if text (i + 11) == 0x7f
    then slow_check text (i + 13)
    else none

-- `mov edi, imm32` or a `movsbl` to edi.
unfoldable pub loads_char : Memory → ℕ → Bool
loads_char text slow = text slow == 0xbf || (text slow == 0x0f && text (slow + 1) == 0xbe)

-- `(int8_t)(slow - (text + i + 13))`
unfoldable pub rel8 : ℕ → ℕ → ℕ
rel8 slow from = (slow + 2 ^ 64 - from) % 256

unfoldable pub putc_site : Memory → ℕ → ℕ → Option PutcSite
putc_site text size i = if not (putc_prologue text i) then none else elim (slow_label text i) [
  | none ↦ none
  | some slow ↦
      if ltb size (slow + 2)
        || not (slow == plus_disp8 (i + 13) (rel8 slow (i + 13)))
        || not (loads_char text slow)
      then none
      else some (record { slow = slow; rel = rel8 slow (i + 13) })
]
