-- ===== src/Loader/Stdio/Macros.antt =====
-- The instructions of a getc macro that src/main.c has found.
use mathlib.Core.Path.{subst}
use mac_ify.Loader.Stdio.Decode.{DecOp, GetcSite, jump_form, getc_jump, getc_test, getc_store}
use mac_ify.Loader.Stdio.Decode.{getc_load, getc_site, dec_getc_op, base_is, or_site}
use mac_ify.Loader.Stdio.Encoding.{IsMemory, IsTest, dec_getc_op-IsMemory, dec_getc_op-IsTest}
use mac_ify.Loader.Stdio.Sites.{or_site-cases}
use mac_ify.Prelude.{ℕ, ◌+◌, ◌-◌, ◌≤◌, ◌≡◌, inl, inr, sym, arith, some}
use mac_ify.Prelude.{◌&&◌, Memory, ltb, ◌==◌, Bool-cases, Option-cases}

-- The macro around the `lea` at `i`: the count of the stream, at `[rB+8]`, is loaded, and stored again one
-- less; the count is tested, and the branch follows.
pub record IsMacro (text : Memory) (i : ℕ) (s : GetcSite) : Type 0 where
  pub b : ℕ
  pub l : ℕ
  pub d : ℕ
  pub k : ℕ
  pub lea_len : ℕ
  pub test_len : ℕ
  pub load_room : k ≤ i
  pub load : IsMemory text (i - k) 0x8b l b 8 k
  pub lea : IsMemory text i 0x8d d l 0xFF lea_len
  pub behind : s.store_at ≡ i + lea_len
  pub store : IsMemory text s.store_at 0x89 d b 8 s.store_len
  pub test : IsTest text (s.store_at + s.store_len) l test_len
  pub branch : s.jmp_off ≡ s.store_at + s.store_len + test_len

triple :
    {a b c a' b' c' : ℕ} → a ≡ a' → b ≡ b' → c ≡ c' → ◌≡◌ {A = ℕ × ℕ × ℕ} (a, b, c) (a', b', c')
triple p q r = cc

-- The store and the test of a macro.
record IsEnd (text : Memory) (store_at b d l : ℕ) (s : GetcSite) : Type 0 where
  pub n : ℕ
  pub place : s.store_at ≡ store_at
  pub store : IsMemory text store_at 0x89 d b 8 s.store_len
  pub test : IsTest text (store_at + s.store_len) l n
  pub branch : s.jmp_off ≡ store_at + s.store_len + n

getc_jump-fields :
    (text : Memory) (size store_at : ℕ) (st : DecOp) (jmp_off : ℕ) (s : GetcSite)
    → getc_jump text size store_at st jmp_off ≡ some s
    → (s.store_at ≡ store_at) × (s.store_len ≡ st.len) × (s.jmp_off ≡ jmp_off)
unfolding getc_jump
getc_jump-fields text size store_at st jmp_off s h =
    elim (Option-cases (jump_form text size jmp_off)) [
      | inl none_there ↦ absurd (ground (arith, none_there))
      | inr (form, found) ↦ ground (arith, found)
    ]

getc_test-fields :
    (text : Memory) (size store_at : ℕ) (st : DecOp) (l : ℕ) (s : GetcSite)
    → getc_test text size store_at st l ≡ some s
    → (n : ℕ) × (s.store_at ≡ store_at)
      × (s.store_len ≡ st.len)
      × IsTest text (store_at + st.len) l n
      × (s.jmp_off ≡ store_at + st.len + n)
unfolding getc_test
getc_test-fields text size store_at st l s h =
    elim (Option-cases (dec_getc_op text size (store_at + st.len) 0x85)) [
      | inl other ↦ absurd (ground (arith, other))
      | inr (ts, found) ↦ elim (Option-cases ts.base) [
        | inr (b, memory) ↦ absurd (ground (arith, found, memory))
        | inl register ↦ elim (Bool-cases (ts.reg == l)) [
          | inr other ↦ absurd (ground (arith, found, register, other))
          | inl same ↦
              let (p, q, r) =
                getc_jump-fields text size store_at st (store_at + st.len + ts.len) s
                  (ground (arith, found, register, same)) in
              let reg : l ≡ ts.reg = ground (arith, same) in
              (
                ts.len,
                p,
                q,
                rw reg (dec_getc_op-IsTest text size (store_at + st.len) ts found register),
                r,
              )
        ]
      ]
    ]

getc_store-IsEnd :
    (text : Memory) (size store_at b d l : ℕ) (s : GetcSite)
    → getc_store text size store_at b d l ≡ some s
    → IsEnd text store_at b d l s
unfolding getc_store base_is
getc_store-IsEnd text size store_at b d l s h =
    elim (Option-cases (dec_getc_op text size store_at 0x89)) [
      | inl other ↦ absurd (ground (arith, other))
      | inr (st, found) ↦ elim (Bool-cases (st.disp == 8 && base_is st.base b && st.reg == d)) [
        | inr other ↦ absurd (ground (arith, found, other))
        | inl fits ↦
            let (n, p, q, t, j) =
              getc_test-fields text size store_at st l s (ground (arith, found, fits)) in
            let reg : d ≡ st.reg = ground (arith, fits) in
            let disp : 8 ≡ st.disp = ground (arith, fits) in
            let base : st.base ≡ some b = ground (arith, fits) in
            record {
              n = n;
              place = p;
              store =
                  rw (q, reg, disp) (dec_getc_op-IsMemory text size store_at 0x89 b st found base);
              test = rw q t;
              branch = rw q j;
            }
      ]
    ]

getc_load-IsMacro :
    (text : Memory) (size i k l : ℕ) (lea : DecOp) (s : GetcSite)
    → dec_getc_op text size i 0x8d ≡ some lea
    → lea.base ≡ some l
    → lea.disp ≡ 0xFF
    → getc_load text size i k l lea ≡ some s
    → IsMacro text i s
unfolding getc_load
getc_load-IsMacro text size i k l lea s lea_found of_l minus_one h = elim (Bool-cases (ltb i k)) [
  | inl early ↦ absurd (ground (arith, early))
  | inr room ↦ elim (Option-cases (dec_getc_op text size (i - k) 0x8b)) [
    | inl other ↦ absurd (ground (arith, room, other))
    | inr (ld, found) ↦ elim (Option-cases ld.base) [
      | inl register ↦ absurd (ground (arith, room, found, register))
      | inr (b, memory) ↦ elim (Bool-cases (ld.len == k && ld.disp == 8 && ld.reg == l)) [
        | inr other ↦ absurd (ground (arith, room, found, memory, other))
        | inl fits ↦
            let rest =
              getc_store-IsEnd text size (i + lea.len) b lea.reg l s
                (ground (arith, room, found, memory, fits)) in
            let len : k ≡ ld.len = ground (arith, fits) in
            let reg : l ≡ ld.reg = ground (arith, fits) in
            let disp : 8 ≡ ld.disp = ground (arith, fits) in
            let loads = dec_getc_op-IsMemory text size (i - k) 0x8b b ld found memory in
            let subtracts = dec_getc_op-IsMemory text size i 0x8d l lea lea_found of_l in
            record {
              b = b;
              l = l;
              d = lea.reg;
              k = k;
              lea_len = lea.len;
              test_len = rest.n;
              load_room = ground (arith, room);
              load =
                  subst (λ (v : ℕ × ℕ × ℕ). IsMemory text (i - k) 0x8b v.0 b v.1 v.2)
                    (triple (sym reg) (sym disp) (sym len)) loads;
              lea = subst (λ (v : ℕ). IsMemory text i 0x8d lea.reg l v lea.len) minus_one subtracts;
              behind = rest.place;
              store = rw rest.place rest.store;
              test = rw rest.place rest.test;
              branch = rw rest.place rest.branch;
            }
      ]
    ]
  ]
]

pub getc_site-IsMacro :
    (text : Memory) (size i : ℕ) (s : GetcSite) → getc_site text size i ≡ some s → IsMacro text i s
unfolding getc_site
getc_site-IsMacro text size i s h = elim (Option-cases (dec_getc_op text size i 0x8d)) [
  | inl other ↦ absurd (ground (arith, other))
  | inr (lea, found) ↦ elim (Option-cases lea.base) [
    | inl register ↦ absurd (ground (arith, found, register))
    | inr (l, memory) ↦ elim (Bool-cases (lea.disp == 0xFF)) [
      | inr other ↦ absurd (ground (arith, found, memory, other))
      | inl minus_one ↦
          let disp : lea.disp ≡ 0xFF = ground (arith, minus_one) in
          let loads = λ (k : ℕ). getc_load text size i k l lea in
          let sited = λ (k : ℕ). getc_load-IsMacro text size i k l lea s found memory disp in
          elim (or_site-cases (loads 5) (or_site (loads 4) (loads 3)) s
            (ground (arith, found, memory, minus_one))) [
              | inl five ↦ sited 5 five
              | inr less ↦ elim (or_site-cases (loads 4) (loads 3) s less) [
                | inl four ↦ sited 4 four
                | inr three ↦ sited 3 three
              ]
            ]
    ]
  ]
]
