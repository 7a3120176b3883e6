-- ===== src/Loader/Stdio/Sites.antt =====
-- What src/main.c has found when it has found a getc macro.
use mac_ify.Loader.Stdio.Decode.{DecOp, GetcSite, jump_form, getc_jump, getc_test, getc_store}
use mac_ify.Loader.Stdio.Decode.{getc_load, getc_site, dec_getc_op, base_is, or_site}
use mac_ify.Prelude.{ℕ, ◌+◌, ◌-◌, ◌≤◌, ◌≡◌, ◌⊎◌, inl, inr, arith, Option, none, some, Bool, true}
use mac_ify.Prelude.{false, ◌&&◌, Memory, ltb, ◌==◌, Bool-cases, Option-cases}

-- The branch of a site is one of the four forms, and comes after the store.
pub record IsSite (text : Memory) (size : ℕ) (s : GetcSite) : Type 0 where
  pub form : jump_form text size s.jmp_off ≡ some (s.is_forced, s.jmp_len)
  pub after_store : s.store_at + s.store_len ≤ s.jmp_off

getc_jump-IsSite :
    (text : Memory) (size store_at : ℕ) (st : DecOp) (jmp_off : ℕ) (s : GetcSite)
    → store_at + st.len ≤ jmp_off
    → getc_jump text size store_at st jmp_off ≡ some s
    → IsSite text size s
unfolding getc_jump
getc_jump-IsSite text size store_at st jmp_off s after h =
    elim (Option-cases (jump_form text size jmp_off)) [
      | inl none_there ↦ absurd (ground (arith, none_there))
      | inr (form, found) ↦ record {
        form = ground (arith, found);
        after_store = ground (arith, found);
      }
    ]

getc_test-IsSite :
    (text : Memory) (size store_at : ℕ) (st : DecOp) (l : ℕ) (s : GetcSite)
    → getc_test text size store_at st l ≡ some s
    → IsSite text size s
unfolding getc_test
getc_test-IsSite text size store_at st l s h =
    elim (Option-cases (dec_getc_op text size (store_at + st.len) 0x85)) [
      | inl other ↦ absurd (ground (arith, other))
      | inr (ts, found) ↦ elim (Option-cases ts.base) [
        | inr (b, memory) ↦ absurd (ground (arith, found, memory))
        | inl register ↦ elim (Bool-cases (ts.reg == l)) [
          | inr other ↦ absurd (ground (arith, found, register, other))
          | inl same ↦
              getc_jump-IsSite text size store_at st (store_at + st.len + ts.len) s (omega arith)
                (ground (arith, found, register, same))
        ]
      ]
    ]

getc_store-IsSite :
    (text : Memory) (size store_at b d l : ℕ) (s : GetcSite)
    → getc_store text size store_at b d l ≡ some s
    → IsSite text size s
unfolding getc_store
getc_store-IsSite text size store_at b d l s h =
    elim (Option-cases (dec_getc_op text size store_at 0x89)) [
      | inl other ↦ absurd (ground (arith, other))
      | inr (st, found) ↦ elim (Bool-cases (st.disp == 8 && base_is st.base b && st.reg == d)) [
        | inr other ↦ absurd (ground (arith, found, other))
        | inl store ↦ getc_test-IsSite text size store_at st l s (ground (arith, found, store))
      ]
    ]

getc_load-IsSite :
    (text : Memory) (size i k l : ℕ) (lea : DecOp) (s : GetcSite)
    → getc_load text size i k l lea ≡ some s
    → IsSite text size s
unfolding getc_load
getc_load-IsSite text size i k l lea s h = elim (Bool-cases (ltb i k)) [
  | inl early ↦ absurd (ground (arith, early))
  | inr room ↦ elim (Option-cases (dec_getc_op text size (i - k) 0x8b)) [
    | inl other ↦ absurd (ground (arith, room, other))
    | inr (ld, found) ↦ elim (Option-cases ld.base) [
      | inl register ↦ absurd (ground (arith, room, found, register))
      | inr (b, memory) ↦ elim (Bool-cases (ld.len == k && ld.disp == 8 && ld.reg == l)) [
        | inr other ↦ absurd (ground (arith, room, found, memory, other))
        | inl load ↦
            getc_store-IsSite text size (i + lea.len) b lea.reg l s
              (ground (arith, room, found, memory, load))
      ]
    ]
  ]
]

pub or_site-cases :
    (a b : Option GetcSite) (s : GetcSite) → or_site a b ≡ some s → (a ≡ some s) ⊎ (b ≡ some s)
or_site-cases none b s h = inr h
or_site-cases (some r) b s h = inl h

pub getc_site-IsSite :
    (text : Memory) (size i : ℕ) (s : GetcSite)
    → getc_site text size i ≡ some s
    → IsSite text size s
unfolding getc_site
getc_site-IsSite text size i s h = elim (Option-cases (dec_getc_op text size i 0x8d)) [
  | inl other ↦ absurd (ground (arith, other))
  | inr (lea, found) ↦ elim (Option-cases lea.base) [
    | inl register ↦ absurd (ground (arith, found, register))
    | inr (l, memory) ↦ elim (Bool-cases (lea.disp == 0xFF)) [
      | inr other ↦ absurd (ground (arith, found, memory, other))
      | inl minus_one ↦
          let loads = λ (k : ℕ). getc_load text size i k l lea in
          let sited = λ (k : ℕ). getc_load-IsSite text size i k l lea s in
          elim (or_site-cases (loads 5) (or_site (loads 4) (loads 3)) s
            (ground (arith, found, memory, minus_one))) [
              | inl five ↦ sited 5 five
              | inr less ↦ elim (or_site-cases (loads 4) (loads 3) s less) [
                | inl four ↦ sited 4 four
                | inr three ↦ sited 3 three
              ]
            ]
    ]
  ]
]

-- A short or a near jump on "less or equal" (forced) or "greater", within the text.
pub jump_form-cases :
    (text : Memory) (size at : ℕ) (f : Bool) (n : ℕ)
    → jump_form text size at ≡ some (f, n)
    → ((text at ≡ 0x7e) × (f ≡ true) × (n ≡ 2) × (at + 2 ≤ size))
      ⊎ ((text at ≡ 0x7f) × (f ≡ false) × (n ≡ 2) × (at + 2 ≤ size))
      ⊎ ((text at ≡ 0x0f) × (text (at + 1) ≡ 0x8e) × (f ≡ true) × (n ≡ 6) × (at + 6 ≤ size))
      ⊎ ((text at ≡ 0x0f) × (text (at + 1) ≡ 0x8f) × (f ≡ false) × (n ≡ 6) × (at + 6 ≤ size))
unfolding jump_form
jump_form-cases text size at f n h = ground arith
