-- ===== src/Dylib/Load/Frame.antt =====
-- What `macho_load_dylib` of src/macho_dylib.c leaves of the table of the libraries.
use mac_ify.Dylib.Commands.{File, filetype_of, magic_of}
use mac_ify.Dylib.Commands.{mh_magic_64}
use mac_ify.Dylib.Binds.{DylibBindState}
use mac_ify.Dylib.Chains.{Fixing}
use mac_ify.Dylib.Collect.{Collected}
use mac_ify.Dylib.Image.{Dylib}
use mac_ify.Dylib.Load.{LoadedDylib, Loader, Host, Loading, done, undefined, stuck, after}
use mac_ify.Dylib.Load.{set_slot}
use mac_ify.Dylib.Load.{is_loaded, load_deps, with_mem, after_rebases, after_binds}
use mac_ify.Dylib.Load.{after_chains, bind_range, bind_ranges, rebase_range, chained_range}
use mac_ify.Dylib.Load.{fix_dylib}
use mac_ify.Dylib.Load.{register_exports, load_image, load_mapped, put_slot, add_range, load_read}
use mac_ify.Dylib.Load.{macho_load_dylib, max_macho_dylibs}
use mac_ify.Dylib.Rebases.{SlideState}
use mac_ify.Dylib.Run.{Run, next, returned}
use mac_ify.Dylib.Segments.{map_dylib_segments}
use mac_ify.Prelude.{ℕ, zero, suc, ◌^◌, ◌≤◌, ◌<◌, ◌≡◌, refl, arith, List, Option, none, some}
use mac_ify.Prelude.{Bool, true, false, not, ◌&&◌, if_elim, leb, ltb, ◌==◌, Memory}

-- The first `n` slots are those of `old`, and the table counts them.
pub record Holds (n : ℕ) (old : ℕ → LoadedDylib) (st : Loader) : Type 0 where
  pub counted : n ≤ st.count
  pub same : (i : ℕ) → i < n → st.slots i ≡ old i

-- So where the loading leads on.
pub data Framed (n : ℕ) (old : ℕ → LoadedDylib) : Loading → Type 0 where
  framed : (rc : Bool) (st : Loader) → Holds n old st → Framed n old (done rc st)
  faulty : Framed n old undefined
  endless : Framed n old stuck

module _ (n : ℕ) (old : ℕ → LoadedDylib) where
  after-Framed :
      {o : Loading} {k : Loader → Loading}
      → Framed n old o
      → ((st : Loader) → Holds n old st → Framed n old (k st))
      → Framed n old (after o k)
  unfolding after
  after-Framed (framed rc st h) g = g st h
  after-Framed faulty g = faulty
  after-Framed endless g = endless

  with_mem-Holds : (st : Loader) (mem : Memory) → Holds n old st → Holds n old (with_mem st mem)
  with_mem-Holds st mem h = record { counted = h.counted; same = h.same }

  set_slot-Holds :
      (idx : ℕ) (slot : LoadedDylib) (st : Loader)
      → n ≤ idx
      → Holds n old st
      → Holds n old (set_slot idx slot st)
  unfolding set_slot
  set_slot-Holds idx slot st le h = record {
    counted = h.counted;
    same = λ i lt. ground (arith, h.same i lt);
  }

  after_rebases-Framed :
      (st : Loader) (r : Run SlideState) → Holds n old st → Framed n old (after_rebases st r)
  after_rebases-Framed st (next s) h = endless
  after_rebases-Framed st (returned s) h = framed true _ (with_mem-Holds st s.mem h)
  after_rebases-Framed st mac_ify.Dylib.Run.undefined h = faulty
  after_rebases-Framed st mac_ify.Dylib.Run.stuck h = endless

  after_binds-Framed :
      (st : Loader) (r : Run DylibBindState) → Holds n old st → Framed n old (after_binds st r)
  after_binds-Framed st (next s) h = endless
  after_binds-Framed st (returned s) h = framed true _ (with_mem-Holds st s.mem h)
  after_binds-Framed st mac_ify.Dylib.Run.undefined h = faulty
  after_binds-Framed st mac_ify.Dylib.Run.stuck h = endless

  after_chains-Framed :
      (st : Loader) (o : Fixing) → Holds n old st → Framed n old (after_chains st o)
  after_chains-Framed st none h = faulty
  after_chains-Framed st (some mem) h = framed true _ (with_mem-Holds st mem h)

  bind_range-Framed :
      (d : Dylib) (file : File) (file_size off size : ℕ) (st : Loader)
      → Holds n old st
      → Framed n old (bind_range d file file_size off size st)
  unfolding bind_range
  bind_range-Framed d file file_size off size st h =
      if_elim (Framed n old) (ltb 0 off && ltb 0 size) (after_binds-Framed st _ h)
        (framed true st h)

  bind_ranges-Framed :
      (d : Dylib) (file : File) (file_size : ℕ) (o : Option ℕ) (st : Loader)
      → Holds n old st
      → Framed n old (bind_ranges d file file_size o st)
  unfolding bind_ranges
  bind_ranges-Framed d file file_size none st h = framed true st h
  bind_ranges-Framed d file file_size (some lc) st h =
      after-Framed (bind_range-Framed d file file_size _ _ st h)
        (λ st' h'. bind_range-Framed d file file_size _ _ st' h')

  rebase_range-Framed :
      (d : Dylib) (file : File) (c : Collected) (st : Loader)
      → Holds n old st
      → Framed n old (rebase_range d file c st)
  unfolding rebase_range
  rebase_range-Framed d file c st h =
      if_elim (Framed n old) (ltb 0 c.rebase_off && ltb 0 c.rebase_size)
        (after_rebases-Framed st _ h) (framed true st h)

  chained_range-Framed :
      (h : Host) (d : Dylib) (file : File) (file_size : ℕ) (c : Collected) (st : Loader)
      → Holds n old st
      → Framed n old (chained_range h d file file_size c st)
  unfolding chained_range
  chained_range-Framed h d file file_size c st k =
      if_elim (Framed n old) (ltb 0 c.chained_off && ltb 0 c.chained_size)
        (after_chains-Framed st _ k) (framed true st k)

  fix_dylib-Framed :
      (h : Host) (file : File) (file_size slide : ℕ) (st : Loader)
      → Holds n old st
      → Framed n old (fix_dylib h file file_size slide st)
  unfolding fix_dylib
  fix_dylib-Framed h file file_size slide st k =
      after-Framed (rebase_range-Framed _ file _ st k) (λ st1 k1.
        after-Framed (chained_range-Framed h _ file file_size _ st1 k1) (λ st2 k2.
          after-Framed (bind_ranges-Framed _ file file_size _ st2 k2)
            (λ st3 k3. framed true _ (with_mem-Holds st3 _ k3))))

  load_deps-Framed :
      (load_one : List ℕ → Loader → Loading) (h : Host) (file : File) (dir : List ℕ) (left lc : ℕ)
      (st : Loader)
      → ((p : List ℕ) (s : Loader) → Holds n old s → Framed n old (load_one p s))
      → Holds n old st
      → Framed n old (load_deps load_one h file dir left lc st)
  unfolding load_deps
  load_deps-Framed load_one h file dir zero lc st g k = framed true st k
  load_deps-Framed load_one h file dir (suc left) lc st g k =
      after-Framed (if_elim (Framed n old) _ (g _ st k) (framed true st k))
        (λ st' k'. load_deps-Framed load_one h file dir left _ st' g k')

  register_exports-Holds :
      (file : File) (idx : ℕ) (st : Loader)
      → n ≤ idx
      → Holds n old st
      → Holds n old (register_exports file idx st)
  unfolding register_exports
  register_exports-Holds file idx st le h =
      let set = set_slot-Holds idx _ st le h in
      record { counted = omega (arith, h.counted); same = set.same }

  put_slot-Holds :
      (idx : ℕ) (path : List ℕ) (slide : ℕ) (mem : Memory) (st : Loader)
      → n ≤ idx
      → Holds n old st
      → Holds n old (put_slot idx path slide mem st)
  put_slot-Holds idx path slide mem st le h = with_mem-Holds _ mem (set_slot-Holds idx _ st le h)

  add_range-Holds :
      (h : Host) (file : File) (slide : ℕ) (st : Loader)
      → Holds n old st
      → Holds n old (add_range h file slide st)
  unfolding add_range
  add_range-Holds h file slide st k = record { counted = k.counted; same = k.same }

  load_image-Framed :
      (load_one : List ℕ → Loader → Loading) (h : Host) (path : List ℕ) (file : File)
      (file_size : ℕ) (st : Loader)
      → ((p : List ℕ) (s : Loader) → Holds n old s → Framed n old (load_one p s))
      → Holds n old st
      → Framed n old (load_image load_one h path file file_size st)
  unfolding load_image load_mapped
  load_image-Framed load_one h path file file_size st g k =
      let (slide, mapped) = map_dylib_segments (h.mmap st.mem) file st.mem in
      if_elim (Framed n old) (leb (2 ^ 63) slide)
        (framed false _ (put_slot-Holds st.count path 0 mapped.mem st k.counted k))
        (after-Framed
          (load_deps-Framed load_one h file _ _ _ _ g (
            add_range-Holds h file slide _
              (put_slot-Holds st.count path slide mapped.mem st k.counted k)))
          (λ st' k'.
            fix_dylib-Framed h file file_size slide _
              (register_exports-Holds file st.count st' k.counted k')))

  load_read-Framed :
      (load_one : List ℕ → Loader → Loading) (h : Host) (path : List ℕ) (o : Option (File × ℕ))
      (st : Loader)
      → ((p : List ℕ) (s : Loader) → Holds n old s → Framed n old (load_one p s))
      → Holds n old st
      → Framed n old (load_read load_one h path o st)
  unfolding load_read
  load_read-Framed load_one h path none st g k = framed false st k
  load_read-Framed load_one h path (some (file, file_size)) st g k =
      if_elim (Framed n old) (not (magic_of file == mh_magic_64)) (framed false st k) (
        if_elim (Framed n old) (not (filetype_of file == 6)) (framed false st k)
          (load_image-Framed load_one h path file file_size st g k))

  macho_load_dylib-Holds :
      (fuel : ℕ) (h : Host) (path : List ℕ) (st : Loader)
      → Holds n old st
      → Framed n old (macho_load_dylib fuel h path st)
  unfolding macho_load_dylib
  macho_load_dylib-Holds zero h path st k = endless
  macho_load_dylib-Holds (suc fuel) h path st k =
      if_elim (Framed n old) (leb max_macho_dylibs st.count) (framed false st k) (
        if_elim (Framed n old) (is_loaded st.slots st.count path) (framed true st k) (
          load_read-Framed _ h path (h.load_file path) st
            (λ p s k'. macho_load_dylib-Holds fuel h p s k') k))

-- Loading a library, with all that it depends on, leaves every library that is loaded already in its
-- slot as it was, and never takes one off the table, whether it succeeds or not.
pub macho_load_dylib-Framed :
    (fuel : ℕ) (h : Host) (path : List ℕ) (st : Loader)
    → Framed st.count st.slots (macho_load_dylib fuel h path st)
macho_load_dylib-Framed fuel h path st =
    macho_load_dylib-Holds st.count st.slots fuel h path st
      (record { counted = omega arith; same = λ i lt. refl })
