-- ===== src/Tests/Pinned.antt =====
-- common/common_libbpf.c in a system of pinned files.
use anti_dos.Base.{
  ℕ, suc, ◌+◌, ◌-◌, ◌≡◌, refl, ap, true, false, [], ◌∷◌, Option, none, some, ℤ, pos, negsuc, ◌==◌,
  if◌then◌else◌, arith, codes, inl,
}
use anti_dos.Maps.Kernel.{Text}
use anti_dos.Pinned.{Attr, Objects, LoadResult, bpf_prog_load_xattr_maps}
use anti_dos.UpdateList.{same_text}
use anti_dos.Pinned.Files.{PinFiles, same_text_refl}
use anti_dos.Pinned.Shared.{bpf_prog_load_xattr_maps_lem}

record Disk : Type 0 where
  file : Text → Option ℕ
  behind : ℕ → Option ℕ

abbrev fd_of : Option ℕ → ℤ
fd_of none = negsuc 1
fd_of (some m) = pos (suc m)

abbrev number : Option ℕ → ℕ
number none = 0
number (some m) = m

abbrev made : ℕ → Option ℕ → Option ℕ
made j none = some (100 + j)
made j (some m) = some m

abbrev reuse : ℕ → ℕ → Disk → ℤ × Disk
reuse i n s = (pos 0, record s { behind = λ j. if j == i then some (n - 1) else s.behind j })

abbrev pin_by : ℕ → Text → Option ℕ → Disk → ℤ × Disk
pin_by i q none s = (pos 0, record s { file = λ p. if same_text p q then s.behind i else s.file p })
pin_by i q (some m) s = (negsuc 16, s)

pin_by-free :
    (i : ℕ) (q : Text) (o : Option ℕ) (s : Disk)
    → o ≡ none
    → ((pin_by i q o s).0 ≡ pos 0) × ((pin_by i q o s).1.file q ≡ s.behind i)
pin_by-free i q none s h = (refl, rw (same_text_refl q) refl)
pin_by-free i q (some m) s h = cc

pin_by-other :
    (i : ℕ) (q p : Text) (o : Option ℕ) (s : Disk)
    → same_text p q ≡ false
    → (pin_by i q o s).1.file p ≡ s.file p
pin_by-other i q p none s h = rw h refl
pin_by-other i q p (some m) s h = refl

pin_by-behind : (i : ℕ) (q : Text) (o : Option ℕ) (s : Disk) → (pin_by i q o s).1.behind ≡ s.behind
pin_by-behind i q none s = refl
pin_by-behind i q (some m) s = refl

abbrev disks : Objects
disks = record {
  Prog = ℕ;
  St = Disk;
  open_xattr = λ file kind s. some ((7 ∷ [], codes "first" ∷ codes "stats" ∷ []), s);
  set_prog_ifindex = λ p n s. s;
  set_type = λ p n s. s;
  set_expected_attach_type = λ p n s. s;
  is_offload_neutral = λ i s. true;
  set_map_ifindex = λ i n s. s;
  obj_get = λ q s. (fd_of (s.file q), s);
  reuse_fd = reuse;
  object_load = λ s. (pos 0, record s { behind = λ j. made j (s.behind j) });
  map_pin = λ i q s. pin_by i q (s.file q) s;
  map_fd_of = λ i s. pos 9;
  program_fd = λ p s. pos p;
  object_close = λ s. s;
}

disk_files : PinFiles disks
disk_files = record {
  files = λ s. s.file;
  backing = λ s. s.behind;
  opened = λ q s. number (s.file q);
  errno = λ q s. 1;
  fresh = λ s j. 100 + j;
  open_hit = λ q s m h. rw h refl;
  open_miss = λ q s h. rw h refl;
  open_files = λ q p s. refl;
  open_backing = λ q s j. refl;
  reuse_files = λ i n s p. refl;
  reuse_other = λ i n s j h. rw h refl;
  reuse_backing = λ q i s m h. ground (arith, h);
  ifindex_files = λ i n s p. refl;
  ifindex_backing = λ i n s j. refl;
  load_files = λ s p. refl;
  load_old = λ s j m h. rw h refl;
  load_new = λ s j h. rw h refl;
  pin_free = λ i q s h. (pin_by-free i q (s.file q) s h).0;
  pin_files = λ i q s h. (pin_by-free i q (s.file q) s h).1;
  pin_other = λ i q p s h. pin_by-other i q p (s.file q) s h;
  pin_backing = λ i q s j. ap (λ b. b j) (pin_by-behind i q (s.file q) s);
}

abbrev attr : Attr
attr = record {
  file = some (codes "prog.o");
  prog_type = 6;
  expected_attach_type = 0;
  ifindex = 0;
  pinned_maps =
      record { name = codes "stats"; filename = codes "/sys/fs/bpf/stats"; map_fd = pos 0 } ∷ [];
}

-- Nothing is pinned yet.
abbrev empty_disk : Disk
empty_disk = record { file = λ p. none; behind = λ j. none }

bpf_prog_load_xattr_maps_lem_example :
    (res : LoadResult Disk) × (bpf_prog_load_xattr_maps disks (some attr) empty_disk ≡ some res)
    × (res.ret ≡ pos 0)
    × (res.prog_fd ≡ some (pos 7))
    × ((m : ℕ) × (res.st.file (codes "/sys/fs/bpf/stats") ≡ some m) × (res.st.behind 1 ≡ some m))
unfolding same_text disk_files
bpf_prog_load_xattr_maps_lem_example =
    bpf_prog_load_xattr_maps_lem disks disk_files (codes "stats") (codes "/sys/fs/bpf/stats") attr
      empty_disk empty_disk (codes "prog.o") (pos 0) 7 [] (codes "first" ∷ []) [] refl refl
      (λ t. refl) (inl (refl, refl, refl, tt)) (refl, tt) tt
