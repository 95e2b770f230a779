-- ===== src/Pinned/Files.antt =====
-- Pinned files and the maps of an object as common/common_libbpf.c finds them, and one request
-- followed through its loops.
use anti_dos.Base.{
  ℕ, suc, ◌≡◌, refl, ◌∙◌, ◌⊎◌, true, false, List, [], ◌∷◌, Option, none, some, ℤ, pos, negsuc, ◌==◌,
  All, arith,
}
use anti_dos.Maps.Kernel.{Text}
use anti_dos.Pinned.{PinnedMap, Objects}
use anti_dos.UpdateList.{same_text}

-- A system of pinned files: the map that is pinned under a name, and the map that stands behind a
-- map of the object, where there is one; and what the calls do to them.
pub record PinFiles (lib : Objects) : Type 0 where
  pub files : lib.St → Text → Option ℕ
  pub backing : lib.St → ℕ → Option ℕ
  pub opened : Text → lib.St → ℕ
  pub errno : Text → lib.St → ℕ
  pub fresh : lib.St → ℕ → ℕ
  -- A file that is there can be opened; the others cannot.
  pub open_hit :
      (q : Text) (s : lib.St) (m : ℕ)
      → files s q ≡ some m
      → (lib.obj_get q s).0 ≡ pos (suc (opened q s))
  pub open_miss :
      (q : Text) (s : lib.St) → files s q ≡ none → (lib.obj_get q s).0 ≡ negsuc (errno q s)
  pub open_files : (q p : Text) (s : lib.St) → files (lib.obj_get q s).1 p ≡ files s p
  pub open_backing : (q : Text) (s : lib.St) (j : ℕ) → backing (lib.obj_get q s).1 j ≡ backing s j
  -- The descriptor takes the place of the map.
  pub reuse_files : (i n : ℕ) (s : lib.St) (p : Text) → files (lib.reuse_fd i n s).1 p ≡ files s p
  pub reuse_other :
      (i n : ℕ) (s : lib.St) (j : ℕ)
      → (j == i) ≡ false
      → backing (lib.reuse_fd i n s).1 j ≡ backing s j
  pub reuse_backing :
      (q : Text) (i : ℕ) (s : lib.St) (m : ℕ)
      → files s q ≡ some m
      → backing (lib.reuse_fd i (suc (opened q s)) (lib.obj_get q s).1).1 i ≡ some m
  pub ifindex_files :
      (i n : ℕ) (s : lib.St) (p : Text) → files (lib.set_map_ifindex i n s) p ≡ files s p
  pub ifindex_backing :
      (i n : ℕ) (s : lib.St) (j : ℕ) → backing (lib.set_map_ifindex i n s) j ≡ backing s j
  -- Loading makes the maps that are not there yet.
  pub load_files : (s : lib.St) (p : Text) → files (lib.object_load s).1 p ≡ files s p
  pub load_old :
      (s : lib.St) (j m : ℕ) → backing s j ≡ some m → backing (lib.object_load s).1 j ≡ some m
  pub load_new :
      (s : lib.St) (j : ℕ) → backing s j ≡ none → backing (lib.object_load s).1 j ≡ some (fresh s j)
  -- A file is made unless it is there.
  pub pin_free : (i : ℕ) (q : Text) (s : lib.St) → files s q ≡ none → (lib.map_pin i q s).0 ≡ pos 0
  pub pin_files :
      (i : ℕ) (q : Text) (s : lib.St)
      → files s q ≡ none
      → files (lib.map_pin i q s).1 q ≡ backing s i
  pub pin_other :
      (i : ℕ) (q p : Text) (s : lib.St)
      → same_text p q ≡ false
      → files (lib.map_pin i q s).1 p ≡ files s p
  pub pin_backing :
      (i : ℕ) (q : Text) (s : lib.St) (j : ℕ) → backing (lib.map_pin i q s).1 j ≡ backing s j

pub same_text_refl : (x : Text) → same_text x x ≡ true
unfolding same_text
same_text_refl [] = refl
same_text_refl (c ∷ cs) = ground (arith, same_text_refl cs)

-- A request for another map, under another file name.
abbrev pub Other : Text → Text → PinnedMap → Type 0
Other a q p = (same_text a p.name ≡ false) × (same_text q p.filename ≡ false)

-- One request is for the map `a` under the file name `q` and holds the descriptor `f`; the others
-- are for other maps and files.
abbrev pub Tracked : Text → Text → ℤ → List PinnedMap → Type 0
Tracked a q f [] = ⊥
Tracked a q f (p ∷ ps) =
    (p.name ≡ a) × (p.filename ≡ q) × (p.map_fd ≡ f) × All (Other a q) ps
    ⊎ Other a q p × Tracked a q f ps

module _ (lib : Objects) (r : PinFiles lib) (a q : Text) (i : ℕ) where
  open lib use {St}
  open r use {files, backing}

  -- The file `q` and the map `i` are as they were.
  pub record Kept (s s' : St) : Type 0 where
    pub file_same : files s' q ≡ files s q
    pub map_same : backing s' i ≡ backing s i

  pub Kept-refl : (s : St) → Kept s s
  Kept-refl s = record { file_same = refl; map_same = refl }

  pub Kept-trans : (s s' s'' : St) → Kept s s' → Kept s' s'' → Kept s s''
  Kept-trans s s' s'' k l = record {
    file_same = l.file_same ∙ k.file_same;
    map_same = l.map_same ∙ k.map_same;
  }
