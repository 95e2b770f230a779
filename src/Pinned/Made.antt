-- ===== src/Pinned/Made.antt =====
-- common/common_libbpf.c: the loop that pins the maps which no file was found for.
use anti_dos.Base.{
  ℕ, suc, ◌+◌, ◌≡◌, refl, ◌∙◌, ◌⊎◌, inl, inr, false, List, [], ◌∷◌, ◌++◌, none, some, ℤ, pos,
  negsuc, All, length, arith,
}
use anti_dos.Maps.Kernel.{Text}
use anti_dos.Pinned.{PinnedMap, Objects, pin_missing, pin_each, pin_all}
use anti_dos.UpdateList.{same_text}
use mathlib.Core.Path.{subst}
use anti_dos.Pinned.Taken.{Without}
use anti_dos.Pinned.Files.{PinFiles, Other, Tracked, Kept, Kept-refl, Kept-trans, same_text_refl}

module _ (lib : Objects) (r : PinFiles lib) (a q : Text) (i : ℕ) where
  open lib use {St}
  open r use {files, backing}

  abbrev KeptAt : St → St → Type 0
  KeptAt = Kept lib r a q i

  -- The file `q` is pinned, and the map `i` is the one behind it.
  abbrev pub Shared : St → Type 0
  Shared s = (m : ℕ) × (files s q ≡ some m) × (backing s i ≡ some m)

  -- What is known between the loading and the map `a`, and behind the map `a`.
  abbrev pub Ready : List PinnedMap × St → Type 0
  Ready (ps, s) =
      (Shared s × ((n : ℕ) × Tracked a q (pos n) ps))
      ⊎ (files s q ≡ none) × ((m : ℕ) × (backing s i ≡ some m)) × Tracked a q (negsuc 0) ps

  abbrev pub Made : List PinnedMap × St → Type 0
  Made (ps, s) = Shared s × ((f : ℤ) × Tracked a q f ps)

  pin_missing-same :
      (j : ℕ) (m : Text) (p : PinnedMap) (s : St)
      → same_text m p.name ≡ false
      → pin_missing lib j m p s ≡ (p, s)
  unfolding pin_missing
  pin_missing-same j m p s h = rw h refl

  pin_missing-set :
      (j : ℕ) (m : Text) (p : PinnedMap) (s : St) (n : ℕ)
      → p.map_fd ≡ pos n
      → pin_missing lib j m p s ≡ (p, s)
  unfolding pin_missing
  pin_missing-set j m p s n h = ground (arith, h)

  pin_missing-Other :
      (j : ℕ) (m : Text) (p : PinnedMap) (s : St)
      → Other a q p
      → Other a q (pin_missing lib j m p s).0
  unfolding pin_missing
  pin_missing-Other j m p s h = ground (arith, h)

  pin_missing-Kept :
      (j : ℕ) (m : Text) (p : PinnedMap) (s : St)
      → Other a q p
      → KeptAt s (pin_missing lib j m p s).1
  unfolding pin_missing
  pin_missing-Kept j m p s h = record {
    file_same = ground (arith, r.pin_other j p.filename q s h.1);
    map_same = ground (arith, r.pin_backing j p.filename s i);
  }

  pin_each-Other :
      (j : ℕ) (m : Text) (ps : List PinnedMap) (s : St)
      → All (Other a q) ps
      → All (Other a q) (pin_each lib j m ps s).0 × KeptAt s (pin_each lib j m ps s).1
  unfolding pin_each
  pin_each-Other j m [] s h = (tt, Kept-refl lib r a q i s)
  pin_each-Other j m (p ∷ ps) s h =
      let (others, kept) = pin_each-Other j m ps (pin_missing lib j m p s).1 h.1 in
      (
        (pin_missing-Other j m p s h.0, others),
        Kept-trans lib r a q i s (pin_missing lib j m p s).1 _ (pin_missing-Kept j m p s h.0) kept,
      )

  -- Another map leaves the tracked request, its file and its map alone.
  pin_each-Tracked :
      (j : ℕ) (m : Text) (f : ℤ) (ps : List PinnedMap) (s : St)
      → same_text m a ≡ false
      → Tracked a q f ps
      → Tracked a q f (pin_each lib j m ps s).0 × KeptAt s (pin_each lib j m ps s).1
  unfolding pin_each
  pin_each-Tracked j m f [] s h t = absurd t
  pin_each-Tracked j m f (p ∷ ps) s h (inl (n, file, fd, others)) =
      let (others', kept) = pin_each-Other j m ps s others in
      let same_pin : pin_missing lib j m p s ≡ (p, s) = pin_missing-same j m p s (rw n h) in
      rw same_pin (inl (n, file, fd, others'), kept)
  pin_each-Tracked j m f (p ∷ ps) s h (inr (other, t)) =
      let (t', kept) = pin_each-Tracked j m f ps (pin_missing lib j m p s).1 h t in
      (
        inr (pin_missing-Other j m p s other, t'),
        Kept-trans lib r a q i s (pin_missing lib j m p s).1 _ (pin_missing-Kept j m p s other)
            kept,
      )

  Shared-Kept : (s s' : St) → KeptAt s s' → Shared s → Shared s'
  Shared-Kept s s' k (m, f, b) = (m, k.file_same ∙ f, k.map_same ∙ b)

  Made-cons : (p : PinnedMap) (x : List PinnedMap × St) → Other a q p → Made x → Made (p ∷ x.0, x.1)
  Made-cons p (ps, s) o (sh, (f, t)) = (sh, (f, inr (o, t)))

  pin_each-others :
      (ps : List PinnedMap) (s : St) → All (Other a q) ps → pin_each lib i a ps s ≡ (ps, s)
  unfolding pin_each
  pin_each-others [] s h = refl
  pin_each-others (p ∷ ps) s h = rw (pin_missing-same i a p s h.0.0, pin_each-others ps s h.1) refl

  pin_missing-made :
      (p : PinnedMap) (s : St)
      → p.name ≡ a
      → p.map_fd ≡ negsuc 0
      → files s p.filename ≡ none
      → pin_missing lib i a p s ≡ (
        record p { map_fd = lib.map_fd_of i (lib.map_pin i p.filename s).1 },
        (lib.map_pin i p.filename s).1,
      )
  unfolding pin_missing
  pin_missing-made p s n fd f = rw (n, same_text_refl a, fd, r.pin_free i p.filename s f) refl

  -- The map `a` itself: its file is there already or is made now.
  pin_each-set :
      (n : ℕ) (ps : List PinnedMap) (s : St)
      → Tracked a q (pos n) ps
      → pin_each lib i a ps s ≡ (ps, s)
  unfolding pin_each
  pin_each-set n [] s t = absurd t
  pin_each-set n (p ∷ ps) s (inl (name, file, fd, others)) =
      rw (pin_missing-set i a p s n fd, pin_each-others ps s others) refl
  pin_each-set n (p ∷ ps) s (inr (other, t)) =
      rw (pin_missing-same i a p s other.0, pin_each-set n ps s t) refl

  pin_each-free :
      (m : ℕ) (ps : List PinnedMap) (s : St)
      → Tracked a q (negsuc 0) ps
      → files s q ≡ none
      → backing s i ≡ some m
      → Made (pin_each lib i a ps s)
  unfolding pin_each
  pin_each-free m [] s t f b = absurd t
  pin_each-free m (p ∷ ps) s (inl (name, file, fd, others)) f b =
      let s' = (lib.map_pin i p.filename s).1 in
      let free : files s p.filename ≡ none = rw file f in
      let made : files s' q ≡ backing s i =
        subst (λ x. files s' x ≡ backing s i) file (r.pin_files i p.filename s free) in
      rw (pin_missing-made p s name fd free, pin_each-others ps s' others)
        (
          (m, made ∙ b, r.pin_backing i p.filename s i ∙ b),
          (lib.map_fd_of i s', inl (name, file, refl, others)),
        )
  pin_each-free m (p ∷ ps) s (inr (other, t)) f b =
      rw (pin_missing-same i a p s other.0)
        (Made-cons p (pin_each lib i a ps s) other (pin_each-free m ps s t f b))

  pin_each-Made : (ps : List PinnedMap) (s : St) → Ready (ps, s) → Made (pin_each lib i a ps s)
  pin_each-Made ps s (inl (sh, (n, t))) = rw (pin_each-set n ps s t) (sh, (pos n, t))
  pin_each-Made ps s (inr (f, (m, b), t)) = pin_each-free m ps s t f b

  pin_all-Made :
      (j : ℕ) (names : List Text) (ps : List PinnedMap) (s : St)
      → Without lib r a q i names
      → Made (ps, s)
      → Made (pin_all lib j names ps s)
  unfolding pin_all
  pin_all-Made j [] ps s w t = t
  pin_all-Made j (m ∷ ms) ps s w (sh, (f, t)) =
      let x = pin_each lib j m ps s in
      let (t', kept) = pin_each-Tracked j m f ps s w.0 t in
      pin_all-Made (suc j) ms x.0 x.1 w.1 (Shared-Kept s x.1 kept sh, (f, t'))

  Ready-after :
      (j : ℕ) (m : Text) (ps : List PinnedMap) (s : St)
      → same_text m a ≡ false
      → Ready (ps, s)
      → Ready (pin_each lib j m ps s)
  Ready-after j m ps s h (inl (sh, (n, t))) =
      let (t', kept) = pin_each-Tracked j m (pos n) ps s h t in
      inl (Shared-Kept s (pin_each lib j m ps s).1 kept sh, (n, t'))
  Ready-after j m ps s h (inr (f, (b, e), t)) =
      let (t', kept) = pin_each-Tracked j m (negsuc 0) ps s h t in
      inr (kept.file_same ∙ f, (b, kept.map_same ∙ e), t')

  pub pin_all-Shared :
      (j : ℕ) (before behind : List Text) (ps : List PinnedMap) (s : St)
      → j + length before ≡ i
      → Without lib r a q i before
      → Without lib r a q i behind
      → Ready (ps, s)
      → Made (pin_all lib j (before ++ (a ∷ behind)) ps s)
  unfolding pin_all
  pin_all-Shared j [] behind ps s e w w' t =
      let x = pin_each lib i a ps s in
      let at : j ≡ i = omega arith in
      rw at (pin_all-Made (suc i) behind x.0 x.1 w' (pin_each-Made ps s t))
  pin_all-Shared j (m ∷ before) behind ps s e w w' t =
      let x = pin_each lib j m ps s in
      pin_all-Shared (suc j) before behind x.0 x.1 (omega arith) w.1 w' (Ready-after j m ps s w.0 t)
