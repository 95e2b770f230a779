-- ===== src/Pinned/Taken.antt =====
-- common/common_libbpf.c: the loop that puts pinned maps behind the maps of the object.
use anti_dos.Base.{
  ℕ, zero, suc, ◌+◌, ◌<◌, ◌≡◌, refl, ◌∙◌, sym, ◌⊎◌, inl, inr, false, List, [], ◌∷◌, ◌++◌, none,
  some, ℤ, pos, negsuc, ◌==◌, All, length, arith, Bool-cases, Option-cases,
}
use anti_dos.Maps.Kernel.{Text}
use anti_dos.Pinned.{PinnedMap, Objects, take_fd, reuse_pin, reuse_pins, prepare, reuse_all}
use anti_dos.UpdateList.{same_text}
use mathlib.Core.Path.{subst}
use anti_dos.Pinned.Files.{PinFiles, Other, Tracked, Kept, Kept-refl, Kept-trans, same_text_refl}

module _ (lib : Objects) (r : PinFiles lib) (a q : Text) (i : ℕ) where
  open lib use {St}
  open r use {files, backing}

  abbrev KeptAt : St → St → Type 0
  KeptAt = Kept lib r a q i

  prepare-Kept : (n j : ℕ) (s : St) → KeptAt s (prepare lib n j s)
  prepare-Kept n j s = elim (Bool-cases (lib.is_offload_neutral j s)) [
    | inl neutral ↦ rw neutral (Kept-refl lib r a q i s)
    | inr bound ↦
        rw bound
          (record { file_same = r.ifindex_files j n s q; map_same = r.ifindex_backing j n s i })
  ]

  take_fd-Kept :
      (j : ℕ) (p : PinnedMap) (fd : ℤ) (s : St)
      → (i == j) ≡ false
      → KeptAt s (take_fd lib j p fd s).1
  unfolding take_fd
  take_fd-Kept j p (negsuc n) s h = Kept-refl lib r a q i s
  take_fd-Kept j p (pos zero) s h = Kept-refl lib r a q i s
  take_fd-Kept j p (pos (suc n)) s h = record {
    file_same = r.reuse_files j (suc n) s q;
    map_same = r.reuse_other j (suc n) s i h;
  }

  -- A map other than the `i`-th takes a descriptor.
  reuse_pin-Kept :
      (j : ℕ) (m : Text) (p : PinnedMap) (s : St)
      → (i == j) ≡ false
      → KeptAt s (reuse_pin lib j m p s).1
  unfolding reuse_pin
  reuse_pin-Kept j m p s h = elim (Bool-cases (same_text m p.name)) [
    | inl hit ↦
        let s' = (lib.obj_get p.filename s).1 in
        rw hit (
          Kept-trans lib r a q i s s' _
            (record {
              file_same = r.open_files p.filename q s;
              map_same = r.open_backing p.filename s i;
            })
            (take_fd-Kept j p (lib.obj_get p.filename s).0 s' h))
    | inr miss ↦ rw miss (Kept-refl lib r a q i s)
  ]

  reuse_pin-same :
      (j : ℕ) (m : Text) (p : PinnedMap) (s : St)
      → same_text m p.name ≡ false
      → reuse_pin lib j m p s ≡ (p, s)
  unfolding reuse_pin
  reuse_pin-same j m p s h = rw h refl

  take_fd-names :
      (j : ℕ) (p : PinnedMap) (fd : ℤ) (s : St)
      → ((take_fd lib j p fd s).0.name ≡ p.name) × ((take_fd lib j p fd s).0.filename ≡ p.filename)
  unfolding take_fd
  take_fd-names j p (negsuc n) s = (refl, refl)
  take_fd-names j p (pos zero) s = (refl, refl)
  take_fd-names j p (pos (suc n)) s = (refl, refl)

  reuse_pin-Other :
      (j : ℕ) (m : Text) (p : PinnedMap) (s : St)
      → Other a q p
      → Other a q (reuse_pin lib j m p s).0
  unfolding reuse_pin
  reuse_pin-Other j m p s h =
      ground (arith, h, take_fd-names j p (lib.obj_get p.filename s).0 (lib.obj_get p.filename s).1)

  reuse_pins-Other :
      (j : ℕ) (m : Text) (ps : List PinnedMap) (s : St)
      → All (Other a q) ps
      → All (Other a q) (reuse_pins lib j m ps s).0
  unfolding reuse_pins
  reuse_pins-Other j m [] s h = tt
  reuse_pins-Other j m (p ∷ ps) s h =
      (reuse_pin-Other j m p s h.0, reuse_pins-Other j m ps (reuse_pin lib j m p s).1 h.1)

  reuse_pins-Kept :
      (j : ℕ) (m : Text) (ps : List PinnedMap) (s : St)
      → (i == j) ≡ false
      → KeptAt s (reuse_pins lib j m ps s).1
  unfolding reuse_pins
  reuse_pins-Kept j m [] s h = Kept-refl lib r a q i s
  reuse_pins-Kept j m (p ∷ ps) s h =
      Kept-trans lib r a q i s (reuse_pin lib j m p s).1 _ (reuse_pin-Kept j m p s h)
        (reuse_pins-Kept j m ps (reuse_pin lib j m p s).1 h)

  -- Another map leaves the tracked request alone.
  reuse_pins-Tracked :
      (j : ℕ) (m : Text) (f : ℤ) (ps : List PinnedMap) (s : St)
      → same_text m a ≡ false
      → Tracked a q f ps
      → Tracked a q f (reuse_pins lib j m ps s).0
  unfolding reuse_pins
  reuse_pins-Tracked j m f [] s h t = t
  reuse_pins-Tracked j m f (p ∷ ps) s h (inl (n, file, fd, others)) =
      let kept : reuse_pin lib j m p s ≡ (p, s) = reuse_pin-same j m p s (rw n h) in
      rw kept (inl (n, file, fd, reuse_pins-Other j m ps s others))
  reuse_pins-Tracked j m f (p ∷ ps) s h (inr (other, t)) =
      inr (reuse_pin-Other j m p s other, reuse_pins-Tracked j m f ps (reuse_pin lib j m p s).1 h t)

  -- The map `a` itself, and requests for others.
  reuse_pins-others :
      (ps : List PinnedMap) (s : St) → All (Other a q) ps → reuse_pins lib i a ps s ≡ (ps, s)
  unfolding reuse_pins
  reuse_pins-others [] s h = refl
  reuse_pins-others (p ∷ ps) s h =
      rw (reuse_pin-same i a p s h.0.0, reuse_pins-others ps s h.1) refl

  -- What is known between the map `a` and the loading.
  abbrev pub Taken : List PinnedMap × St → Type 0
  Taken (ps, s) =
      ((m : ℕ) × (n : ℕ) × (files s q ≡ some m) × (backing s i ≡ some m) × Tracked a q (pos n) ps)
      ⊎ (files s q ≡ none) × Tracked a q (negsuc 0) ps

  Taken-cons :
      (p : PinnedMap) (x : List PinnedMap × St) → Other a q p → Taken x → Taken (p ∷ x.0, x.1)
  Taken-cons p (ps, s) o (inl (m, n, f, b, t)) = inl (m, n, f, b, inr (o, t))
  Taken-cons p (ps, s) o (inr (f, t)) = inr (f, inr (o, t))

  reuse_pin-hit :
      (p : PinnedMap) (s : St) (m : ℕ)
      → p.name ≡ a
      → files s p.filename ≡ some m
      → reuse_pin lib i a p s ≡ (
        record p { map_fd = pos (suc (r.opened p.filename s)) },
        (lib.reuse_fd i (suc (r.opened p.filename s)) (lib.obj_get p.filename s).1).1,
      )
  unfolding reuse_pin take_fd
  reuse_pin-hit p s m n f = rw (n, same_text_refl a, r.open_hit p.filename s m f) refl

  reuse_pin-miss :
      (p : PinnedMap) (s : St)
      → p.name ≡ a
      → files s p.filename ≡ none
      → reuse_pin lib i a p s ≡ (p, (lib.obj_get p.filename s).1)
  unfolding reuse_pin take_fd
  reuse_pin-miss p s n f = rw (n, same_text_refl a, r.open_miss p.filename s f) refl

  reuse_pins-Taken :
      (ps : List PinnedMap) (s : St) → Tracked a q (negsuc 0) ps → Taken (reuse_pins lib i a ps s)
  unfolding reuse_pins
  reuse_pins-Taken [] s t = absurd t
  reuse_pins-Taken (p ∷ ps) s (inl (n, file, fd, others)) = elim (Option-cases (files s q)) [
    | inl free ↦
        let s' = (lib.obj_get p.filename s).1 in
        rw (reuse_pin-miss p s n (rw file free), reuse_pins-others ps s' others)
          (inr (r.open_files p.filename q s ∙ free, inl (n, file, fd, others)))
    | inr (m, there) ↦
        let o = r.opened p.filename s in
        let s' = (lib.obj_get p.filename s).1 in
        let s'' = (lib.reuse_fd i (suc o) s').1 in
        let f : files s p.filename ≡ some m = rw file there in
        rw (reuse_pin-hit p s m n f, reuse_pins-others ps s'' others)
          (inl (
            m,
            suc o,
            r.reuse_files i (suc o) s' q ∙ r.open_files p.filename q s ∙ there,
            r.reuse_backing p.filename i s m f,
            inl (n, file, refl, others),
          ))
  ]
  reuse_pins-Taken (p ∷ ps) s (inr (other, t)) =
      rw (reuse_pin-same i a p s other.0)
        (Taken-cons p (reuse_pins lib i a ps s) other (reuse_pins-Taken ps s t))

  Taken-Kept :
      (ps ps' : List PinnedMap) (s s' : St)
      → KeptAt s s'
      → ((f : ℤ) → Tracked a q f ps → Tracked a q f ps')
      → Taken (ps, s)
      → Taken (ps', s')
  Taken-Kept ps ps' s s' k h (inl (m, n, f, b, t)) =
      inl (m, n, k.file_same ∙ f, k.map_same ∙ b, h (pos n) t)
  Taken-Kept ps ps' s s' k h (inr (f, t)) = inr (k.file_same ∙ f, h (negsuc 0) t)

  -- None of these names is `a`.
  abbrev pub Without : List Text → Type 0
  Without names = All (λ m. same_text m a ≡ false) names

  reuse_all-behind :
      (n j : ℕ) (names : List Text) (ps : List PinnedMap) (s : St)
      → i < j
      → Without names
      → Taken (ps, s)
      → Taken (reuse_all lib n j names ps s)
  unfolding reuse_all
  reuse_all-behind n j [] ps s h w t = t
  reuse_all-behind n j (m ∷ ms) ps s h w t =
      let s' = prepare lib n j s in
      let x = reuse_pins lib j m ps s' in
      reuse_all-behind n (suc j) ms x.0 x.1 (omega arith) w.1 (
        Taken-Kept ps x.0 s x.1
          (Kept-trans lib r a q i s s' x.1 (prepare-Kept n j s)
            (reuse_pins-Kept j m ps s' (ground arith)))
          (λ f t'. reuse_pins-Tracked j m f ps s' w.0 t') t)

  -- The whole loop, over maps of which the `i`-th is the only one named `a`.
  pub reuse_all-Taken :
      (n j : ℕ) (before behind : List Text) (ps : List PinnedMap) (s : St)
      → j + length before ≡ i
      → Without before
      → Without behind
      → Tracked a q (negsuc 0) ps
      → Taken (reuse_all lib n j (before ++ (a ∷ behind)) ps s)
  unfolding reuse_all
  reuse_all-Taken n j [] behind ps s e w w' t =
      let x = reuse_pins lib j a ps (prepare lib n j s) in
      let at : j ≡ i = omega arith in
      reuse_all-behind n (suc j) behind x.0 x.1 (omega arith) w' (
        subst (λ k. Taken (reuse_pins lib k a ps (prepare lib n j s))) (sym at)
          (reuse_pins-Taken ps (prepare lib n j s) t))
  reuse_all-Taken n j (m ∷ before) behind ps s e w w' t =
      let s' = prepare lib n j s in
      let x = reuse_pins lib j m ps s' in
      reuse_all-Taken n (suc j) before behind x.0 x.1 (omega arith) w.1 w'
        (reuse_pins-Tracked j m (negsuc 0) ps s' w.0 t)
