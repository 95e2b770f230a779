-- ===== src/UpdateList/Loaded.antt =====
-- main/update_list.c: what the list holds after `load_user_map`.
use anti_dos.Base.{
  ℕ, ◌<◌, ◌≡◌, refl, ◌⊎◌, inl, inr, Bool, true, false, ◌||◌, List, [], ◌∷◌, Option, none, some, pos,
  length, All, ◌==◌, arith, replicate, Option-cases,
}
use anti_dos.Maps.Kernel.{Sys, Text}
use anti_dos.UpdateList.{update_list, load_words, load_user_map}

-- The map behind a descriptor as bpf(2) documents it: an update that returns 0 adds the key, and one
-- that fails, as in a full map, changes nothing.
pub record Updates (sys : Sys) (fd : ℕ) : Type 0 where
  pub holds : sys.Store → ℕ → Bool
  pub update_done :
      (s : sys.Store) (k j : ℕ) (v : List ℕ)
      → (sys.update_elem fd k v s).0 ≡ pos 0
      → holds (sys.update_elem fd k v s).1 j ≡ (j == k) || holds s j
  pub update_fails :
      (s : sys.Store) (k j : ℕ) (v : List ℕ)
      → ((sys.update_elem fd k v s).0 ≡ pos 0) ⊎ (holds (sys.update_elem fd k v s).1 j ≡ holds s j)

-- Whether a word of the file is the address `j`.
unfoldable pub listed : (Text → Option ℕ) → ℕ → List Text → Bool
listed inet_pton j [] = false
listed inet_pton j (w ∷ ws) = elim (inet_pton w) [
  | none ↦ listed inet_pton j ws
  | some k ↦ (j == k) || listed inet_pton j ws
]

-- Every word fits the buffer.
abbrev pub Fits : List Text → Type 0
Fits ws = All (λ w. length w < 20) ws

module _ (sys : Sys) (inet_pton : Text → Option ℕ) (fd : ℕ) (updates : Updates sys fd) where
  open updates use {holds, update_done, update_fails}

  -- Between two states: nothing is lost, and only listed addresses are added.
  pub Grows : List Text → sys.Store → sys.Store → Type 0
  Grows ws s s' =
      (j : ℕ) → (holds s' j ≡ holds s j) ⊎ ((holds s' j ≡ true) × (listed inet_pton j ws ≡ true))

  one_more : (a b : Bool) → (a || b ≡ b) ⊎ ((a || b ≡ true) × (a || false ≡ true))
  one_more true b = inr (refl, refl)
  one_more false b = inl refl

  update_list-Grows :
      (w : Text) (s : sys.Store) → Grows (w ∷ []) s (update_list sys inet_pton fd w s).1
  unfolding Grows update_list listed
  update_list-Grows w s j = elim (Option-cases (inet_pton w)) [
    | inl e ↦ inl (rw (update_list, e) refl)
    | inr (k, e) ↦
        rw (update_list, listed, e)
          (elim (update_fails s k j (replicate sys.num_cpus 0)) [
            | inl ok ↦
                rw (update_done s k j (replicate sys.num_cpus 0) ok) (one_more (j == k) (holds s j))
            | inr same ↦ inl same
          ])
  ]

  listed-cons :
      (w : Text) (ws : List Text) (j : ℕ)
      → listed inet_pton j (w ∷ ws) ≡ listed inet_pton j (w ∷ []) || listed inet_pton j ws
  unfolding listed
  listed-cons w ws j = elim (Option-cases (inet_pton w)) [
    | inl e ↦ rw (listed, e) refl
    | inr (k, e) ↦ ground (arith, e)
  ]

  Grows-cons :
      (w : Text) (ws : List Text) (s s' s'' : sys.Store)
      → Grows (w ∷ []) s s'
      → Grows ws s' s''
      → Grows (w ∷ ws) s s''
  unfolding Grows
  Grows-cons w ws s s' s'' p q j = ground (arith, listed-cons w ws j, p j, q j)

  load_words_lem :
      (ws : List Text) (s : sys.Store)
      → Fits ws
      → (s' : sys.Store) × (load_words sys inet_pton fd ws s ≡ some s') × Grows ws s s'
  unfolding load_words Grows
  load_words_lem [] s h = (s, refl, λ j. inl refl)
  load_words_lem (w ∷ ws) s h =
      let s1 = (update_list sys inet_pton fd w s).1 in
      let (s', e, g) = load_words_lem ws s1 h.1 in
      (s', ground (arith, h.0, e), Grows-cons w ws s s1 s' (update_list-Grows w s) g)

  -- Of a file whose words fit the buffer, `load_user_map` returns 0; the list has lost no address
  -- and gained none that is not in the file.
  pub load_user_map_lem :
      (ws : List Text) (s : sys.Store)
      → Fits ws
      → (s' : sys.Store) × (load_user_map sys inet_pton fd (some ws) s ≡ some (0, s'))
        × Grows ws s s'
  unfolding load_user_map
  load_user_map_lem ws s h = let (s', e, g) = load_words_lem ws s h in (s', ground (arith, e), g)

  module _
      (room : (s : sys.Store) (k : ℕ) (v : List ℕ) → (sys.update_elem fd k v s).0 ≡ pos 0) where
    one_added :
        (w : Text) (s : sys.Store) (j : ℕ)
        → holds (update_list sys inet_pton fd w s).1 j ≡ listed inet_pton j (w ∷ []) || holds s j
    unfolding update_list listed
    one_added w s j = elim (Option-cases (inet_pton w)) [
      | inl e ↦ ground (arith, e)
      | inr (k, e) ↦ ground (
        arith,
        e,
        update_done s k j (replicate sys.num_cpus 0) (room s k (replicate sys.num_cpus 0)),
      )
    ]

    all_added :
        (ws : List Text) (s s' : sys.Store) (j : ℕ)
        → load_words sys inet_pton fd ws s ≡ some s'
        → holds s' j ≡ listed inet_pton j ws || holds s j
    unfolding load_words listed
    all_added [] s s' j e = ground (arith, e)
    all_added (w ∷ ws) s s' j e =
        let s1 = (update_list sys inet_pton fd w s).1 in
        ground (arith, e, all_added ws s1 s' j, listed-cons w ws j, one_added w s j)

    -- If the map refuses no update, the list holds afterwards exactly the addresses of the file and
    -- those that it held before.
    pub load_user_map-listed :
        (ws : List Text) (s : sys.Store)
        → Fits ws
        → (s' : sys.Store) × (load_user_map sys inet_pton fd (some ws) s ≡ some (0, s'))
          × ((j : ℕ) → holds s' j ≡ listed inet_pton j ws || holds s j)
    unfolding load_user_map
    load_user_map-listed ws s h =
        let (s', e, g) = load_words_lem ws s h in
        (s', ground (arith, e), λ j. all_added ws s s' j e)
