-- ===== src/Policy/BlackList/Keys.antt =====
-- main/start_policy.c: what `policy_change_black_list` does to the keys of the black list.
use anti_dos.Base.{ℕ, ◌≡◌, refl, ◌||◌, ◌&&◌, not, ◌==◌, arith}
use anti_dos.Maps.Kernel.{Sys, Text}
use anti_dos.Maps.{join_path}
use anti_dos.Policy.{World}
use anti_dos.Policy.BlackList.{
  ServesBlackList, policy_change_black_list, change, block, unblock, black_list_name,
}

module _ (sys : Sys) (dir : Text) (serves : ServesBlackList sys dir) (w : World sys) (ip : ℕ) where
  open serves use {info, holds, opened, open_ok, info_ok, update_holds, delete_holds}

  change_eq :
      (action : ℕ)
      → let r =
          change sys
            (opened w.store)
            ip
            action
            (sys.obj_get (join_path dir black_list_name) w.store).1 in
        policy_change_black_list sys dir ip action w ≡ (r.0, record { info = info; store = r.1 })
  unfolding policy_change_black_list
  change_eq action =
      ground (arith, open_ok w.store, info_ok w.store, serves.key_is, serves.value_is)

  pub block_holds :
      ((policy_change_black_list sys dir ip block w).0 ≡ 0)
      × ((j : ℕ)
          → holds (policy_change_black_list sys dir ip block w).1.store j
            ≡ (j == ip) || holds w.store j)
  unfolding change
  block_holds = rw (change_eq block) (refl, λ j. update_holds w.store ip j _)

  pub unblock_holds :
      ((policy_change_black_list sys dir ip unblock w).0 ≡ 0)
      × ((j : ℕ)
          → holds (policy_change_black_list sys dir ip unblock w).1.store j
            ≡ not (j == ip) && holds w.store j)
  unfolding change
  unblock_holds = rw (change_eq unblock) (refl, λ j. delete_holds w.store ip j)

  -- In a system that serves the black list, `BLOCK` returns 0 and adds the address, and no other;
  -- `UNBLOCK` returns 0 and removes the address, and no other.
  pub policy_change_black_list_lem :
      ((policy_change_black_list sys dir ip block w).0 ≡ 0)
      × ((policy_change_black_list sys dir ip unblock w).0 ≡ 0)
      × ((j : ℕ)
          → (holds (policy_change_black_list sys dir ip block w).1.store j
              ≡ (j == ip) || holds w.store j)
            × (holds (policy_change_black_list sys dir ip unblock w).1.store j
                ≡ not (j == ip) && holds w.store j))
  policy_change_black_list_lem =
      (block_holds.0, unblock_holds.0, λ j. (block_holds.1 j, unblock_holds.1 j))
