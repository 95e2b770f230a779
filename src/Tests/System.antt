-- ===== src/Tests/System.antt =====
-- A system that serves the black list: its state is the set of the blocked addresses.
use anti_dos.Base.{ℕ, refl, Bool, false, ◌&&◌, ◌||◌, not, some, pos, ◌==◌}
use anti_dos.Maps.Kernel.{Sys, BpfMapInfo, Text}
use anti_dos.Policy.{World, Policy}
use anti_dos.Policy.BlackList.{ServesBlackList}
use anti_dos.Filter.Stats.{PktMeta, no_meta}

abbrev pub map_info : BpfMapInfo
map_info = record { kind = 5; id = 1; key_size = 4; value_size = 4; max_entries = 10000 }

abbrev pub toy : Sys
toy = record {
  Store = ℕ → Bool;
  obj_get = λ path s. (pos 3, s);
  info_by_fd = λ fd s. some map_info;
  update_elem = λ fd k v s. (pos 0, λ j. (j == k) || s j);
  delete_elem = λ fd k s. (pos 0, λ j. not (j == k) && s j);
  num_cpus = 4;
}

abbrev pub toy_serves : (dir : Text) → ServesBlackList toy dir
toy_serves dir = record {
  info = map_info;
  key_is = refl;
  value_is = refl;
  serves = record {
    holds = λ s j. s j;
    opened = λ s. 3;
    open_ok = λ s. refl;
    open_holds = λ s j. refl;
    info_ok = λ s. refl;
    update_holds = λ s k j v. refl;
    delete_holds = λ s k j. refl;
  };
}

-- Nothing is blocked.
abbrev pub quiet : World toy
quiet = record { info = map_info; store = λ _. false }

abbrev pub packet_to : ℕ → ℕ → PktMeta
packet_to src dst = record no_meta { src = src; dst = dst }

abbrev pub web : Policy
web = record { id = 1; ip = 80; threshold = 1 }

abbrev pub mail : Policy
mail = record { id = 2; ip = 25; threshold = 1 }
