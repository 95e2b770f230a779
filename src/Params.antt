-- ===== src/Params.antt =====
-- common/common_params.c: `parse_cmdline_args`, the state machine behind `getopt_long`, which hands
-- over one option at a time with its argument. Texts are lists of character codes without the final
-- 0.
pub mod Modes
pub mod Options
use anti_dos.Base.{
  ℕ, zero, suc, ◌+◌, ◌-◌, Bool, true, false, not, ◌==◌, leb, List, [], ◌∷◌, ◌++◌, Option, none,
  some, ℤ, pos, negsuc, bit_and, bit_or, length, take, replicate, if◌then◌else◌, ◌>>=◌,
}
use mathlib.Core.Option
use anti_dos.Maps.Kernel.{Text}

abbrev pub ifnamesiz : ℕ
ifnamesiz = 16

abbrev pub xdp_copy : ℕ
xdp_copy = 2

abbrev pub xdp_zerocopy : ℕ
xdp_zerocopy = 4

-- What `getopt_long` returns, by the case that it is handled in.
pub data Opt : Type 0 where
  dev : Text → Opt
  redirect_dev : Text → Opt
  auto_mode : Opt
  skb_mode : Opt
  native_mode : Opt
  offload_mode : Opt
  force : Opt
  reuse_maps : Opt
  unload : Opt
  poll_mode : Opt
  quiet : Opt
  queue : Text → Opt
  filename : Text → Opt
  progsec : Text → Opt
  src_mac : Text → Opt
  dest_mac : Text → Opt
  copy : Opt
  zero_copy : Opt
  help : Opt
  other : Opt

-- `struct config`, with `ifname` and `redirect_ifname` by what they point to, and `verbose`. The
-- four character arrays are all their bytes.
pub record Config : Type 0 where
  pub xdp_flags : ℕ
  pub ifindex : ℤ
  pub ifname : Option Text
  pub redirect_ifindex : ℤ
  pub redirect_ifname : Option Text
  pub do_unload : Bool
  pub reuse_maps : Bool
  pub filename : Text
  pub progsec : Text
  pub src_mac : Text
  pub dest_mac : Text
  pub xsk_bind_flags : ℕ
  pub xsk_if_queue : ℤ
  pub xsk_poll_mode : Bool
  pub verbose : Bool

-- `cfg` as `main` of main/start_policy.c and of main/xdp_stats.c initialises it.
unfoldable pub bare_config : Config
bare_config = record {
  xdp_flags = 0;
  ifindex = negsuc 0;
  ifname = none;
  redirect_ifindex = pos 0;
  redirect_ifname = none;
  do_unload = false;
  reuse_maps = false;
  filename = replicate 512 0;
  progsec = replicate 32 0;
  src_mac = replicate 18 0;
  dest_mac = replicate 18 0;
  xsk_bind_flags = 0;
  xsk_if_queue = pos 0;
  xsk_poll_mode = false;
  verbose = true;
}

-- `strncpy`: `size` bytes, of which none is 0 if the text has as many characters or more.
unfoldable pub strncpy : ℕ → Text → Text
strncpy size s = take size (s ++ replicate (size - length s) 0)

-- `xdp_flags &= ~XDP_FLAGS_MODES` and `xdp_flags |= mode`.
abbrev pub set_mode : ℕ → Config → Config
set_mode mode c = record c { xdp_flags = bit_or (bit_and c.xdp_flags 0xfffffff1) mode }

-- `xsk_bind_flags &= kept` and `xsk_bind_flags |= set`.
abbrev pub set_bind : ℕ → ℕ → Config → Config
set_bind kept set c = record c { xsk_bind_flags = bit_or (bit_and c.xsk_bind_flags kept) set }

-- `none` is the exit with EXIT_FAIL_OPTION.
module _ (if_nametoindex : Text → ℕ) (atoi : Text → ℤ) where
  unfoldable pub find_dev : Text → Option ℕ
  find_dev name =
      if leb ifnamesiz (length name)
      then none
      else if if_nametoindex name == 0
      then none
      else some (if_nametoindex name)

  unfoldable pub handle : Opt → Config → Option Config
  unfolding find_dev strncpy
  handle (dev name) c =
      Option.map (λ i. record c { ifname = some name; ifindex = pos i }) (find_dev name)
  handle (redirect_dev name) c =
      Option.map (λ i. record c { redirect_ifname = some name; redirect_ifindex = pos i })
        (find_dev name)
  handle auto_mode c = some (set_mode 0 c)
  handle skb_mode c = some (set_bind xdp_zerocopy xdp_copy (set_mode 2 c))
  handle native_mode c = some (set_mode 4 c)
  handle offload_mode c = some (set_mode 8 c)
  handle force c = some (record c { xdp_flags = bit_and c.xdp_flags 0xfffffffe })
  handle reuse_maps c = some (record c { reuse_maps = true })
  handle unload c = some (record c { do_unload = true })
  handle poll_mode c = some (record c { xsk_poll_mode = true })
  handle quiet c = some (record c { verbose = false })
  handle (queue n) c = some (record c { xsk_if_queue = atoi n })
  handle (filename s) c = some (record c { filename = strncpy 512 s })
  handle (progsec s) c = some (record c { progsec = strncpy 32 s })
  handle (src_mac s) c = some (record c { src_mac = strncpy 18 s })
  handle (dest_mac s) c = some (record c { dest_mac = strncpy 18 s })
  handle copy c = some (set_bind xdp_zerocopy xdp_copy c)
  handle zero_copy c = some (set_bind xdp_copy xdp_zerocopy c)
  handle help c = none
  handle other c = none

  unfoldable pub parse_cmdline_args : List Opt → Config → Option Config
  unfolding handle
  parse_cmdline_args [] c = some c
  parse_cmdline_args (o ∷ os) c = do c' ← handle o c; parse_cmdline_args os c'
