-- ===== src/Params/Modes.antt =====
-- common/common_params.c: the mode that the command line chooses.
use anti_dos.Base.{
  ℕ, ◌+◌, ◌-◌, ◌%◌, ◌<◌, ◌≡◌, refl, Bool, true, false, not, ◌&&◌, ◌||◌, ◌==◌, leb, List, [], ◌∷◌,
  Option, none, some, ℤ, pos, length, if◌then◌else◌, arith, bit_or_mode, bit_and_even,
}
use anti_dos.Maps.Kernel.{Text}
use anti_dos.Policy.BlackList.{or_else}
use anti_dos.Params.{
  Opt, Config, find_dev, handle, parse_cmdline_args, dev, redirect_dev, auto_mode, skb_mode,
  native_mode, offload_mode, force, help, other,
}

-- The mode that an option chooses: the flag of generic, native or offload mode, or none of them.
unfoldable pub mode_of : Opt → Option ℕ
mode_of auto_mode = some 0
mode_of skb_mode = some 2
mode_of native_mode = some 4
mode_of offload_mode = some 8
mode_of _ = none

-- The last mode that is chosen, from `m`.
unfoldable pub last_mode : List Opt → ℕ → ℕ
unfolding mode_of
last_mode [] m = m
last_mode (o ∷ os) m = last_mode os (or_else (mode_of o) m)

unfoldable pub is_force : Opt → Bool
is_force force = true
is_force _ = false

unfoldable pub forced : List Opt → Bool
unfolding is_force
forced [] = false
forced (o ∷ os) = is_force o || forced os

mode_even :
    (o : Opt) (m : ℕ)
    → m % 2 ≡ 0
    → m < 16
    → (or_else (mode_of o) m % 2 ≡ 0) × (or_else (mode_of o) m < 16)
unfolding mode_of
mode_even auto_mode m h b = omega arith
mode_even skb_mode m h b = omega arith
mode_even native_mode m h b = omega arith
mode_even offload_mode m h b = omega arith
mode_even _ m h b = (h, b)

-- What an option leaves of the bit `XDP_FLAGS_UPDATE_IF_NOEXIST`.
abbrev kept : Opt → ℕ → ℕ
kept o f = if is_force o then 0 else f % 2

module _ (if_nametoindex : Text → ℕ) (atoi : Text → ℤ) where
  -- Whether the loop goes on behind the option.
  unfoldable pub good : Opt → Bool
  good o = elim o [
    | dev name ↦ not (leb 16 (length name)) && not (if_nametoindex name == 0)
    | redirect_dev name ↦ not (leb 16 (length name)) && not (if_nametoindex name == 0)
    | help ↦ false
    | other ↦ false
    | _ ↦ true
  ]

  Steps : Opt → Config → Type 0
  Steps o c =
      (c' : Config) × (handle if_nametoindex atoi o c ≡ some c')
      × (c'.xdp_flags ≡ or_else (mode_of o) (c.xdp_flags - c.xdp_flags % 2) + kept o c.xdp_flags)

  plain :
      (o : Opt) (c c' : Config)
      → handle if_nametoindex atoi o c ≡ some c'
      → c'.xdp_flags ≡ c.xdp_flags
      → mode_of o ≡ none
      → is_force o ≡ false
      → Steps o c
  unfolding Steps
  plain o c c' h e m f = (c', h, ground (arith, e, m, f))

  step : (o : Opt) (c : Config) → c.xdp_flags < 16 → good o ≡ true → Steps o c
  unfolding handle find_dev good Steps mode_of is_force
  step auto_mode c h g = (_, refl, bit_or_mode 0 c.xdp_flags (omega arith) refl h)
  step skb_mode c h g = (_, refl, bit_or_mode 2 c.xdp_flags (omega arith) refl h)
  step native_mode c h g = (_, refl, bit_or_mode 4 c.xdp_flags (omega arith) refl h)
  step offload_mode c h g = (_, refl, bit_or_mode 8 c.xdp_flags (omega arith) refl h)
  step force c h g = (_, refl, ground (arith, bit_and_even c.xdp_flags h))
  step (dev name) c h g =
      plain (dev name) c (record c { ifname = some name; ifindex = pos (if_nametoindex name) })
        (ground (arith, g)) refl refl refl
  step (redirect_dev name) c h g =
      plain (redirect_dev name) c
        (record c { redirect_ifname = some name; redirect_ifindex = pos (if_nametoindex name) })
        (ground (arith, g)) refl refl refl
  step help c h g = ground (arith, g)
  step other c h g = ground (arith, g)
  step o c h g = plain o c _ refl refl refl refl

  unfoldable pub all_good : List Opt → Bool
  unfolding good
  all_good [] = true
  all_good (o ∷ os) = good o && all_good os

  -- If every device that the command line names has fewer than 16 characters and is found, and
  -- neither `--help` nor an unknown option occurs, `parse_cmdline_args` does not exit; the mode in
  -- the flags is the last one chosen, whatever came before it, and `XDP_FLAGS_UPDATE_IF_NOEXIST` is
  -- as before, or cleared by `--force`.
  pub parse_cmdline_args_lem :
      (os : List Opt) (c : Config)
      → all_good os ≡ true
      → c.xdp_flags < 16
      → (c' : Config) × (parse_cmdline_args if_nametoindex atoi os c ≡ some c')
        × (c'.xdp_flags
            ≡ last_mode os (c.xdp_flags - c.xdp_flags % 2)
              + (if forced os then 0 else c.xdp_flags % 2))
  unfolding parse_cmdline_args all_good last_mode forced Steps
  parse_cmdline_args_lem [] c g h = (c, refl, omega arith)
  parse_cmdline_args_lem (o ∷ os) c g h =
      let (c1, e, f) = step o c h (ground (arith, g)) in
      let m = mode_even o (c.xdp_flags - c.xdp_flags % 2) (omega arith) (omega arith) in
      let small : c1.xdp_flags < 16 = ground (arith, f, m) in
      let (c', e', f') = parse_cmdline_args_lem os c1 (ground (arith, g)) small in
      (c', ground (arith, e, e'), ground (arith, f, m, f'))
