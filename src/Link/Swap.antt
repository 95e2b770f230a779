-- ===== src/Link/Swap.antt =====
-- common/common_user_bpf_xdp.c: an interface that carries a program of the other mode is switched.
use anti_dos.Base.{
  ℕ, ◌+◌, ◌%◌, ◌≡◌, ◌≢◌, refl, sym, ◌⊎◌, inl, inr, Option, none, some, ℤ, pos, negsuc, bit_and,
  arith,
}
use anti_dos.Link.{xdp_link_attach, xdp_link_detach, retry, opposite}

-- What an interface carries: the flag of the mode and the program's descriptor.
abbrev pub Carried : Type 0
Carried = Option (ℕ × ℕ)

-- What an interface carries after a successful call.
abbrev pub carried_by : ℤ → ℕ → Carried
carried_by (pos fd) mode = some (mode, fd)
carried_by (negsuc _) mode = none

-- The modes between which `--force` switches.
abbrev pub Switchable : ℕ → Type 0
Switchable mode = (mode ≡ 2) ⊎ (mode ≡ 4)

-- The kernel on one interface, as rtnetlink documents it: it replaces a program of the same mode,
-- and refuses the flags of one mode with -EEXIST while it carries a program of the other. With
-- `XDP_FLAGS_UPDATE_IF_NOEXIST`, the lowest bit, it refuses to replace any program.
pub record Kernel {Net : Type 0} (set_link_xdp_fd : ℕ → ℤ → ℕ → Net → ℤ × Net) (ifindex : ℕ)
    : Type 0 where
  pub carries : Net → Carried
  pub set_empty :
      (fd : ℤ) (mode : ℕ) (net : Net)
      → carries net ≡ none
      → mode % 2 ≡ 0
      → ((set_link_xdp_fd ifindex fd mode net).0 ≡ pos 0)
        × (carries (set_link_xdp_fd ifindex fd mode net).1 ≡ carried_by fd mode)
  pub set_same :
      (fd : ℤ) (mode old : ℕ) (net : Net)
      → carries net ≡ some (mode, old)
      → ((set_link_xdp_fd ifindex fd mode net).0 ≡ pos 0)
        × (carries (set_link_xdp_fd ifindex fd mode net).1 ≡ carried_by fd mode)
  pub set_other :
      (fd : ℤ) (mode mode' old : ℕ) (net : Net)
      → carries net ≡ some (mode', old)
      → mode ≢ mode'
      → mode % 2 ≡ 0
      → set_link_xdp_fd ifindex fd mode net ≡ (negsuc 16, net)
  pub set_busy :
      (fd flags mode' old : ℕ) (net : Net)
      → carries net ≡ some (mode', old)
      → Switchable mode'
      → flags % 2 ≡ 1
      → (n : ℕ) × (set_link_xdp_fd ifindex (pos fd) flags net ≡ (negsuc n, net))

module _ {Net : Type 0} (set_link_xdp_fd : ℕ → ℤ → ℕ → Net → ℤ × Net) (ifindex : ℕ)
    (k : Kernel set_link_xdp_fd ifindex) (prog_fd : ℕ) (net : Net) where
  open k use {carries, set_empty, set_same, set_other}

  attach : ℕ → ℕ × Net
  attach mode = xdp_link_attach set_link_xdp_fd ifindex mode prog_fd net

  Attached : ℕ → Type 0
  Attached mode = ((attach mode).0 ≡ 0) × (carries (attach mode).1 ≡ some (mode, prog_fd))

  attach_free : (mode : ℕ) → carries net ≡ none → mode % 2 ≡ 0 → Attached mode
  unfolding Attached attach xdp_link_attach
  attach_free mode h even = ground (arith, set_empty (pos prog_fd) mode net h even)

  attach_same : (mode old : ℕ) → carries net ≡ some (mode, old) → Attached mode
  unfolding Attached attach xdp_link_attach
  attach_same mode old h = ground (arith, set_same (pos prog_fd) mode old net h)

  attach_other :
      (mode mode' old : ℕ)
      → carries net ≡ some (mode', old)
      → mode ≢ mode'
      → opposite mode ≡ mode'
      → bit_and mode 1 ≡ 0
      → mode % 2 ≡ 0
      → Attached mode
  unfolding Attached attach xdp_link_attach retry
  attach_other mode mode' old h d o b even =
      let freed = set_same (negsuc 0) mode' old net h in
      let net' = (set_link_xdp_fd ifindex (negsuc 0) mode' net).1 in
      ground (
        arith,
        set_other (pos prog_fd) mode mode' old net h d even,
        o,
        b,
        freed,
        set_empty (pos prog_fd) mode net' freed.1 even,
      )

  attach_over :
      (mode mode' old : ℕ)
      → Switchable mode
      → Switchable mode'
      → carries net ≡ some (mode', old)
      → Attached mode
  unfolding opposite
  attach_over mode mode' old (inl m) (inl m') h = attach_same mode old (rw m (rw (sym m') h))
  attach_over mode mode' old (inl m) (inr m') h =
      attach_other mode mode' old h (omega (arith, m, m')) (rw (m, m') refl) (rw m refl)
        (omega (arith, m))
  attach_over mode mode' old (inr m) (inl m') h =
      attach_other mode mode' old h (omega (arith, m, m')) (rw (m, m') refl) (rw m refl)
        (omega (arith, m))
  attach_over mode mode' old (inr m) (inr m') h = attach_same mode old (rw m (rw (sym m') h))

  -- On a kernel that behaves as documented, attaching a program in generic or in native mode without
  -- `XDP_FLAGS_UPDATE_IF_NOEXIST` returns 0 and leaves the interface with this program in this mode,
  -- whether it carried none before, one of the same mode, or one of the other.
  pub xdp_link_attach_lem :
      (mode : ℕ)
      → Switchable mode
      → (carries net ≡ none)
        ⊎ ((mode' : ℕ) × (old : ℕ) × Switchable mode' × (carries net ≡ some (mode', old)))
      → ((xdp_link_attach set_link_xdp_fd ifindex mode prog_fd net).0 ≡ 0)
        × (carries (xdp_link_attach set_link_xdp_fd ifindex mode prog_fd net).1
            ≡ some (mode, prog_fd))
  unfolding Attached attach
  xdp_link_attach_lem mode m (inl free) = attach_free mode free (omega (arith, m))
  xdp_link_attach_lem mode m (inr (mode', old, m', h)) = attach_over mode mode' old m m' h

-- What no call of the kernel about the interface changes, attaching does not change.
pub xdp_link_attach_keeps :
    {Net : Type 0} (set_link_xdp_fd : ℕ → ℤ → ℕ → Net → ℤ × Net) (ifindex : ℕ) (f : Net → ℕ)
    → ((fd : ℤ) (flags : ℕ) (net : Net) → f (set_link_xdp_fd ifindex fd flags net).1 ≡ f net)
    → (flags prog_fd : ℕ) (net : Net)
    → f (xdp_link_attach set_link_xdp_fd ifindex flags prog_fd net).1 ≡ f net
unfolding xdp_link_attach retry
xdp_link_attach_keeps set_link_xdp_fd ifindex f keeps flags prog_fd net =
    let first = (set_link_xdp_fd ifindex (pos prog_fd) flags net).1 in
    let freed = (set_link_xdp_fd ifindex (negsuc 0) (opposite flags) first).1 in
    ground (
      arith,
      keeps (pos prog_fd) flags net,
      keeps (negsuc 0) (opposite flags) first,
      keeps (pos prog_fd) flags freed,
    )

-- The flags of a mode, with or without the lowest bit.
abbrev pub FlagsOf : ℕ → ℕ → Type 0
FlagsOf mode flags = (flags ≡ mode) ⊎ (flags ≡ mode + 1)

-- A program is taken off with the flags of its mode: the kernel looks at
-- `XDP_FLAGS_UPDATE_IF_NOEXIST` only for a new program, not for a descriptor below 0.
pub record Removes {Net : Type 0} (set_link_xdp_fd : ℕ → ℤ → ℕ → Net → ℤ × Net) (ifindex : ℕ)
    (carries : Net → Carried) : Type 0 where
  pub removed :
      (mode flags old : ℕ) (net : Net)
      → carries net ≡ some (mode, old)
      → Switchable mode
      → FlagsOf mode flags
      → ((set_link_xdp_fd ifindex (negsuc 0) flags net).0 ≡ pos 0)
        × (carries (set_link_xdp_fd ifindex (negsuc 0) flags net).1 ≡ none)

-- Detaching with the flags of the mode in which the interface carries a program, with or without the
-- lowest bit, and with the id of this program or with no expected id, returns 0 and leaves the
-- interface without a program.
pub xdp_link_detach_lem :
    {Net : Type 0} (set_link_xdp_fd : ℕ → ℤ → ℕ → Net → ℤ × Net) (ifindex : ℕ)
    (k : Kernel set_link_xdp_fd ifindex) (r : Removes set_link_xdp_fd ifindex k.carries)
    (get_link_xdp_id : ℕ → ℕ → Net → ℤ × ℕ) (net : Net) (mode flags old id expected : ℕ)
    → k.carries net ≡ some (mode, old)
    → Switchable mode
    → FlagsOf mode flags
    → get_link_xdp_id ifindex flags net ≡ (pos 0, id)
    → (expected ≡ 0) ⊎ (expected ≡ id)
    → id ≢ 0
    → ((xdp_link_detach set_link_xdp_fd get_link_xdp_id ifindex flags expected net).0 ≡ 0)
      × (k.carries (xdp_link_detach set_link_xdp_fd get_link_xdp_id ifindex flags expected net).1
          ≡ none)
unfolding xdp_link_detach
xdp_link_detach_lem set_link_xdp_fd ifindex k r get_link_xdp_id net mode flags old id expected h m
      same g e d =
    ground (arith, g, r.removed mode flags old net h m same)
