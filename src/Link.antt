-- ===== src/Link.antt =====
-- common/common_user_bpf_xdp.c: `xdp_link_attach` and `xdp_link_detach`, over the two calls of
-- libbpf that speak to the kernel about an interface. What is printed is left out.
pub mod Swap
use anti_dos.Base.{
  ℕ, Bool, true, false, ◌&&◌, not, ℤ, pos, negsuc, is_neg, bit_and, bit_or, ◌==◌, if◌then◌else◌,
}

abbrev pub update_if_noexist : ℕ
update_if_noexist = 1

abbrev pub skb_mode : ℕ
skb_mode = 2

abbrev pub drv_mode : ℕ
drv_mode = 4

abbrev pub all_modes : ℕ
all_modes = 14

abbrev pub exit_fail : ℕ
exit_fail = 1

abbrev pub exit_fail_xdp : ℕ
exit_fail_xdp = 30

-- `err == -EEXIST`
abbrev pub is_eexist : ℤ → Bool
is_eexist (pos n) = false
is_eexist (negsuc n) = n == 16

-- Whether an `int` is not 0.
abbrev pub nonzero : ℤ → Bool
nonzero (pos n) = not (n == 0)
nonzero (negsuc n) = true

-- `xdp_flags &= ~XDP_FLAGS_MODES`, and then the other one of the two modes.
unfoldable pub opposite : ℕ → ℕ
opposite flags =
    bit_or (bit_and flags 0xfffffff1)
      (if not (bit_and flags skb_mode == 0) then drv_mode else skb_mode)

-- `bpf_set_link_xdp_fd` takes the interface, the program and the flags, `bpf_get_link_xdp_id` the
-- interface and the flags, and gives the result and the id. `Net` is the state of the kernel.
module _ {Net : Type 0} (set_link_xdp_fd : ℕ → ℤ → ℕ → Net → ℤ × Net) where
  -- The second attempt, after the program of the other mode was taken off.
  unfoldable pub retry : ℕ → ℕ → ℕ → Net → ℤ × Net
  unfolding opposite
  retry ifindex xdp_flags prog_fd net =
      let (err, net') = set_link_xdp_fd ifindex (negsuc 0) (opposite xdp_flags) net in
      if nonzero err then (err, net') else set_link_xdp_fd ifindex (pos prog_fd) xdp_flags net'

  unfoldable pub xdp_link_attach : ℕ → ℕ → ℕ → Net → ℕ × Net
  unfolding retry
  xdp_link_attach ifindex xdp_flags prog_fd net =
      let first = set_link_xdp_fd ifindex (pos prog_fd) xdp_flags net in
      let last =
        (if is_eexist first.0 && (bit_and xdp_flags update_if_noexist == 0)
          then retry ifindex xdp_flags prog_fd first.1
          else first) in
      ((if is_neg last.0 then exit_fail_xdp else 0), last.1)

  unfoldable pub xdp_link_detach : (ℕ → ℕ → Net → ℤ × ℕ) → ℕ → ℕ → ℕ → Net → ℕ × Net
  xdp_link_detach get_link_xdp_id ifindex xdp_flags expected_prog_id net =
      let (err, curr_prog_id) = get_link_xdp_id ifindex xdp_flags net in
      let removed = set_link_xdp_fd ifindex (negsuc 0) xdp_flags net in
      if nonzero err
      then (exit_fail_xdp, net)
      else if curr_prog_id == 0
      then (0, net)
      else if not (expected_prog_id == 0) && not (curr_prog_id == expected_prog_id)
      then (exit_fail, net)
      else if is_neg removed.0
      then (exit_fail_xdp, removed.1)
      else (0, removed.1)
