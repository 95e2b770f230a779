-- ===== src/Filter.antt =====
-- The kernel side of the filter: main/xdp_prog_kern.c and the headers of main/common/.
pub mod Parse
pub mod Rules
pub mod Stats
pub mod Prog
pub mod Spec
