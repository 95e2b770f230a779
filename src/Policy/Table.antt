-- ===== src/Policy/Table.antt =====
-- main/start_policy.c, first half of `detect_attackers`: the packets of the interval are counted by
-- policy and source. `none` is an access outside `ip[2][100]`, or one of `list_policy` and `psi`
-- past the other's end.
pub mod Rows
pub mod Fills
pub mod Single
pub mod Clean
pub mod Several
pub mod Noted
pub mod Every
use anti_dos.Base.{
  ℕ, zero, suc, ◌+◌, ◌%◌, ◌^◌, Bool, true, false, List, [], ◌∷◌, Option, none, some, ◌==◌,
  if◌then◌else◌, ◌>>=◌,
}
use anti_dos.Filter.Stats.{PktMeta}
use anti_dos.Policy.{Policy, PolicyStatsIp}

-- The inner loop over the first `n` rows: the row of `src` is counted up and `flag` is set.
unfoldable pub scan : ℕ → ℕ → List (ℕ × ℕ) → Option (List (ℕ × ℕ) × Bool)
scan src zero rows = some (rows, false)
scan src (suc n) [] = none
scan src (suc n) ((ip, c) ∷ rows) =
    let rest = scan src n rows in
    if src == ip
    then some ((ip, (c + 1) % 2 ^ 32) ∷ rows, true)
    else do r ← rest; some ((ip, c) ∷ r.0, r.1)

-- A write to row `i`.
unfoldable pub store : ℕ → ℕ × ℕ → List (ℕ × ℕ) → Option (List (ℕ × ℕ))
store i v [] = none
store zero v (r ∷ rows) = some (v ∷ rows)
store (suc i) v (r ∷ rows) = do rows' ← store i v rows; some (r ∷ rows')

-- A packet of `src` that a policy matches. `num` is the variable `num_ip` of the function, which all
-- policies share.
unfoldable pub visit : ℕ → ℕ → PolicyStatsIp → Option (ℕ × PolicyStatsIp)
unfolding scan store
visit src num psi = do
  r ← scan src psi.num_ip psi.slots
  if r.1 then some (num, record { slots = r.0; num_ip = num }) else do
    rows ← store num (src, 1) r.0
    some (num + 1, record { slots = rows; num_ip = num + 1 })

-- The loop over the policies.
unfoldable pub each_policy :
    PktMeta → ℕ → List Policy → List PolicyStatsIp → Option (ℕ × List PolicyStatsIp)
unfolding visit
each_policy meta num [] psis = some (num, psis)
each_policy meta num (pol ∷ pols) [] = none
each_policy meta num (pol ∷ pols) (psi ∷ psis) = do
  v ← if meta.dst == pol.ip then visit meta.src num psi else some (num, psi)
  r ← each_policy meta v.0 pols psis
  some (r.0, v.1 ∷ r.1)

-- The loop over the packets.
unfoldable pub each_packet :
    List PktMeta → ℕ → List Policy → List PolicyStatsIp → Option (ℕ × List PolicyStatsIp)
unfolding each_policy
each_packet [] num pols psis = some (num, psis)
each_packet (m ∷ ms) num pols psis = do r ← each_policy m num pols psis; each_packet ms r.0 pols r.1

-- `psi[i].num_ip = 0`; the rows keep what the stack holds.
abbrev pub reset : List PolicyStatsIp → List PolicyStatsIp
reset [] = []
reset (psi ∷ psis) = record psi { num_ip = 0 } ∷ reset psis

unfoldable pub count_packets :
    List PktMeta → List Policy → List PolicyStatsIp → Option (ℕ × List PolicyStatsIp)
unfolding each_packet
count_packets queue pols junk = each_packet queue 0 pols (reset junk)
