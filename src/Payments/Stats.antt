-- ===== src/Payments/Stats.antt =====
-- The figures of the dashboard count every payment once.
use hakawi.Common.{ℕ, ◌+◌, ◌≡◌, refl, List, [], ◌∷◌, arith, filter, count, length, sum, ok}
use hakawi.Payments.Store.{Status, Payment, World}
use hakawi.Payments.Reads.{
  not_deleted, Group, join_group, group_by_status, AdminStats, add_groups, get_admin_stats,
}

join-counts :
    (s : Status) (amount : ℕ) (gs : List Group)
    → (sum (λ g. g.count) (join_group s amount gs) ≡ sum (λ g. g.count) gs + 1)
      × (sum (λ g. g.total_amount) (join_group s amount gs) ≡ sum (λ g. g.total_amount) gs + amount)
unfolding join_group
join-counts s amount [] = (omega arith, omega arith)
join-counts s amount (g ∷ gs) = ground (arith, join-counts s amount gs)

group-counts :
    (ps : List Payment)
    → (sum (λ g. g.count) (group_by_status ps) ≡ length ps)
      × (sum (λ g. g.total_amount) (group_by_status ps) ≡ sum (λ p. p.amount) ps)
unfolding group_by_status
group-counts [] = (refl, refl)
group-counts (p ∷ ps) =
    ground (arith, group-counts ps, join-counts p.status p.amount (group_by_status ps))

add-counts :
    (gs : List Group) (stats : AdminStats)
    → ((add_groups gs stats).total ≡ stats.total + sum (λ g. g.count) gs)
      × ((add_groups gs stats).total_amount ≡ stats.total_amount + sum (λ g. g.total_amount) gs)
unfolding add_groups
add-counts [] stats = (omega arith, omega arith)
add-counts (g ∷ gs) stats =
    let (totals, amounts) = add-counts gs (record {
      total = stats.total + g.count;
      by_status = (g.status, g.count) ∷ stats.by_status;
      total_amount = stats.total_amount + g.total_amount;
    }) in
    (omega (arith, totals), omega (arith, amounts))

pub record IsTally (w : World) (stats : AdminStats) : Type 0 where
  pub counted : stats.total ≡ count not_deleted w.payments
  pub summed : stats.total_amount ≡ sum (λ p. p.amount) (filter not_deleted w.payments)

-- `getAdminStats`, which adds up the groups of the payments by status, answers and writes nothing; its
-- total is the number of the payments that are not deleted, and its amount the sum of their amounts.
pub get_admin_stats-IsTally :
    (w : World) → (stats : AdminStats) × (get_admin_stats w ≡ (ok stats, w)) × IsTally w stats
unfolding get_admin_stats
get_admin_stats-IsTally w =
    let groups = group_by_status (filter not_deleted w.payments) in
    let zero_stats : AdminStats = record { total = 0; by_status = []; total_amount = 0 } in
    let (counts, amounts) = group-counts (filter not_deleted w.payments) in
    let (totals, sums) = add-counts groups zero_stats in
    (
      add_groups groups zero_stats,
      refl,
      record { counted = omega (arith, counts, totals); summed = omega (arith, amounts, sums) },
    )
