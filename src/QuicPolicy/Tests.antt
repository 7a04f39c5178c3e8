-- ===== src/QuicPolicy/Tests.antt =====
-- A table with one final status.
use proxy_lane.Common.{◌≡◌, refl, some, [], ◌∷◌, arith}
use proxy_lane.QuicPolicy.{
  Status, Report, Key, Table, pending, ready, observe, write, find, replace, lookup,
}
use proxy_lane.QuicPolicy.Reports.{Wrote, observe_lem}

abbrev browser : Key
browser = record { owner = 1; pid = 20; birth = 300 }

abbrev table : Table
table = (browser, record { status = ready; updated = 50 }) ∷ []

abbrev late : Report
late = record { birth = 300; status = some pending }

-- The pending report changes nothing.
observe-pending : lookup (observe 60 60 table 1 20 late) 1 20 300 Status.no_status ≡ ready
unfolding observe write find replace lookup
observe-pending = refl

observe_lem_example : Wrote 60 60 table browser pending (observe 60 60 table 1 20 late)
observe_lem_example =
    observe_lem 60 60 table 1 20 late pending (λ e. omega (arith, e)) (λ e. omega (arith, e)) refl
      refl
