-- ===== src/Apps/Bundle/Marks.antt =====
-- What `markRolledBack` does to the outcomes of the charts.
use bandolier.Prelude.{
  String, Bool, true, false, ◌||◌, ◌≡◌, refl, List, [], ◌∷◌, ◌++◌, map, ◌==◌, if◌then◌else◌, All,
  arith, eq_iff,
}
use bandolier.Store.Tables.{
  ChartOutcome, ChartResult, succeeded, failed, skipped, rolled_back, not_attempted,
}
use bandolier.Apps.Types.{BundleChartChoice}
use bandolier.Apps.Bundle.{has_release, mark_rolled_back, chart_outcome, preseed}

-- What is expected to be reported of a chart: with its names, the result where it was not left out.
abbrev pub report : BundleChartChoice → ChartResult → ChartOutcome
report c r = record {
  chart = c.chart;
  version = c.version;
  release = c.release;
  outcome = if c.skip then skipped else r;
}

abbrev pub passed : BundleChartChoice → ChartOutcome
passed c = report c succeeded

abbrev pub undone : BundleChartChoice → ChartOutcome
undone c = report c rolled_back

abbrev pub unreached : BundleChartChoice → ChartOutcome
unreached c = report c not_attempted

-- A chart before the current one: it was left out, or it was installed and will be rolled back.
abbrev pub covered_by : List BundleChartChoice → ChartResult → String → Bool
covered_by installed succeeded release = has_release release installed
covered_by installed skipped release = true
covered_by installed _ release = false

abbrev pub Covered : List BundleChartChoice → ChartOutcome → Type 0
Covered installed o = covered_by installed o.outcome o.release ≡ true

has_release-append :
    (r : String) (cs : List BundleChartChoice) (c : BundleChartChoice)
    → has_release r (cs ++ c ∷ []) ≡ (has_release r cs || c.release == r)
has_release-append r [] c = ground arith
has_release-append r (d ∷ cs) c = ground (arith, has_release-append r cs c)

covered_by-append :
    (cs : List BundleChartChoice) (c : BundleChartChoice) (k : ChartResult) (r : String)
    → covered_by cs k r ≡ true
    → covered_by (cs ++ c ∷ []) k r ≡ true
covered_by-append cs c succeeded r h = ground (arith, has_release-append r cs c)
covered_by-append cs c failed r h = cc
covered_by-append cs c skipped r h = refl
covered_by-append cs c rolled_back r h = cc
covered_by-append cs c not_attempted r h = cc

pub Covered-append :
    (cs : List BundleChartChoice) (c : BundleChartChoice) (os : List ChartOutcome)
    → All (Covered cs) os
    → All (Covered (cs ++ c ∷ [])) os
Covered-append cs c [] h = tt
Covered-append cs c (o ∷ os) h =
    (covered_by-append cs c o.outcome o.release h.0, Covered-append cs c os h.1)

pub Covered-last :
    (cs : List BundleChartChoice) (c d : BundleChartChoice)
    → d.release ≡ c.release
    → Covered (cs ++ d ∷ []) (chart_outcome c succeeded)
Covered-last cs c d e =
    ground (arith, has_release-append c.release cs d, eq_iff d.release c.release)

pub mark_rolled_back-append :
    (cs : List BundleChartChoice) (os ps : List ChartOutcome)
    → mark_rolled_back cs (os ++ ps) ≡ mark_rolled_back cs os ++ mark_rolled_back cs ps
unfolding mark_rolled_back
mark_rolled_back-append cs [] ps = refl
mark_rolled_back-append cs (o ∷ os) ps = rw (mark_rolled_back-append cs os ps) refl

-- Every chart that was installed is marked.
mark-passed :
    (cs ds : List BundleChartChoice)
    → All (Covered cs) (map passed ds)
    → mark_rolled_back cs (map passed ds) ≡ map undone ds
unfolding mark_rolled_back
mark-passed cs [] h = refl
mark-passed cs (d ∷ ds) h = ground (arith, mark-passed cs ds h.1)

-- A chart that was not reached, or failed, stays as it was.
mark-preseed :
    (cs ds : List BundleChartChoice) → mark_rolled_back cs (map preseed ds) ≡ map unreached ds
unfolding mark_rolled_back
mark-preseed cs [] = refl
mark-preseed cs (d ∷ ds) = ground (arith, mark-preseed cs ds)

mark-failed :
    (cs : List BundleChartChoice) (c : BundleChartChoice) (ds : List BundleChartChoice)
    → c.skip ≡ false
    → mark_rolled_back cs (chart_outcome c failed ∷ map preseed ds)
      ≡ report c failed ∷ map unreached ds
unfolding mark_rolled_back
mark-failed cs c ds kept = ground (arith, mark-preseed cs ds)

pub mark-broken :
    (cs before : List BundleChartChoice) (c : BundleChartChoice) (after : List BundleChartChoice)
    → c.skip ≡ false
    → All (Covered cs) (map passed before)
    → mark_rolled_back cs (map passed before ++ chart_outcome c failed ∷ map preseed after)
      ≡ map undone before ++ report c failed ∷ map unreached after
mark-broken cs before c after kept h =
    rw
      (
        mark_rolled_back-append cs (map passed before) (chart_outcome c failed ∷ map preseed after),
        mark-passed cs before h,
        mark-failed cs c after kept,
      )
      refl
