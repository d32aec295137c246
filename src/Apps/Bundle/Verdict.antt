-- ===== src/Apps/Bundle/Verdict.antt =====
-- What the loop over the charts of a bundle reports of each of them.
use bandolier.Prelude.{
  subst, ap, sym, ◌∙◌, ℕ, suc, String, Bool, true, false, ◌≡◌, refl, List, [], ◌∷◌, ◌++◌, map,
  Option, none, some, All, All-append, append-nil, append_assoc,
}
use bandolier.Store.Tables.{ChartOutcome, ChartResult, succeeded, failed, skipped}
use bandolier.World.{Env, World}
use bandolier.World.Exec.{Exec}
use bandolier.World.Returns.{Never, Returns, SpecR, if-SpecR, SpecR-bind, SpecR-pure}
use bandolier.Deployments.Stable.{Stable}
use bandolier.Apps.Types.{BundleChartChoice, BundleInstallRequest}
use bandolier.Apps.Run.{AppTask}
use bandolier.Apps.Goroutines.Specs.{say-Spec}
use bandolier.Apps.Bundle.{
  ChartEnd, chart_done, values_failed, helm_failed, BundleEnd, chart_outcome, resolved, after_chart,
}
use bandolier.Apps.Bundle.Loop.{install_from, give_up, broken}
use bandolier.Apps.Bundle.Specs.{install_chart-Spec, rollback_installed-Spec, announcing-Spec}
use bandolier.Apps.Bundle.Marks.{
  report, passed, undone, unreached, Covered, Covered-append, Covered-last, mark-broken,
}

-- The chart that failed, with those before and after it: those before it were rolled back or left
-- out, those after it were not attempted or left out.
pub record BrokenAt (choices : List BundleChartChoice) (outcomes : List ChartOutcome) : Type 0 where
  pub before : List BundleChartChoice
  pub broke : BundleChartChoice
  pub after : List BundleChartChoice
  pub parts : choices ≡ before ++ broke ∷ after
  pub kept : broke.skip ≡ false
  pub reported : outcomes ≡ map undone before ++ report broke failed ∷ map unreached after

-- Without an error every chart was installed or left out.
abbrev pub EndsFairly : List BundleChartChoice → Option String → List ChartOutcome → Type 0
EndsFairly choices none os = os ≡ map passed choices
EndsFairly choices (some e) os = BrokenAt choices os

abbrev pub Fair : List BundleChartChoice → BundleEnd → Type 0
Fair choices end = EndsFairly choices end.error end.outcomes

abbrev Anywhere : World → Type 0
Anywhere w = Unit

anywhere : (id : String) → Stable id Anywhere
anywhere id = record { on_emit = λ e w early u. tt; on_call = λ v w u. tt }

map-append : {A B : Type 0} (f : A → B) (xs ys : List A) → map f (xs ++ ys) ≡ map f xs ++ map f ys
map-append f [] ys = refl
map-append f (x ∷ xs) ys = rw (map-append f xs ys) refl

-- One more chart at the end of those that the loop has passed.
passed-last :
    (seen : List BundleChartChoice) (c : BundleChartChoice) (r : ChartResult)
    (done : List ChartOutcome)
    → done ≡ map passed seen
    → passed c ≡ chart_outcome c r
    → done ++ chart_outcome c r ∷ [] ≡ map passed (seen ++ c ∷ [])
passed-last seen c r done e h = rw (e, map-append passed seen (c ∷ []), h) refl

seen-last :
    (choices seen : List BundleChartChoice) (c : BundleChartChoice) (cs : List BundleChartChoice)
    → choices ≡ seen ++ c ∷ cs
    → choices ≡ (seen ++ c ∷ []) ++ cs
seen-last choices seen c cs p = rw (append_assoc seen (c ∷ []) cs) p

broken-Fair :
    (env : Env) (t : AppTask) (req : BundleInstallRequest) (fqdn : String)
    (choices seen : List BundleChartChoice) (done : List ChartOutcome)
    (installed : List BundleChartChoice) (c : BundleChartChoice) (cs : List BundleChartChoice)
    (msg : String)
    → choices ≡ seen ++ c ∷ cs
    → done ≡ map passed seen
    → c.skip ≡ false
    → All (Covered installed) done
    → Fair choices (broken env t req fqdn done installed c cs msg)
broken-Fair env t req fqdn choices seen done installed c cs msg p e kept covered = record {
  before = seen;
  broke = c;
  after = cs;
  parts = p;
  kept = kept;
  reported =
      rw e (mark-broken installed seen c cs kept (subst (All (Covered installed)) e covered));
}

after_chart-SpecR :
    {P E : World → Type 0} {A : Type 0} {R : A → World → Type 0} (next : Exec A)
    (stop : Bool → String → Exec A) (end : ChartEnd)
    → SpecR P R E next
    → ((b : Bool) (msg : String) → SpecR P R E (stop b msg))
    → SpecR P R E (after_chart next stop end)
after_chart-SpecR next stop chart_done sn ss = sn
after_chart-SpecR next stop (values_failed msg) sn ss = ss false msg
after_chart-SpecR next stop (helm_failed msg) sn ss = ss true msg

module _ (env : Env) (t : AppTask) (req : BundleInstallRequest) (fqdn : String) where
  module _ (choices : List BundleChartChoice) where
    give_up-SpecR :
        (seen : List BundleChartChoice) (done : List ChartOutcome)
        (installed : List BundleChartChoice) (c : BundleChartChoice) (cs : List BundleChartChoice)
        (b : Bool) (msg : String)
        → choices ≡ seen ++ c ∷ cs
        → done ≡ map passed seen
        → c.skip ≡ false
        → All (Covered installed) done
        → SpecR Anywhere
            (λ end w. Fair choices end)
            Never
            (give_up env t req fqdn done installed c cs b msg)
    give_up-SpecR seen done installed c cs b msg p e kept covered =
        SpecR-bind _ _ (announcing-Spec t (anywhere t.install_id) env req fqdn c.chart installed b)
          (λ _.
            SpecR-bind _ _ (rollback_installed-Spec t (anywhere t.install_id) env installed) (λ _.
              SpecR-pure _ (λ w u.
                broken-Fair env t req fqdn choices seen done installed c cs msg p e kept covered)))

    one_more :
        (installed : List BundleChartChoice) (done : List ChartOutcome) (c : BundleChartChoice)
        → All (Covered installed) done
        → All
            (Covered (installed ++ resolved env t req fqdn c ∷ []))
            (done ++ chart_outcome c succeeded ∷ [])
    one_more installed done c covered =
        All-append (Covered (installed ++ resolved env t req fqdn c ∷ [])) done
          (chart_outcome c succeeded ∷ [])
          (Covered-append installed (resolved env t req fqdn c) done covered)
          (Covered-last installed c (resolved env t req fqdn c) refl, tt)

    Fair-from :
        (cs : List BundleChartChoice) (seen : List BundleChartChoice) (index : ℕ)
        (done : List ChartOutcome) (installed : List BundleChartChoice)
        → choices ≡ seen ++ cs
        → done ≡ map passed seen
        → All (Covered installed) done
        → SpecR Anywhere
            (λ end w. Fair choices end)
            Never
            (install_from env t req fqdn index done installed cs)
    unfolding install_from
    Fair-from [] seen index done installed p e covered =
        SpecR-pure _ (λ w u. e ∙ ap (map passed) (sym (append-nil seen) ∙ sym p))
    Fair-from (c ∷ cs) seen index done installed p e covered =
        if-SpecR c.skip _ _
          (λ k. SpecR-bind _ _ (say-Spec t (anywhere t.install_id) env _) (λ _.
            Fair-from cs (seen ++ c ∷ []) index (done ++ chart_outcome c skipped ∷ []) installed
              (seen-last choices seen c cs p) (passed-last seen c skipped done e (rw k refl))
              (All-append (Covered installed) done (chart_outcome c skipped ∷ []) covered
                (refl, tt))))
          (λ k.
            SpecR-bind _ _
              (install_chart-Spec t (anywhere t.install_id) env req fqdn _ _
                (resolved env t req fqdn c))
              (λ end.
                after_chart-SpecR _ _ end
                  (Fair-from cs (seen ++ c ∷ []) (suc index)
                    (done ++ chart_outcome c succeeded ∷ [])
                    (installed ++ resolved env t req fqdn c ∷ []) (seen-last choices seen c cs p)
                    (passed-last seen c succeeded done e (rw k refl))
                    (one_more installed done c covered))
                  (λ b msg. give_up-SpecR seen done installed c cs b msg p e k covered)))

-- Whatever helm answers, the loop of a bundle comes to an end with one outcome for each chart of
-- the request, in its order. If it ends without an error, the charts were installed, and `skipped`
-- where the operator left them out. If it ends with one, one chart is reported as failed; those
-- before it are reported as rolled back and those after it as not attempted, and as skipped where
-- the operator left them out.
pub install_from-Fair :
    (env : Env) (t : AppTask) (req : BundleInstallRequest) (fqdn : String) (w : World)
    → Returns
        (λ end v. Fair req.choices end)
        Never
        (install_from env t req fqdn 0 [] [] req.choices w).0
        (install_from env t req fqdn 0 [] [] req.choices w).1
install_from-Fair env t req fqdn w =
    (Fair-from env t req fqdn req.choices req.choices [] 0 [] [] refl refl tt).at w tt
