-- ===== src/Job/Runs.antt =====
-- How a job's actions run one after another.
use smirror.Prelude.{List, [], ◌∷◌, ◌++◌, false, errorf, Result, ok, err, ◌≡◌, refl, sym, ap, ◌∙◌}
use smirror.Text.Search.{codes, same}
use smirror.External.{Urls}
use smirror.Config.Types.{Info, Action}
use smirror.Act.{Act, continue}
use smirror.Job.{Context, Effects, do_action, do_and_report, run_all}

module _ (urls : Urls) {W : Type 0} (fx : Effects W) (ctx : Context) (info : Info) where
  continue_assoc :
      {A B C : Type 0} (r : Result A × W) (f : A → Act W B) (g : B → Act W C)
      → continue (continue r f) g ≡ continue r (λ a w. continue (f a w) g)
  continue_assoc (ok a, w) f g = refl
  continue_assoc (err e, w) f g = refl

  -- Two lists of actions in a row: the second one runs where the first one ends, if that succeeds.
  run_all-append :
      (first second : List Action) (w : W)
      → run_all urls fx ctx info (first ++ second) w
        ≡ continue (run_all urls fx ctx info first w) (λ _. run_all urls fx ctx info second)
  unfolding run_all
  run_all-append [] second w = refl
  run_all-append (a ∷ first) second w = λ i.
      (ap (continue (do_and_report urls fx ctx info a w))
            (λ j _ w'. run_all-append first second w' j)
          ∙ sym (
              continue_assoc {A = Unit {0}} {B = Unit {0}} {C = Unit {0}}
                (do_and_report urls fx ctx info a w) (λ _. run_all urls fx ctx info first)
                (λ _. run_all urls fx ctx info second)))
        i

  -- An action of another name than delete, notify and move ends the run with an error, whatever
  -- stands behind it, in the state that the actions in front of it left; it and those behind it change
  -- nothing.
  pub run_all-unsupported :
      (first : List Action) (a : Action) (second : List Action) (w w' : W)
      → run_all urls fx ctx info first w ≡ (ok tt, w')
      → same a.action (codes "delete") ≡ false
      → same a.action (codes "notify") ≡ false
      → same a.action (codes "move") ≡ false
      → run_all urls fx ctx info (first ++ a ∷ second) w
        ≡ (err (errorf (codes "unsupported action: " ++ a.action)), w')
  unfolding run_all do_and_report do_action
  run_all-unsupported first a second w w' ran not_delete not_notify not_move =
      run_all-append first (a ∷ second) w ∙ rw (ran, not_delete, not_notify, not_move)
