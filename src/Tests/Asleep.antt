-- ===== src/Tests/Asleep.antt =====
-- A passage over Ann's account, asleep for two years and warned.
use zendou_backend.Common.{arith, ◌≡◌, refl, some, [], ◌∷◌}
use zendou_backend.Text.{text}
use zendou_backend.Schema.{World}
use zendou_backend.AccountLifecycle.{has_purchased_credits}
use zendou_backend.AccountLifecycle.Anonymization.{anonymize}
use zendou_backend.AccountLifecycle.Inactivity.{
  Sweep, run_sweep, lift_warnings, warn, candidates_from, anonymize_due,
}
use zendou_backend.AccountLifecycle.Inactivity.Notice.{SweepEnds, run_sweep-SweepEnds}
use zendou_backend.Tests.{instant, env, fresh, ann, office}
use zendou_backend.Tests.Accounts.{erasing}

abbrev quiet : World
quiet = record office {
  users = record ann { last_activity_at = some 5000; inactivity_warning_sent_at = some 6000 } ∷ [];
}

abbrev sweep : Sweep
sweep = record {
  now = instant;
  warning_cutoff = 5500;
  anonymize_cutoff = 5000;
  order = λ us. us;
  env = env;
  fresh = λ id. fresh;
  message = λ u. record { subject = text "s"; html = text "h"; body = text "b" };
  erasing = erasing;
}

-- It erases one account.
one_erased :
    (w : World) × (run_sweep sweep 2 quiet
      ≡ some (record { warnings_lifted = 0; warned = 0; anonymized = 1 }, w))
unfolding run_sweep lift_warnings warn candidates_from anonymize_due anonymize has_purchased_credits
one_erased = (_, refl)

run_sweep-SweepEnds_example : SweepEnds sweep 2 quiet
run_sweep-SweepEnds_example = run_sweep-SweepEnds sweep (omega arith) quiet (λ us. refl)
