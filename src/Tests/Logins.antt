-- ===== src/Tests/Logins.antt =====
-- Failed logins for one address, with the default settings.
use zendou_backend.Common.{◌≡◌, refl, none, some, [], ◌∷◌, arith}
use zendou_backend.LoginLockout.{Keys, lockout_defaults, block_seconds}
use zendou_backend.LoginLockout.Escalation.{failures, InWindow, failures-lock}

-- Locked before, at the first level, until 1060.
abbrev after_lock : Keys
after_lock = record {
  fail = none;
  level = some (record { value = 1; expires = some 87400 });
  block = some 1060;
}

-- The second lock lasts 120 seconds.
second_level : block_seconds lockout_defaults 2 ≡ 120
unfolding block_seconds
second_level = refl

four : InWindow lockout_defaults (1100 ∷ 1110 ∷ 1120 ∷ 1130 ∷ []) 1140
unfolding InWindow
four = ((omega arith, (omega arith, (omega arith, tt))), omega arith)

failures-lock_example :
    (failures lockout_defaults (1100 ∷ 1110 ∷ 1120 ∷ 1130 ∷ 1140 ∷ []) after_lock).block ≡ some 1260
failures-lock_example =
    failures-lock lockout_defaults (1100 ∷ 1110 ∷ 1120 ∷ 1130 ∷ []) 1140 after_lock refl four refl
