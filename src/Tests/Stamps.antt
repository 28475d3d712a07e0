-- ===== src/Tests/Stamps.antt =====
-- src/db.rs: a timestamp of an older version, read and repaired.
use stellar_gate.Prelude.{◌≡◌, refl}
use stellar_gate.Text.{codes}
use stellar_gate.Db.Timestamps.{normalize_ts, repair}
use stellar_gate.Db.Timestamps.Repaired.{normalize_ts-repair}

normalize_ts-repair_example :
    (repair (codes "2026-04-29 15:00:00") ≡ codes "2026-04-29T15:00:00Z")
    × (normalize_ts (codes "2026-04-29 15:00:00") ≡ codes "2026-04-29T15:00:00Z")
    × (repair (codes "2026-04-29T15:00:00Z") ≡ codes "2026-04-29T15:00:00Z")
    × (normalize_ts (codes "2026-04-29T15:00:00Z") ≡ codes "2026-04-29T15:00:00Z")
normalize_ts-repair_example =
    normalize_ts-repair (codes "2026-04-29") (codes "15:00:00")
      (refl, (refl, (refl, (refl, (refl, (refl, (refl, (refl, (refl, (refl, tt))))))))))
      (refl, (refl, (refl, (refl, (refl, (refl, (refl, (refl, tt)))))))) refl refl
