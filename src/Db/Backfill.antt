-- ===== src/Db/Backfill.antt =====
-- src/db.rs, `migrate` and `backfill_asset_issuers`: what a start writes into rows that older versions
-- have left. The schema itself is the type of the rows.
pub mod Issuers
pub mod Keys
use stellar_gate.Prelude.{
  ℕ, Bool, true, false, Option, none, some, List, [], ◌∷◌, map, ◌==◌, list_eq, nat_eq, ◌&&◌,
}
use stellar_gate.Text.{Text, to_ascii_uppercase}
use stellar_gate.Money.{parse_stroops}
use stellar_gate.Db.{Db, Payment}
use stellar_gate.Db.Table.{update_where}
use stellar_gate.Db.Payments.{record_processed_tx}
use stellar_gate.Config.{AcceptedAsset}

abbrev pub read_stroops : Text → Option ℕ → Option (Text × ℕ)
read_stroops tx_hash none = none
read_stroops tx_hash (some stroops) = some (tx_hash, stroops)

-- tx_hash IS NOT NULL AND tx_hash <> '' AND paid_amount IS NOT NULL, and an amount that parses.
abbrev pub legacy_entry : Option Text → Option Text → Option (Text × ℕ)
legacy_entry none paid_amount = none
legacy_entry (some []) paid_amount = none
legacy_entry (some (c ∷ tx_hash)) none = none
legacy_entry (some (c ∷ tx_hash)) (some paid_amount) =
    read_stroops (c ∷ tx_hash) (parse_stroops paid_amount)

-- INSERT … ON CONFLICT(payment_id, tx_hash) DO NOTHING
abbrev pub insert_entry : Db → Text → Option (Text × ℕ) → Db
insert_entry db id none = db
insert_entry db id (some (tx_hash, stroops)) = (record_processed_tx db id tx_hash stroops).1

unfoldable pub backfill_rows : List Payment → Db → Db
backfill_rows [] db = db
backfill_rows (p ∷ rows) db =
    backfill_rows rows (insert_entry db p.id (legacy_entry p.tx_hash p.paid_amount))

-- The ledger's part of `migrate`.
abbrev pub backfill_ledger : Db → Db
backfill_ledger db = backfill_rows db.payments db

-- asset_issuer IS NULL OR asset_issuer = ''
abbrev pub lacks_issuer : Option Text → Bool
lacks_issuer none = true
lacks_issuer (some []) = true
lacks_issuer (some (c ∷ issuer)) = false

-- upper(asset) = upper(?), which changes the letters of ASCII only.
unfoldable pub has_same_code : Text → Text → Bool
has_same_code a b = map to_ascii_uppercase a == map to_ascii_uppercase b

abbrev pub wants_issuer : Text → Payment → Bool
wants_issuer code p = has_same_code p.asset code && lacks_issuer p.asset_issuer

abbrev pub issued : Text → Payment → Payment
issued issuer p = record p { asset_issuer = some issuer }

abbrev pub fill_issuer : Text → Option Text → List Payment → List Payment
fill_issuer code none rows = rows
fill_issuer code (some issuer) rows = update_where (wants_issuer code) (issued issuer) rows

unfoldable pub fill_issuers : List AcceptedAsset → List Payment → List Payment
fill_issuers [] rows = rows
fill_issuers (asset ∷ accepted) rows =
    fill_issuers accepted (fill_issuer asset.code asset.issuer rows)

abbrev pub backfill_asset_issuers : List AcceptedAsset → Db → Db
backfill_asset_issuers accepted db = record db { payments = fill_issuers accepted db.payments }
