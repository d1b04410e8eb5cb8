-- ===== src/Automation/Delivery/Tests.antt =====
-- Two workers and one delivery.
use delmos.Base.{ℕ, suc, ◌≡◌, ◌≤◌, refl, arith, true, false, none, some, List, [], ◌∷◌, Dict, ok}
use delmos.Automation.Outbox.{Envelope, delivered, Delivery, new_delivery}
use delmos.Automation.Delivery.{
  claim, acknowledge, mark_failed, Handler, ClaimedDelivery, committed, process_one, finish,
}
use delmos.Automation.Delivery.Rows.{UniqueIds}
use delmos.Automation.Delivery.Fencing.{
  Runs, begin, claims, commits, Runs-commits_once, Runs-delivered_final, mark_failed-reopens,
}
use delmos.Automation.Delivery.Retries.{Effect, process_one-Effect}
use delmos.Automation.Delivery.Attempts.{Round, After, failed_rounds, failed_rounds-dead_letter}

abbrev fresh : List Delivery
fresh = new_delivery 1 50 70 ∷ []

abbrev taken : List Delivery
taken = (claim 8 100 160 10 fresh).0

-- The lease of worker 8 runs out, worker 9 claims the row, and only worker 9 can acknowledge it.
overtaken : (acknowledge 170 1 8 (claim 9 161 221 10 taken).0).1 ≡ false
unfolding claim acknowledge
overtaken = refl

accepted : (acknowledge 170 1 9 (claim 9 161 221 10 taken).0).1 ≡ true
unfolding claim acknowledge
accepted = refl

abbrev run : Runs 1 fresh 1 (acknowledge 170 1 9 (claim 9 161 221 10 taken).0).0
run = commits 170 1 9 (claims 9 161 221 10 (claims 8 100 160 10 begin)) accepted refl

Runs-commits_once_example : 1 ≤ 1
Runs-commits_once_example = Runs-commits_once 1 fresh (tt, tt) run

abbrev done : Delivery
done = record (new_delivery 1 50 70) {
  status = delivered;
  delivery_attempts = 1;
  completed_at = some 170;
}

Runs-delivered_final_example : Path ℕ 0 0
Runs-delivered_final_example =
    Runs-delivered_final 1 (done ∷ []) done (tt, tt) refl refl refl (claims 9 161 221 10 begin)

mark_failed-reopens_example :
    (acknowledge 300 1 9 (claim 9 300 360 1 (mark_failed 1 "late" (done ∷ []))).0).1 ≡ true
mark_failed-reopens_example = mark_failed-reopens 300 9 360 "late" done refl (omega arith)

abbrev envelope : Envelope
envelope = record {
  event_id = 5;
  event_key = "saved";
  schema_version = "1.0.0";
  source = "delmos.core";
  occurred_at = 4;
  scope_type = "project";
  scope_id = none;
  actor_user_id = none;
  correlation_id = 6;
  causation_id = 6;
  payload = [];
}

abbrev claimed : ClaimedDelivery
claimed = record {
  delivery_id = 1;
  event_key = "saved";
  trigger_key = "count";
  envelope = envelope;
}

abbrev handlers : Dict (Handler ℕ)
handlers = ("count", λ e n. ok (suc n)) ∷ []

counted :
    process_one handlers 110 8 claimed 41 taken ≡ (42, (acknowledge 110 1 8 taken).0, committed)
unfolding process_one finish claim acknowledge
counted = refl

taken-UniqueIds : UniqueIds taken
unfolding claim
taken-UniqueIds = (tt, tt)

process_one-Effect_example :
    let (n, ds, r) = process_one handlers 110 8 claimed 41 taken in
    Effect handlers 110 8 claimed 41 taken n ds r
process_one-Effect_example = process_one-Effect handlers 110 8 claimed 41 taken taken-UniqueIds

abbrev round : Round
round = record { token = 8; now = 100; lease_until = 160; reason = "broken" }

abbrev five : List Round
five = round ∷ round ∷ round ∷ round ∷ round ∷ []

failed_rounds-dead_letter_example : After 1 0 5 5 (failed_rounds 1 five fresh)
failed_rounds-dead_letter_example =
    failed_rounds-dead_letter 1 five fresh (new_delivery 1 50 70) (tt, tt) refl refl (omega arith)
