-- ===== src/Constants/Statuses.antt =====
-- alws/constants.py: the status enumerations. `value` is the integer that a database column holds.
use albs_web_server.Prelude.{
  ℕ, String, Bool, true, not, ◌||◌, ◌==◌, string_eq, nat_eq, nat_beq, Eq, if◌then◌else◌, ◌≡◌, ◌↔◌,
  arith,
}

pub data BuildTaskStatus : Type 0 where
  idle started completed failed excluded cancelled : BuildTaskStatus

unfoldable pub value : BuildTaskStatus → ℕ
value BuildTaskStatus.idle = 0
value BuildTaskStatus.started = 1
value BuildTaskStatus.completed = 2
value BuildTaskStatus.failed = 3
value BuildTaskStatus.excluded = 4
value BuildTaskStatus.cancelled = 5

pub status_beq_iff : (s t : BuildTaskStatus) → (nat_beq (value s) (value t) ≡ true) ↔ (s ≡ t)
unfolding value
status_beq_iff s t = ground arith

instance abbrev pub status_eq : Eq BuildTaskStatus
status_eq = record { beq = λ s t. nat_beq (value s) (value t); beq_iff = status_beq_iff }

-- `status not in (IDLE, STARTED)`.
unfoldable pub is_finished : BuildTaskStatus → Bool
unfolding value
is_finished s = not (s == BuildTaskStatus.idle || s == BuildTaskStatus.started)

unfoldable pub get_status_by_text : String → BuildTaskStatus
get_status_by_text text =
    if text == "failed"
    then BuildTaskStatus.failed
    else if text == "excluded"
    then BuildTaskStatus.excluded
    else if text == "cancelled"
    then BuildTaskStatus.cancelled
    else BuildTaskStatus.completed

-- A status that a build node reports is a finished one, whatever text it sends.
pub get_status_by_text-is_finished : (text : String) → is_finished (get_status_by_text text) ≡ true
unfolding is_finished get_status_by_text
get_status_by_text-is_finished text = ground arith
