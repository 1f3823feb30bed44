-- ===== src/Constants/SignStatuses.antt =====
-- alws/constants.py: the statuses of sign tasks and of key generation, which have the same members.
use albs_web_server.Prelude.{ℕ, nat_beq, Eq, ◌≡◌, ◌↔◌, true, arith}

pub data SignStatus : Type 0 where
  idle in_progress completed failed : SignStatus

unfoldable pub sign_value : SignStatus → ℕ
sign_value SignStatus.idle = 1
sign_value SignStatus.in_progress = 2
sign_value SignStatus.completed = 3
sign_value SignStatus.failed = 4

pub sign_beq_iff : (s t : SignStatus) → (nat_beq (sign_value s) (sign_value t) ≡ true) ↔ (s ≡ t)
unfolding sign_value
sign_beq_iff s t = ground arith

instance abbrev pub sign_status_eq : Eq SignStatus
sign_status_eq = record {
  beq = λ s t. nat_beq (sign_value s) (sign_value t);
  beq_iff = sign_beq_iff;
}
