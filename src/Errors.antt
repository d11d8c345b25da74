-- ===== src/Errors.antt =====
-- pkg/errors/errors.go: an error is the code that a client sees, or an error of the driver that
-- carries no code. Messages are left out.

pub data Code : Type 0 where
  validation unauthorized forbidden not_found conflict state_conflict : Code
  idempotency rate_limit internal dependency : Code

-- `record_not_found` is gorm.ErrRecordNotFound; `driver` is any other error without a code.
pub data Error : Type 0 where
  coded : Code → Error
  record_not_found driver : Error

pub data Result {ℓ} (A : Type ℓ) : Type ℓ where
  ok : A → Result A
  err : Error → Result A

-- `Error.Code` of what `errors.As` finds, with the code of an error that is not typed.
abbrev pub code_of : Error → Code
code_of (coded c) = c
code_of record_not_found = internal
code_of driver = internal
