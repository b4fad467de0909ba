-- ===== src/Tests/Unit.antt =====
-- The repository's unit tests, as functions into Bool over the crates and the outside made for the
-- tests here: where a test unwraps an absent value or an error, it is false.
pub mod Netpol
pub mod Status
pub mod Controller
pub mod Validation
pub mod Source
pub mod Extract
use ipmaze.Base.{Bool, false, Option, none, some, Result, ok, err}

-- `unwrap`, and what is tested of the value.
abbrev pub unwrap_and {ℓ} : {A E : Type ℓ} → Result A E → (A → Bool) → Bool
unwrap_and (ok a) p = p a
unwrap_and (err e) p = false

-- `unwrap_err`, and what is tested of the error.
abbrev pub unwrap_err_and {ℓ} : {A E : Type ℓ} → Result A E → (E → Bool) → Bool
unwrap_err_and (ok a) p = false
unwrap_err_and (err e) p = p e
