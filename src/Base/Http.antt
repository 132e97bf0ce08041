-- ===== src/Base/Http.antt =====
-- Answers of the fiber handlers: a status with a JSON body, a status with {"error": message}, or a
-- bare status.
use Prim.Native.Nat.{ℕ}
use Prim.Native.String.{String}
use mathlib.Core.Option.{Option, none, some}
use marco_api.Base.Tests.{◌==◌, if◌then◌else◌}
use marco_api.Base.Ids.{Uuid, nil_uuid}

pub data Reply {ℓ} (A : Type ℓ) : Type ℓ where
  json : ℕ → A → Reply A
  problem : ℕ → String → Reply A
  bare : ℕ → Reply A

-- c.Locals("user_id").(uuid.UUID): absent, or uuid.Nil, is nobody.
abbrev pub signed_in : Option Uuid → Option Uuid
signed_in none = none
signed_in (some id) = if id == nil_uuid then none else some id

abbrev pub status {ℓ} : {A : Type ℓ} → Reply A → ℕ
status (json n _) = n
status (problem n _) = n
status (bare n) = n
