-- ===== src/Storage/Tests.antt =====
-- The hooks for a number, whose JSON is its numeral.
use job_mon.Base.{[], arith, false, some, ℕ, ◌≡◌}
use job_mon.Storage.{
  Codec, Hook, IsFaithful, session_effect, set_storage_state, start, storage_effect,
}
use job_mon.Storage.Keeping.{set-survives}
use job_mon.Js.Text.Decimal.{numeral, numeral-is_number, value-numeral, value}

abbrev numbers : Codec ℕ
numbers = record { stringify = numeral; parse = value }

numbers-IsFaithful : IsFaithful numbers
numbers-IsFaithful = record {
  parse-stringify = value-numeral;
  not_blank = λ v. let whole = numeral-is_number v in ground arith;
}

abbrev fresh : Hook ℕ
fresh = start numbers "page" 1 []

set-survives_example :
    let storage = (set_storage_state numbers "page" 7 fresh).storage in
    (session_effect numbers "page" 1 (start numbers "page" 1 storage)
      ≡ some (record { storage = storage; state = 7; is_loading = false }))
    × (storage_effect numbers "page" 1 (start numbers "page" 1 storage)
        ≡ some (record { storage = storage; state = 7; is_loading = false }))
set-survives_example = set-survives numbers numbers-IsFaithful "page" 7 1 fresh
