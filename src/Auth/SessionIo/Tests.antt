-- ===== src/Auth/SessionIo/Tests.antt =====
-- A restore in two writes, and the theorems at it.
use telegram_rest_gateway.Prelude.{
  ◌≡◌, refl, ◌≢◌, true, Option, none, some, [], ◌∷◌, arith, nat_eq, Bytes, bytes_eq, codes,
}
use telegram_rest_gateway.Util.Base64.{encode, decode}
use telegram_rest_gateway.Auth.SessionIo.{
  owner_only, File, OpenAnswer, WriteAnswer, System, skipped_existing, restored, restore_session,
  export_session,
}
use telegram_rest_gateway.Auth.SessionIo.RoundTrip.{
  IsSecret, export-restore, restore_session-IsSecret,
}

abbrev key : Bytes
key = codes "key!"

abbrev disk : System
disk = record {
  opens = OpenAnswer.interrupted ∷ OpenAnswer.opened ∷ [];
  fchmod_ok = true;
  writes = WriteAnswer.wrote 3 ∷ WriteAnswer.interrupted ∷ WriteAnswer.wrote 1 ∷ [];
  close_ok = true;
}

abbrev stored : File
stored = record { mode = owner_only; content = key }

restores : restore_session disk none (encode key) ≡ some (restored, some stored)
unfolding restore_session encode decode
restores = refl

export-restore_example :
    (◌≡◌ {A = Option File} none none)
    × (◌≡◌ {A = Option File} (some stored) (some stored))
    × (export_session (some stored) ≡ some (encode key))
export-restore_example =
    export-restore disk b'k' (codes "ey!") none (some stored) (omega arith) restores

keeps : restore_session disk (some stored) (codes "AA==") ≡ some (skipped_existing, some stored)
unfolding restore_session
keeps = refl

restore_session-IsSecret_example :
    (◌≢◌ {A = Option File} (some stored) none → ◌≡◌ {A = Option File} (some stored) (some stored))
    × (◌≡◌ {A = Option File} (some stored) none → IsSecret (some stored))
restore_session-IsSecret_example =
    restore_session-IsSecret disk (some stored) (codes "AA==") skipped_existing (some stored) keeps
