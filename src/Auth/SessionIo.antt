-- ===== src/Auth/SessionIo.antt =====
-- src/auth/session_io.cpp: the session as the file td.binlog, and as a base64 text. What the calls of
-- the operating system answer is an argument; a call that is interrupted (EINTR) is made again.
pub mod RoundTrip
pub mod Tests
use telegram_rest_gateway.Prelude.{
  ℕ, zero, suc, ◌+◌, ◌-◌, ◌*◌, ◌/◌, ◌%◌, ◌^◌, ◌≤◌, ◌<◌, min, max, ◌≡◌, refl, sym, ap, ◌∙◌, subst,
  ◌≢◌, ◌↔◌, ◌⊎◌, inl, inr, Bool, true, false, ◌&&◌, ◌||◌, not, Option, none, some, List, [], ◌∷◌,
  ◌++◌, map, arith, ltb, leb, ltb→lt, lt→ltb, leb→le, if◌then◌else◌, Bool-cases, Option-cases, Eq,
  ◌==◌, eq_refl, nat_eq, Bytes, bytes_beq_iff, nat_beq_iff, bytes_eq, codes, length, get_elem?,
  get_or, take, drop, keep_if, all, any, length-append, length-keep_if-le, take-append-drop,
  length-take, length-drop, drop-append, take-append, All, All-append,
}
use telegram_rest_gateway.Util.Base64.{encode, decode}

-- The mode 0600 of the source, and a file with other rights.
pub data FileMode : Type 0 where
  owner_only by_umask : FileMode

pub record File : Type 0 where
  pub mode : FileMode
  pub content : Bytes

pub data OpenAnswer : Type 0 where
  opened interrupted failed : OpenAnswer

-- `wrote n`: at most the bytes that were offered.
pub data WriteAnswer : Type 0 where
  wrote : ℕ → WriteAnswer
  interrupted failed : WriteAnswer

pub record System : Type 0 where
  pub opens : List OpenAnswer
  pub fchmod_ok : Bool
  pub writes : List WriteAnswer
  pub close_ok : Bool

-- The loop over ::open; `none` means that the answers ran out before it ended.
unfoldable pub open_loop : List OpenAnswer → Option Bool
open_loop [] = none
open_loop (OpenAnswer.opened ∷ ans) = some true
open_loop (OpenAnswer.interrupted ∷ ans) = open_loop ans
open_loop (OpenAnswer.failed ∷ ans) = some false

-- The loop over ::write, for the bytes left and the content so far.
unfoldable pub write_loop : Bytes → Bytes → List WriteAnswer → Option (Bool × Bytes)
write_loop [] content ans = some (true, content)
write_loop (c ∷ cs) content [] = none
write_loop (c ∷ cs) content (WriteAnswer.interrupted ∷ ans) = write_loop (c ∷ cs) content ans
write_loop (c ∷ cs) content (WriteAnswer.failed ∷ ans) = some (false, content)
write_loop (c ∷ cs) content (WriteAnswer.wrote n ∷ ans) =
    write_loop (drop n (c ∷ cs)) (content ++ take n (c ∷ cs)) ans

infixl 5 ◌>>=◌
abbrev ◌>>=◌ {ℓ κ} : {A : Type ℓ} {B : Type κ} → Option A → (A → Option B) → Option B
none >>= f = none
some a >>= f = f a

abbrev pub opened_mode : Option File → FileMode
opened_mode none = by_umask
opened_mode (some file) = file.mode

-- After the open: fchmod, the writes and the close, with the file that they leave.
fill : System → Option File → Bytes → Option (Bool × Option File)
unfolding write_loop
fill sys before bytes =
    if not sys.fchmod_ok
    then some (false, some (record { mode = opened_mode before; content = [] }))
    else (do
      (written, content) ← write_loop bytes [] sys.writes
      let file : File = record { mode = owner_only; content = content }
      some (written && sys.close_ok, some file))

-- writeSecretFile: whether it succeeded, and the file then.
unfoldable pub write_secret_file : System → Option File → Bytes → Option (Bool × Option File)
unfolding open_loop fill
write_secret_file sys before bytes = do
  is_open ← open_loop sys.opens
  if is_open then fill sys before bytes else some (false, before)

pub data RestoreResult : Type 0 where
  no_session skipped_existing error restored : RestoreResult

restore_decoded : System → Bytes → Option (RestoreResult × Option File)
unfolding write_secret_file
restore_decoded sys [] = some (error, none)
restore_decoded sys (c ∷ cs) = do
  (ok, file) ← write_secret_file sys none (c ∷ cs)
  some ((if ok then restored else error), file)

-- restoreSession: the directories are made without a look at the answer, so that a failure shows in
-- the open.
unfoldable pub restore_session : System → Option File → Bytes → Option (RestoreResult × Option File)
unfolding restore_decoded
restore_session sys file [] = some (no_session, file)
restore_session sys (some file) (c ∷ cs) = some (skipped_existing, some file)
restore_session sys none (c ∷ cs) = elim (decode (c ∷ cs)) [
  | none ↦ some (error, none)
  | some decoded ↦ restore_decoded sys decoded
]

abbrev export_bytes : Bytes → Option Bytes
export_bytes [] = none
export_bytes (c ∷ cs) = some (encode (c ∷ cs))

unfoldable pub export_session : Option File → Option Bytes
export_session none = none
export_session (some file) = export_bytes file.content
