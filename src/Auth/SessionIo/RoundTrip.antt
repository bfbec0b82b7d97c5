-- ===== src/Auth/SessionIo/RoundTrip.antt =====
-- A restored session is the session that was exported.
use mathlib.Core.List.{append-nil, append_assoc}
use telegram_rest_gateway.Prelude.{
  ℕ, ◌+◌, ◌≤◌, min, ◌≡◌, refl, ap, ◌∙◌, subst, ◌≢◌, inl, inr, Bool, true, false, Option, none, some,
  List, [], ◌∷◌, ◌++◌, arith, Option-cases, nat_eq, Bytes, bytes_eq, length, take, drop,
  take-append-drop, length-drop,
}
use telegram_rest_gateway.Util.Base64.{encode, decode}
use telegram_rest_gateway.Util.Base64.RoundTrip.{AreBytes, decode-encode}
use telegram_rest_gateway.Auth.SessionIo.{
  owner_only, File, WriteAnswer, System, write_loop, fill, write_secret_file, open_loop,
  RestoreResult, restored, restore_decoded, restore_session, export_session,
}

-- A loop that ends with success has written every byte, in order.
write_loop-all :
    (rest content : Bytes) (ans : List WriteAnswer) (out : Bytes)
    → write_loop rest content ans ≡ some (true, out)
    → out ≡ content ++ rest
unfolding write_loop
write_loop-all [] content ans out h = ground (arith, h, append-nil content)
write_loop-all (c ∷ cs) content [] out h = cc
write_loop-all (c ∷ cs) content (WriteAnswer.interrupted ∷ ans) out h =
    write_loop-all (c ∷ cs) content ans out h
write_loop-all (c ∷ cs) content (WriteAnswer.failed ∷ ans) out h = cc
write_loop-all (c ∷ cs) content (WriteAnswer.wrote n ∷ ans) out h =
    write_loop-all (drop n (c ∷ cs)) (content ++ take n (c ∷ cs)) ans out h
    ∙ append_assoc content (take n (c ∷ cs)) (drop n (c ∷ cs))
    ∙ ap (λ x. content ++ x) (take-append-drop n (c ∷ cs))

restore_decoded-restored :
    (sys : System) (bytes : Bytes) (file : Option File)
    → restore_decoded sys bytes ≡ some (restored, file)
    → file ≡ some (record { mode = owner_only; content = bytes })
unfolding restore_decoded write_secret_file fill
restore_decoded-restored sys [] file h = cc
restore_decoded-restored sys (c ∷ cs) file h =
    elim (Option-cases (write_loop (c ∷ cs) [] sys.writes)) [
      | inl e ↦ absurd (ground (arith, e))
      | inr ((w, out), e) ↦ ground (arith, e, write_loop-all (c ∷ cs) [] sys.writes out)
    ]

restore_session-restored :
    (sys : System) (text bytes : Bytes) (before file : Option File)
    → decode text ≡ some bytes
    → restore_session sys before text ≡ some (restored, file)
    → (before ≡ none) × (file ≡ some (record { mode = owner_only; content = bytes }))
unfolding restore_session
restore_session-restored sys [] bytes before file d h = cc
restore_session-restored sys (c ∷ cs) bytes (some f) file d h = cc
restore_session-restored sys (c ∷ cs) bytes none file d h =
    (refl, restore_decoded-restored sys bytes file (ground (arith, d, h)))

-- If the restore of the text of a session that is not empty reports success, there was no file before;
-- the file then has the bytes of the session and the mode 0600, and its export is the same text.
pub export-restore :
    (sys : System) (x : ℕ) (xs : Bytes) (before file : Option File)
    → AreBytes (x ∷ xs)
    → restore_session sys before (encode (x ∷ xs)) ≡ some (restored, file)
    → (before ≡ none)
      × (file ≡ some (record { mode = owner_only; content = x ∷ xs }))
      × (export_session file ≡ some (encode (x ∷ xs)))
unfolding export_session
export-restore sys x xs before file h e =
    let d = (decode-encode (x ∷ xs) h).0 in
    let (fresh, written) =
      restore_session-restored sys (encode (x ∷ xs)) (x ∷ xs) before file d e in
    (fresh, written, rw written)

-- A file that holds anything has the mode 0600.
abbrev pub IsSecret : Option File → Type 0
IsSecret none = Unit
IsSecret (some file) = file.content ≢ [] → file.mode ≡ owner_only

fill-IsSecret :
    (sys : System) (before : Option File) (bytes : Bytes) (ok : Bool) (file : Option File)
    → fill sys before bytes ≡ some (ok, file)
    → IsSecret file
unfolding fill
fill-IsSecret sys before bytes ok none h = tt
fill-IsSecret sys before bytes ok (some f) h =
    elim (Option-cases (write_loop bytes [] sys.writes)) [
      | inl e ↦ λ ne. ground (arith, e, h, ne)
      | inr ((w, out), e) ↦ λ ne. ground (arith, e, h, ne)
    ]

restore_decoded-IsSecret :
    (sys : System) (bytes : Bytes) (r : RestoreResult) (file : Option File)
    → restore_decoded sys bytes ≡ some (r, file)
    → IsSecret file
unfolding restore_decoded write_secret_file
restore_decoded-IsSecret sys [] r file h = ground arith
restore_decoded-IsSecret sys (c ∷ cs) r file h = elim (Option-cases (open_loop sys.opens)) [
  | inl e ↦ absurd (ground (arith, e, h))
  | inr (true, e) ↦ elim (Option-cases (fill sys none (c ∷ cs))) [
    | inl n ↦ absurd (ground (arith, e, n, h))
    | inr ((ok, f), n) ↦
        subst IsSecret (ground (arith, e, n, h)) (fill-IsSecret sys none (c ∷ cs) ok f n)
  ]
  | inr (false, e) ↦ subst IsSecret {x = none} (ground (arith, e, h)) tt
]

-- Whatever the system answers, a restore that returns leaves a file that was there as it was, and any
-- file that it makes holds bytes only with the mode 0600.
pub restore_session-IsSecret :
    (sys : System) (before : Option File) (text : Bytes) (r : RestoreResult) (file : Option File)
    → restore_session sys before text ≡ some (r, file)
    → (before ≢ none → file ≡ before) × (before ≡ none → IsSecret file)
unfolding restore_session
restore_session-IsSecret sys none [] r file h = (λ ne. absurd (ne refl), λ _. ground arith)
restore_session-IsSecret sys (some f) [] r file h = (λ _. ground arith, λ e. cc)
restore_session-IsSecret sys (some f) (c ∷ cs) r file h = (λ _. ground arith, λ e. cc)
restore_session-IsSecret sys none (c ∷ cs) r file h = elim (Option-cases (decode (c ∷ cs))) [
  | inl e ↦ (λ ne. absurd (ne refl), λ _. subst IsSecret {x = none} (ground (arith, e, h)) tt)
  | inr (bytes, e) ↦ (
    λ ne. absurd (ne refl),
    λ _. restore_decoded-IsSecret sys bytes r file (ground (arith, e, h)),
  )
]

-- How many of the answers to ::write took a byte or more.
abbrev pub progress : List WriteAnswer → ℕ
progress [] = 0
progress (WriteAnswer.wrote n ∷ ans) = min n 1 + progress ans
progress (WriteAnswer.interrupted ∷ ans) = progress ans
progress (WriteAnswer.failed ∷ ans) = progress ans

-- The write loop ends once as many writes took a byte as there are bytes, or earlier.
pub write_loop_total :
    (rest content : Bytes) (ans : List WriteAnswer)
    → length rest ≤ progress ans
    → (r : Bool × Bytes) × (write_loop rest content ans ≡ some r)
unfolding write_loop
write_loop_total [] content ans h = ((true, content), refl)
write_loop_total (c ∷ cs) content [] h = absurd (omega arith)
write_loop_total (c ∷ cs) content (WriteAnswer.interrupted ∷ ans) h =
    write_loop_total (c ∷ cs) content ans h
write_loop_total (c ∷ cs) content (WriteAnswer.failed ∷ ans) h = ((false, content), refl)
write_loop_total (c ∷ cs) content (WriteAnswer.wrote n ∷ ans) h =
    write_loop_total (drop n (c ∷ cs)) (content ++ take n (c ∷ cs)) ans
      (omega (arith, length-drop n (c ∷ cs)))
