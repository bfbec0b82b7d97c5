-- ===== src/Http/UploadSanitize.antt =====
-- src/http/upload_sanitize.hpp: the name of an uploaded file. A path is POSIX's, its bytes.
pub mod Tests
use telegram_rest_gateway.Prelude.{
  ℕ, zero, suc, ◌+◌, ◌-◌, ◌*◌, ◌/◌, ◌%◌, ◌^◌, ◌≤◌, ◌<◌, min, max, ◌≡◌, refl, sym, ap, ◌∙◌, subst,
  ◌≢◌, ◌↔◌, ◌⊎◌, inl, inr, Bool, true, false, ◌&&◌, ◌||◌, not, Option, none, some, List, [], ◌∷◌,
  ◌++◌, map, arith, ltb, leb, ltb→lt, lt→ltb, leb→le, if◌then◌else◌, Bool-cases, Option-cases, Eq,
  ◌==◌, eq_refl, nat_eq, Bytes, bytes_beq_iff, nat_beq_iff, bytes_eq, codes, length, get_elem?,
  get_or, take, drop, keep_if, all, any, length-append, length-keep_if-le, take-append-drop,
  length-take, length-drop, drop-append, take-append, All, All-append, All-map, All-keep_if, All-at,
  some-injective,
}

-- path(s).filename(): what follows the last '/'.
unfoldable pub filename : Bytes → Bytes
filename [] = []
filename (c ∷ s) = let rest = filename s in if any (λ b. b == b'/') (c ∷ s) then rest else c ∷ s

unfoldable pub sanitize_upload_filename : Bytes → Bytes
unfolding filename
sanitize_upload_filename requested =
    let name = filename requested in
    if name == [] || name == codes "." || name == codes ".." then codes "upload.bin" else name

-- A name of one file in a directory: it is not empty, not "." or "..", and has no '/'.
unfoldable pub is_file_name : Bytes → Bool
is_file_name s = not (s == [] || s == codes "." || s == codes "..") && not (any (λ b. b == b'/') s)

filename_flat : (s : Bytes) → any (λ b. b == b'/') (filename s) ≡ false
unfolding filename
filename_flat [] = refl
filename_flat (c ∷ s) = elim (Bool-cases (any (λ b. b == b'/') (c ∷ s))) [
  | inl e ↦ rw e (filename_flat s)
  | inr e ↦ rw e e
]

filename_whole : (s : Bytes) → any (λ b. b == b'/') s ≡ false → filename s ≡ s
unfolding filename
filename_whole [] h = refl
filename_whole (c ∷ s) h = rw h refl

-- The name under which an upload is stored is the name of one file in the directory of uploads, whatever
-- the request asks for, and a request for such a name gets it.
pub sanitize_upload_filename-IsFile :
    (s : Bytes)
    → (is_file_name (sanitize_upload_filename s) ≡ true)
      × (is_file_name s ≡ true → sanitize_upload_filename s ≡ s)
unfolding sanitize_upload_filename is_file_name
sanitize_upload_filename-IsFile s =
    (ground (arith, filename_flat s), λ h. ground (arith, filename_whole s, h))
