-- ===== src/Http/UploadSanitize/Tests.antt =====
-- The names of concrete uploads.
use telegram_rest_gateway.Prelude.{◌≡◌, refl, true, nat_eq, bytes_eq, codes}
use telegram_rest_gateway.Http.UploadSanitize.{
  filename, sanitize_upload_filename, is_file_name, sanitize_upload_filename-IsFile,
}

sanitize_upload_filename-IsFile_example :
    (is_file_name (sanitize_upload_filename (codes "../../etc/passwd")) ≡ true)
    × (is_file_name (codes "../../etc/passwd") ≡ true
        → sanitize_upload_filename (codes "../../etc/passwd") ≡ codes "../../etc/passwd")
sanitize_upload_filename-IsFile_example = sanitize_upload_filename-IsFile (codes "../../etc/passwd")

last_name : sanitize_upload_filename (codes "../../etc/passwd") ≡ codes "passwd"
unfolding sanitize_upload_filename filename
last_name = refl

parent : sanitize_upload_filename (codes "a/..") ≡ codes "upload.bin"
unfolding sanitize_upload_filename filename
parent = refl
