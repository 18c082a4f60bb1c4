-- ===== src/Downloader/Cookies/Save.antt =====
-- An upload replaces the file of the cookies as a whole, or leaves it.
use goencode.Prelude.{
  ℕ, ◌∙◌, if_both, ◌≡◌, refl, Bool, true, false, not, ◌∷◌, ◌++◌, [], Text, text_eq, text_eq_refl,
  is_empty, if◌then◌else◌, Option, none, some, Bool-cases, inl, inr, arith,
}
use goencode.Downloader.Cookies.{
  CookiesStore, Files, CookiesError, config_override, Disk, is_there, file_exists,
  effective_cookies_file, validate_cookies_content, put, tmp_path, move_upload, write_upload,
  save_valid, save_upload,
}

longer : (s : Text) (c : ℕ) (t : Text) → text_eq s (s ++ c ∷ t) ≡ false
unfolding text_eq
longer [] c t = refl
longer (d ∷ s) c t = rw (longer s c t) (ground arith)

put_self : (p : Text) (content : Option Text) (files : Files) → put p content files p ≡ content
unfolding put
put_self p content files = rw (text_eq_refl p) refl

put_other :
    (p q : Text) (content : Option Text) (files : Files)
    → text_eq q p ≡ false
    → put p content files q ≡ files q
unfolding put
put_other p q content files h = rw h refl

-- An upload: the file has the content and is the one that yt-dlp gets, or the file is as it was.
abbrev pub Uploaded : CookiesStore → Text → Files → Option CookiesError × Files → Type 0
Uploaded s content files (none, after) =
    (after s.upload_path ≡ some content) × (effective_cookies_file s after ≡ s.upload_path)
Uploaded s content files (some e, after) = after s.upload_path ≡ files s.upload_path

-- The temporary file is another one.
tmp_other :
    (s : CookiesStore) (content : Option Text) (files : Files)
    → put (tmp_path s) content files s.upload_path ≡ files s.upload_path
unfolding tmp_path
tmp_other s content files = put_other _ s.upload_path content files (longer s.upload_path _ _)

effective_upload :
    (s : CookiesStore) (content : Text) (files : Files)
    → is_empty s.config_file ≡ true
    → is_empty s.upload_path ≡ false
    → files s.upload_path ≡ some content
    → effective_cookies_file s files ≡ s.upload_path
unfolding effective_cookies_file file_exists is_there
effective_upload s content files e u f = rw (f, e, u) refl

move_upload-Uploaded :
    (s : CookiesStore) (disk : Disk) (content : Text) (files : Files)
    → is_empty s.config_file ≡ true
    → is_empty s.upload_path ≡ false
    → Uploaded s content files (move_upload s disk content (put (tmp_path s) (some content) files))
unfolding move_upload
move_upload-Uploaded s disk content files e u = elim (Bool-cases disk.rename_ok) [
  | inl y ↦ rw y (
    put_self s.upload_path (some content) _,
    effective_upload s content _ e u (put_self s.upload_path (some content) _),
  )
  | inr n ↦ rw n (left disk.remove_ok)
]
  where
    left :
        (b : Bool)
        → (if b
              then put (tmp_path s) none (put (tmp_path s) (some content) files)
              else put (tmp_path s) (some content) files)
            s.upload_path
          ≡ files s.upload_path
    left true = tmp_other s none _ ∙ tmp_other s (some content) files
    left false = tmp_other s (some content) files

write_upload-Uploaded :
    (s : CookiesStore) (disk : Disk) (content : Text) (files : Files)
    → is_empty s.config_file ≡ true
    → is_empty s.upload_path ≡ false
    → Uploaded s content files (write_upload s disk content files)
unfolding write_upload
write_upload-Uploaded s disk content files e u =
    if_both (Uploaded s content files) (not disk.mkdir_ok) refl (
      if_both (Uploaded s content files) (not disk.write_ok) (tmp_other s disk.written files)
        (move_upload-Uploaded s disk content files e u))

-- However the calls of the file system go, an upload without an error leaves its content in the file,
-- which is the one that yt-dlp gets then, and one with an error leaves that file as it was, if the
-- store has a path for it; a store with a file of its own in the configuration refuses the upload.
pub save_upload_lem :
    (s : CookiesStore) (disk : Disk) (content : Text) (files : Files)
    → is_empty s.upload_path ≡ false
    → Uploaded s content files (save_upload s disk content files)
      × (is_empty s.config_file ≡ false
          → save_upload s disk content files ≡ (some config_override, files))
unfolding save_upload save_valid
save_upload_lem s disk content files u = elim (Bool-cases (is_empty s.config_file)) [
  | inl e ↦ rw e (valid (validate_cookies_content content) e, λ n. cc)
  | inr n ↦ rw n (refl, λ _. refl)
]
  where
    valid :
        (o : Option CookiesError)
        → is_empty s.config_file ≡ true
        → Uploaded s content files (save_valid s disk content files o)
    valid none e = write_upload-Uploaded s disk content files e u
    valid (some x) e = refl
