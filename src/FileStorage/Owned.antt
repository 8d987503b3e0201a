-- ===== src/FileStorage/Owned.antt =====
-- src/file-storage/file-storage.service.ts: deleteFile on a key of createPresignedUpload.
use ventura_api.Common.{
  ℕ, ◌≡◌, refl, Bool, false, ◌||◌, List, [], ◌∷◌, ◌++◌, ◌==◌, if◌then◌else◌, Option, none, some,
  Bool-cases, inl, inr, or_default, or_false_left, or_false_right,
}
use ventura_api.Common.Action.{Result, and_then, pure, ok, err, forbidden}
use ventura_api.Common.Text.{same_codes, codes, split}
use ventura_api.FileStorage.{
  slash, Client, UploadFolder, logos, avatars, resources, uploads, folder_name, FileOwner, scope_of,
  PresignUploadDto, PresignedUpload, create_presigned_upload, upload_as, is_business, new_file_key,
  assert_owns, delete_file, delete_file_internal,
}

-- no character is a slash
abbrev pub has_slash : List ℕ → Bool
has_slash [] = false
has_slash (c ∷ cs) = c == slash || has_slash cs

-- one of the caller's two ids is the scope
abbrev pub is_scope : List ℕ → FileOwner → Bool
is_scope scope caller = same_codes scope caller.user_id || is_business caller.business_id scope

-- a text without a slash, and a slash, is the first segment
split-++ :
    (cs ds : List ℕ) → has_slash cs ≡ false → split slash (cs ++ slash ∷ ds) ≡ cs ∷ split slash ds
unfolding split
split-++ [] ds h = refl
split-++ (c ∷ cs) ds h =
    rw (or_false_left (c == slash) _ h, split-++ cs ds (or_false_right (c == slash) _ h)) refl

-- a text has a first segment
split-cons : (cs : List ℕ) → (s : List ℕ) × ((ss : List (List ℕ)) × (split slash cs ≡ s ∷ ss))
unfolding split
split-cons [] = ([], ([], refl))
split-cons (c ∷ cs) =
    let (s, (ss, e)) = split-cons cs in
    elim (Bool-cases (c == slash)) [
      | inl here ↦ ([], (split slash cs, rw here refl))
      | inr other ↦ (c ∷ s, (ss, rw (other, e) refl))
    ]

folder_name-has_slash : (folder : UploadFolder) → has_slash (folder_name folder) ≡ false
folder_name-has_slash logos = refl
folder_name-has_slash avatars = refl
folder_name-has_slash resources = refl
folder_name-has_slash uploads = refl

new_file_key-delete_file :
    {S : Type 0} (client : Client S) (folder : UploadFolder) (owner caller : FileOwner)
    (random ext : List ℕ) (s : S)
    → has_slash (scope_of owner) ≡ false
    → delete_file client (new_file_key folder owner random ext) caller s ≡ (
        if is_scope (scope_of owner) caller
        then delete_file_internal client (new_file_key folder owner random ext) s
        else (err (forbidden "You do not own this file."), s))
unfolding delete_file assert_owns new_file_key
new_file_key-delete_file client folder owner caller random ext s h =
    let (third, (more, e)) = split-cons (random ++ codes "." ++ ext) in
    rw
      (
        split-++ (folder_name folder) _ (folder_name-has_slash folder),
        split-++ (scope_of owner) _ h,
        e,
      )
      (elim (Bool-cases (same_codes (scope_of owner) caller.user_id)) [
        | inl mine ↦ rw mine refl
        | inr other ↦ elim (Bool-cases (is_business caller.business_id (scope_of owner))) [
          | inl ours ↦ rw (other, ours) refl
          | inr theirs ↦ rw (other, theirs) refl
        ]
      ])

-- the key of an upload that was made
module _ {S : Type 0} where
  signed-file_key :
      (key url : List ℕ) (upload : PresignedUpload) (x : Result (List ℕ) × S) (s : S)
      → and_then x (λ u. pure (record { file_key = key; file_url = url; upload_url = u }))
        ≡ (ok upload, s)
      → upload.file_key ≡ key
  signed-file_key key url upload (ok u, s') s h = cc
  signed-file_key key url upload (err e, s') s h = cc

  upload_as-file_key :
      (client : Client S) (random : List ℕ) (dto : PresignUploadDto) (owner : FileOwner)
      (upload : PresignedUpload) (s s' : S) (o : Option (List ℕ))
      → upload_as client random dto owner o s ≡ (ok upload, s')
      → (ext : List ℕ) × (upload.file_key
          ≡ new_file_key (or_default dto.folder uploads) owner random ext)
  unfolding upload_as
  upload_as-file_key client random dto owner upload s s' none h = cc
  upload_as-file_key client random dto owner upload s s' (some ext) h = (
    ext,
    signed-file_key _ _ upload
        (client.get_signed_url (new_file_key (or_default dto.folder uploads) owner random ext)
          dto.content_type s)
        s' h,
  )

-- When an upload has been made for an owner whose scope has no slash, deleteFile on its key is
-- allowed to a caller exactly when that scope is the caller's user id or business id: the key is
-- then sent to the store for deletion, and otherwise the call is refused as forbidden and the
-- store is as it was.
pub create_presigned_upload-delete_file :
    {S : Type 0} (client : Client S) (random : List ℕ) (dto : PresignUploadDto)
    (owner caller : FileOwner) (upload : PresignedUpload) (s s' t : S)
    → has_slash (scope_of owner) ≡ false
    → create_presigned_upload client random dto owner s ≡ (ok upload, s')
    → delete_file client upload.file_key caller t ≡ (
        if is_scope (scope_of owner) caller
        then delete_file_internal client upload.file_key t
        else (err (forbidden "You do not own this file."), t))
unfolding create_presigned_upload
create_presigned_upload-delete_file client random dto owner caller upload s s' t h made =
    let (ext, e) = upload_as-file_key client random dto owner upload s s' _ made in
    rw e
      (new_file_key-delete_file client (or_default dto.folder uploads) owner caller random ext t h)
