-- ===== src/FileStorage.antt =====
-- src/file-storage/file-storage.service.ts and file-storage.constants.ts: the keys of uploaded
-- files, and who may delete one. Texts are lists of code points. The S3 client is a parameter.
use ventura_api.Common.{
  ℕ, Bool, true, false, not, ◌&&◌, Option, none, some, String, List, [], ◌∷◌, ◌++◌, map, ◌==◌,
  if◌then◌else◌, or_default,
}
use ventura_api.Common.Action.{Action, ◌>>=◌, ◌>>◌, pure, raise, raise_if, bad_request, forbidden}
use ventura_api.Common.Text.{◌<>◌, codes, lower, same_codes, split}
pub mod Owned

abbrev pub slash : ℕ
slash = 47

-- the client of S3, with what `getSignedUrl` and the sending of a `DeleteObjectCommand` do, and
-- the service's configuration
pub record Client (S : Type 0) : Type 0 where
  pub bucket : List ℕ
  pub region : List ℕ
  pub get_signed_url : List ℕ → String → Action S (List ℕ)
  pub delete_object : List ℕ → Action S (Unit {0})

pub data UploadFolder : Type 0 where
  logos avatars resources uploads : UploadFolder

abbrev pub folder_name : UploadFolder → List ℕ
folder_name logos = codes "logos"
folder_name avatars = codes "avatars"
folder_name resources = codes "resources"
folder_name uploads = codes "uploads"

-- `ALLOWED_IMAGE_TYPES[type]` of a text in lower case, with the two names in lower case that an
-- object literal inherits and that are not empty as a text
unfoldable pub allowed_image_type : List ℕ → Option (List ℕ)
allowed_image_type t =
    if same_codes t (codes "image/png")
    then some (codes "png")
    else if same_codes t (codes "image/jpeg")
    then some (codes "jpg")
    else if same_codes t (codes "image/jpg")
    then some (codes "jpg")
    else if same_codes t (codes "image/webp")
    then some (codes "webp")
    else if same_codes t (codes "image/gif")
    then some (codes "gif")
    else if same_codes t (codes "constructor")
    then some (codes "function Object() { [native code] }")
    else if same_codes t (codes "__proto__")
    then some (codes "[object Object]")
    else none

pub record PresignUploadDto : Type 0 where
  pub content_type : String
  pub filename : String
  pub folder : Option UploadFolder

pub record PresignedUpload : Type 0 where
  pub file_key : List ℕ
  pub file_url : List ℕ
  pub upload_url : List ℕ

pub record FileOwner : Type 0 where
  pub user_id : List ℕ
  pub business_id : Option (List ℕ)

unfoldable pub scope_of : FileOwner → List ℕ
scope_of owner = or_default owner.business_id owner.user_id

-- `scope === owner.businessId`
abbrev pub is_business : Option (List ℕ) → List ℕ → Bool
is_business none scope = false
is_business (some b) scope = same_codes scope b

unfoldable pub new_file_key : UploadFolder → FileOwner → List ℕ → List ℕ → List ℕ
unfolding scope_of
new_file_key folder owner random ext =
    folder_name folder ++ slash ∷ (scope_of owner ++ slash ∷ (random ++ codes "." ++ ext))

module _ {S : Type 0} where
  -- what follows the look-up of the content type; `random` is the text of `nanoid(16)`
  unfoldable pub upload_as :
      Client S → List ℕ → PresignUploadDto → FileOwner → Option (List ℕ) → Action S PresignedUpload
  unfolding new_file_key
  upload_as client random dto owner none =
      raise (bad_request ("Unsupported content type: " <> dto.content_type))
  upload_as client random dto owner (some ext) = do
    let key = new_file_key (or_default dto.folder uploads) owner random ext
    upload_url ← client.get_signed_url key dto.content_type
    pure (record {
      file_key = key;
      file_url =
          codes "https://"
          ++ client.bucket
          ++ codes ".s3."
          ++ client.region
          ++ codes ".amazonaws.com/"
          ++ key;
      upload_url = upload_url;
    })

  unfoldable pub create_presigned_upload :
      Client S → List ℕ → PresignUploadDto → FileOwner → Action S PresignedUpload
  unfolding allowed_image_type upload_as
  create_presigned_upload client random dto owner =
      upload_as client random dto owner (allowed_image_type (map lower (codes dto.content_type)))

  -- the check of the key's segments
  abbrev pub assert_scope : List (List ℕ) → FileOwner → Action S (Unit {0})
  assert_scope (_ ∷ scope ∷ _ ∷ _) owner =
      raise_if (not (same_codes scope owner.user_id) && not (is_business owner.business_id scope))
        (forbidden "You do not own this file.")
  assert_scope _ owner = pure tt

  unfoldable pub assert_owns : List ℕ → FileOwner → Action S (Unit {0})
  unfolding split
  assert_owns key owner = assert_scope (split slash key) owner

  unfoldable pub delete_file_internal : Client S → List ℕ → Action S (List ℕ)
  delete_file_internal client key = do client.delete_object key; pure key

  unfoldable pub delete_file : Client S → List ℕ → FileOwner → Action S (List ℕ)
  unfolding assert_owns delete_file_internal
  delete_file client key owner = do assert_owns key owner; delete_file_internal client key
