-- ===== src/Tests/Files.antt =====
-- The theorem on uploads at work: a store that lists what it was told to delete.
use ventura_api.Common.{ℕ, ◌≡◌, refl, none, some, List, [], ◌∷◌}
use ventura_api.Common.Action.{ok, err, forbidden, pure, modify}
use ventura_api.Common.Text.{codes}
use ventura_api.FileStorage.{
  Client, FileOwner, PresignUploadDto, PresignedUpload, avatars, delete_file, delete_file_internal,
  create_presigned_upload, scope_of, allowed_image_type,
}
use ventura_api.FileStorage.Owned.{create_presigned_upload-delete_file}

abbrev client : Client (List (List ℕ))
client = record {
  bucket = codes "ventura";
  region = codes "eu-west-1";
  get_signed_url = λ key type. pure (codes "signed");
  delete_object = λ key. modify (λ keys. key ∷ keys);
}

abbrev ama : FileOwner
ama = record { user_id = codes "ama"; business_id = some (codes "shop") }

abbrev clerk : FileOwner
clerk = record { user_id = codes "clerk"; business_id = some (codes "shop") }

abbrev stranger : FileOwner
stranger = record { user_id = codes "eve"; business_id = none }

abbrev avatar : PresignUploadDto
avatar = record { content_type = "IMAGE/png"; filename = "me.png"; folder = some avatars }

abbrev uploaded : PresignedUpload
uploaded = record {
  file_key = codes "avatars/shop/x1.png";
  file_url = codes "https://ventura.s3.eu-west-1.amazonaws.com/avatars/shop/x1.png";
  upload_url = codes "signed";
}

-- a colleague deletes the file
create_presigned_upload-delete_file_example :
    delete_file client uploaded.file_key clerk [] ≡ (ok uploaded.file_key, uploaded.file_key ∷ [])
unfolding delete_file_internal scope_of create_presigned_upload
create_presigned_upload-delete_file_example =
    create_presigned_upload-delete_file client (codes "x1") avatar ama clerk uploaded [] [] [] refl
      refl

-- anyone else does not
delete_file-stranger :
    delete_file client uploaded.file_key stranger []
    ≡ (err (forbidden "You do not own this file."), [])
unfolding delete_file
delete_file-stranger = refl

-- a name that every object inherits passes for an image type
allowed_image_type_constructor :
    allowed_image_type (codes "constructor") ≡ some (codes "function Object() { [native code] }")
unfolding allowed_image_type
allowed_image_type_constructor = refl
