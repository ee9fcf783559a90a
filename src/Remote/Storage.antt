-- ===== src/Remote/Storage.antt =====
-- A storage of the `mtp-rs` crate, as the sources call it. Every call may fail, and may change the
-- world.
use mtpx.Base.{ℕ, Bool, List, Option, Result}
use mtpx.Std.Text.{Str}
use mtpx.Mtp.{MtpError}
use mtpx.Entry.{ModifiedTime}
use mtpx.Path.Segment.{PathError}

pub record ObjectInfo (Date : Type 0) : Type 0 where
  pub handle : ℕ
  pub filename : Str
  pub is_folder : Bool
  pub size : ℕ
  pub modified : Option Date

-- The objects of a folder, and the errors for those that the device refused to describe.
pub record Collection (Other Date : Type 0) : Type 0 where
  pub objects : List (ObjectInfo Date)
  pub refused : List (MtpError Other)

-- What a streamed listing yields: an object, or the error for one that the device refused to describe.
pub data ListingItem (Other Date : Type 0) : Type 0 where
  object : ObjectInfo Date → ListingItem Other Date
  undescribed : MtpError Other → ListingItem Other Date

pub record Storage (Other : Type 0) : Type 1 where
  pub World : Type 0
  pub Date : Type 0
  -- `ModifiedTime::from_mtp`, by the jiff crate, and the texts of errors.
  pub from_mtp : Date → Option ModifiedTime
  pub error_text : MtpError Other → Str
  pub path_error_text : PathError → Str
  -- `ObjectHandle::ROOT`
  pub root_handle : ℕ
  pub is_stale_handle : MtpError Other → Bool
  -- The cancel token, and the caller's progress callback.
  pub is_cancelled : World → Bool × World
  pub on_found : ℕ → World → World
  pub collect_objects : Option ℕ → World → Result (Collection Other Date) (MtpError Other) × World
  pub get_object_info : ℕ → World → Result (ObjectInfo Date) (MtpError Other) × World
  -- The items that a stream yields until it is dropped.
  pub list_objects_stream :
      Option ℕ
      → World
      → Result (List (Result (ListingItem Other Date) (MtpError Other))) (MtpError Other) × World
