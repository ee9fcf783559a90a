-- ===== src/Tests/Resolutions.antt =====
-- crates/mtpx-core/src/internal/mtp/resolver.rs on a small device.
use mtpx.Base.{
  ℕ, suc, ◌+◌, ◌≤◌, ◌≡◌, refl, true, false, [], ◌∷◌, none, some, Result, ok, err, All, arith,
}
use mtpx.Std.Text.{codes}
use mtpx.Mtp
use mtpx.Error
use mtpx.Path.RelPath.{RelPath, join, parent, split_last_segment}
use mtpx.Path.Segment.{validate_segment, IsValid}
use mtpx.Partial.{is_reserved_name}
use mtpx.Remote.Storage.{Storage}
use mtpx.Remote.Listing.{
  classify, classify_zip, repeated_names, repeated_from, child_path, list_folder,
}
use mtpx.Remote.Resolver.{
  Resolver, get, prime, remove, cached, child, descend, listing_parent, resolve, Operation, attempt,
  parent_is_stale, rekeyed, recover, with_handle,
}
use mtpx.Remote.Locating.{IsStable}
use mtpx.Remote.Resolved.{IsResolved, resolve-IsResolved}
use mtpx.Remote.Attempts.{with_handle-calls}
use mtpx.Remote.Scan.{ScanResult, MtpEndpoint, scan, IsPrimed, scan-IsPrimed}
use mtpx.Tests.Walks.{device-IsFinite, device, objects_in, streamed}

abbrev photo : RelPath
photo = codes "DCIM" ∷ codes "a.jpg" ∷ []

abbrev cold : Resolver device none
cold = record { cache = []; world = tt }

photo_found : (resolve device none photo cold).0 ≡ ok 4
unfolding resolve cached get parent split_last_segment listing_parent descend join validate_segment
    child list_folder classify classify_zip repeated_names repeated_from child_path is_reserved_name
    prime
photo_found = refl

device-IsStable : IsStable device objects_in
device-IsStable = record { answered = λ folder w. refl }

photo-IsValid : All IsValid photo
unfolding validate_segment
photo-IsValid = (refl, (refl, tt))

resolve-IsResolved_example :
    IsResolved device objects_in none device-IsStable photo (resolve device none photo cold)
resolve-IsResolved_example =
    resolve-IsResolved device objects_in none device-IsStable photo cold photo-IsValid tt

-- The device counts the operations on its objects, and calls every handle stale.
abbrev restless : Storage ⊥
restless = record {
  World = ℕ;
  Date = ℕ;
  from_mtp = λ date. some (record { unix_seconds = date });
  error_text = λ e. codes "refused";
  path_error_text = λ e. codes "invalid";
  root_handle = 0;
  is_stale_handle = λ e. true;
  is_cancelled = λ w. (false, w);
  on_found = λ n w. w;
  collect_objects = λ folder w. (ok (record { objects = objects_in folder; refused = [] }), w);
  get_object_info = λ handle w. (err Mtp.device_reset, w);
  list_objects_stream = λ folder w. (ok (streamed (objects_in folder)), w);
}

abbrev refused : Operation restless none (Unit {0})
refused handle w = (err Mtp.device_reset, suc w)

abbrev idle : Resolver restless none
idle = record { cache = []; world = 0 }

tried_thrice : (with_handle restless none photo refused idle).1.world ≡ 3
unfolding with_handle recover rekeyed parent_is_stale attempt resolve cached get parent
    split_last_segment listing_parent descend join validate_segment child list_folder classify
    classify_zip repeated_names repeated_from child_path is_reserved_name prime remove
    Error.is_stale_handle Error.from_mtp
tried_thrice = refl

with_handle-calls_example : (with_handle restless none photo refused idle).1.world ≤ 0 + 3
with_handle-calls_example =
    with_handle-calls restless none (λ w. w)
      (record { collected = λ folder w. refl; described = λ handle w. refl }) photo refused
      (λ handle w. refl) idle

abbrev whole_storage : MtpEndpoint device
whole_storage = record {
  root = record { rel = [] };
  file = none;
  identity = record { device_serial = codes "ZY22"; storage = codes "Internal" };
}

scan-IsPrimed_example :
    (r : Result ScanResult (Error.Error ⊥)) × (s' : Resolver device none) × (scan device none 6
        whole_storage cold
      ≡ some (r, s'))
    × IsPrimed device none (r, s')
scan-IsPrimed_example = scan-IsPrimed device none whole_storage cold 5 device-IsFinite (omega arith)
