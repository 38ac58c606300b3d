-- ===== src/Operations/Plan.antt =====
-- The choice that handle_create_file of nandroidfs/operations.cpp makes for a file.
use mathlib.Core.Path.{subst}
use nandroidfs.Base.{false, ◌≡◌, Bool, true}
use nandroidfs.Operations.Create.{
  CreationDisposition, open_always, create_new, open_existing, truncate_existing,
}
use nandroidfs.Conversion.{
  status_unsuccessful, status_object_name_not_found, status_success, Ntstatus,
}
use nandroidfs.Protocol.{OpenMode, create_if_not_exist, create_or_truncate, open_only}
use nandroidfs.Protocol.RoundTrip.{IsMode}

-- How a file is to be opened, or the status that is given without.
pub data Plan : Type 0 where
  answers : Ntstatus → Plan
  opens_as : OpenMode → Plan

-- By the disposition, whether the file is there, and whether any access is asked for.
abbrev pub plan : CreationDisposition → Bool → Bool → Plan
plan CreationDisposition.create_always existed accessed = opens_as create_or_truncate
plan create_new existed accessed = opens_as OpenMode.create_always
plan open_always true false = answers status_success
plan open_always existed accessed = opens_as create_if_not_exist
plan open_existing true true = opens_as open_only
plan open_existing true false = answers status_success
plan open_existing false accessed = answers status_object_name_not_found
plan truncate_existing existed accessed = opens_as OpenMode.truncate
plan (CreationDisposition.unknown n) existed accessed = answers status_unsuccessful

abbrev FitsPlan : Plan → Type 0
FitsPlan (answers status) = Unit
FitsPlan (opens_as mode) = IsMode mode

plan-FitsPlan :
    (disposition : CreationDisposition) (existed accessed : Bool)
    → FitsPlan (plan disposition existed accessed)
plan-FitsPlan CreationDisposition.create_always existed accessed = tt
plan-FitsPlan create_new existed accessed = tt
plan-FitsPlan open_always true true = tt
plan-FitsPlan open_always true false = tt
plan-FitsPlan open_always false accessed = tt
plan-FitsPlan open_existing true true = tt
plan-FitsPlan open_existing true false = tt
plan-FitsPlan open_existing false accessed = tt
plan-FitsPlan truncate_existing existed accessed = tt
plan-FitsPlan (CreationDisposition.unknown n) existed accessed = tt

pub plan-IsMode :
    (disposition : CreationDisposition) (existed accessed : Bool) (mode : OpenMode)
    → plan disposition existed accessed ≡ opens_as mode
    → IsMode mode
plan-IsMode disposition existed accessed mode e =
    subst FitsPlan e (plan-FitsPlan disposition existed accessed)
