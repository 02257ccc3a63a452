-- ===== src/Api/Meta.antt =====
-- Object metadata and instants, as the Kubernetes API machinery has them: the fields that the
-- controller uses. An instant is a number of nanoseconds since Go's zero time; `*metav1.Time` is
-- an `Option`.
use vihara.Prelude.{String, Bool, true, Option, none, some, List, Map, ℤ, pos, eqb_ℤ}

abbrev pub Time : Type 0
Time = ℤ

abbrev pub Duration : Type 0
Duration = ℤ

-- `time.Time{}`
abbrev pub zero_time : Time
zero_time = pos 0

-- `time.Time.IsZero`
abbrev pub is_zero : Time → Bool
is_zero t = eqb_ℤ t zero_time

-- `metav1.Time.IsZero`, true of nil
abbrev pub is_zero? : Option Time → Bool
is_zero? none = true
is_zero? (some t) = is_zero t

-- `metav1.Time.Equal`
abbrev pub equal_time : Option Time → Option Time → Bool
equal_time none none = true
equal_time (some t) (some u) = eqb_ℤ t u
equal_time _ _ = Bool.false

pub record OwnerReference : Type 0 where
  pub kind : String
  pub name : String
  pub uid : String
  pub controller : Option Bool
  pub block_owner_deletion : Option Bool

pub record ObjectMeta : Type 0 where
  pub name : String
  pub namespace : String
  pub uid : String
  pub labels : Map String
  pub creation_timestamp : Time
  pub deletion_timestamp : Option Time
  pub owner_references : List OwnerReference

abbrev pub empty_meta : ObjectMeta
empty_meta = record {
  name = "";
  namespace = "";
  uid = "";
  labels = List.[];
  creation_timestamp = zero_time;
  deletion_timestamp = none;
  owner_references = List.[];
}
