-- ===== src/Dynasty/Tables.antt =====
-- services/dynasty-service/internal/models/dynasty.go: the rows of the dynasty tables, and what a
-- call finds in its surroundings. The times of rows are left out.
use Prim.Native.String.{String}
use microservice_metarang.Prelude.{ℕ, ◌+◌, Bool, Option, List, ◌==◌}
use microservice_metarang.Prelude.Action.{Action}

-- The texts for a relationship; `other n` is the n-th of all other texts.
pub data Relationship : Type 0 where
  brother sister father mother husband wife offspring owner : Relationship
  other : ℕ → Relationship

abbrev pub relationship_code : Relationship → ℕ
relationship_code brother = 0
relationship_code sister = 1
relationship_code father = 2
relationship_code mother = 3
relationship_code husband = 4
relationship_code wife = 5
relationship_code offspring = 6
relationship_code owner = 7
relationship_code (other n) = 8 + n

abbrev pub same_relationship : Relationship → Relationship → Bool
same_relationship r s = relationship_code r == relationship_code s

pub record House : Type 0 where
  pub id : ℕ
  pub user_id : ℕ
  pub feature_id : ℕ

pub record Family : Type 0 where
  pub id : ℕ
  pub dynasty_id : ℕ

pub record FamilyMember : Type 0 where
  pub family_id : ℕ
  pub user_id : ℕ
  pub relationship : Relationship

-- The numbers 0, 1 and -1 of the column.
pub data Status : Type 0 where
  pending accepted rejected : Status

abbrev pub status_code : Status → ℕ
status_code pending = 0
status_code accepted = 1
status_code rejected = 2

pub record JoinRequest : Type 0 where
  pub id : ℕ
  pub from_user : ℕ
  pub to_user : ℕ
  pub status : Status
  pub relationship : Relationship
  pub message : Option String

-- The ten flags of a permission.
pub record Grants : Type 0 where
  pub bfr : Bool
  pub sf : Bool
  pub w : Bool
  pub ju : Bool
  pub dm : Bool
  pub piup : Bool
  pub pitc : Bool
  pub pic : Bool
  pub esoo : Bool
  pub cotb : Bool

pub record ChildPermission : Type 0 where
  pub user_id : ℕ
  pub verified : Bool
  pub grants : Grants

pub record DynastyPrize : Type 0 where
  pub id : ℕ
  pub member : Relationship

pub record ReceivedPrize : Type 0 where
  pub id : ℕ
  pub user_id : ℕ
  pub prize_id : ℕ
  pub message : String

pub record Registry : Type 0 where
  pub dynasties : List House
  pub families : List Family
  pub members : List FamilyMember
  pub requests : List JoinRequest
  pub permissions : List ChildPermission
  pub received_prizes : List ReceivedPrize
  pub next_dynasty_id : ℕ
  pub next_family_id : ℕ
  pub next_request_id : ℕ
  pub next_prize_id : ℕ

-- What a call reads and does not change: the ages of the users (table `kycs`), the tables
-- `dynasty_permissions` and `dynasty_prizes`, and the texts that are put together from
-- `dynasty_messages`.
pub record Env : Type 0 where
  pub is_under18 : ℕ → Bool
  pub default_permissions : Option Grants
  pub prizes : List DynastyPrize
  pub prize_message : Relationship → String
  pub receiver_message : ℕ → ℕ → Relationship → String
  pub accept_message : ℕ → ℕ → Relationship → String

-- `no_family` stands for the nil pointer that is read if a dynasty has no family.
pub data Refusal : Type 0 where
  request_not_found unauthorized not_pending no_dynasty no_family : Refusal
  invalid_relationship over_18 not_permitted self_request already_sent was_rejected : Refusal
  in_family limit_reached has_dynasty dynasty_not_found prize_not_found : Refusal
  no_permissions no_flag : Refusal

abbrev pub Step : Type 0 → Type 0
Step A = Action Registry Refusal A
