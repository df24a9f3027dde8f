-- ===== src/Admin.antt =====
-- src/admin/admin-users.service.ts: the administration of accounts. Each operation is one
-- transaction: its guards read, and then it writes the account and one line of the audit journal.
pub mod Users
pub mod Deletion
pub mod Audit
use zendou_backend.Common.{ℕ, ◌==◌, Bool, true, false, Option, none, some, List, if◌then◌else◌}
use zendou_backend.Schema.{User, World, find_user, is_suspended}

-- What stands against a deletion, with its number (`buildDeleteBlockers`).
pub data Blocker : Type 0 where
  domains api_keys smtp_credentials emails credit_entries topup_requests admin_actions : ℕ → Blocker

pub data Denial : Type 0 where
  self_suspend self_credit self_delete self_anonymize : Denial
  user_not_found user_already_suspended user_already_active anonymized_cannot_reactivate : Denial
  admin_anonymize already_anonymized : Denial
  delete_blocked : List Blocker → Denial
  invariant_violated : Denial

pub data AdminReply (A : Type 0) : Type 0 where
  performed : A → AdminReply A
  denied : Denial → AdminReply A

-- A transaction: nothing is written where the guards deny.
abbrev pub commit :
    {A B : Type 0} → AdminReply A → (A → AdminReply B × World) → World → AdminReply B × World
commit (denied reason) write w = (denied reason, w)
commit (performed row) write w = write row

-- `refuseSelf`
abbrev pub refuse_self : {A : Type 0} → ℕ → ℕ → Denial → AdminReply A → AdminReply A
refuse_self admin target reason next = if admin == target then denied reason else next

abbrev pub found : Option User → AdminReply User
found none = denied user_not_found
found (some user) = performed user
