-- ===== src/Antispam/Results.antt =====
-- The enumerations and results of antispam/auth_results.h and antispam/spf_record.h.
use email_server_backend.Base.{List, Bytes, Option}
use email_server_backend.Integers.{ℤ}

-- enum class SpfResult
pub data SpfResult : Type 0 where
  none pass fail soft_fail neutral temp_error perm_error : SpfResult

-- enum class SpfResultCode
pub data SpfResultCode : Type 0 where
  pass fail soft_fail neutral none temp_error perm_error : SpfResultCode

pub record SpfCheckResult : Type 0 where
  pub result : SpfResult
  pub smtp_mail_from : Bytes

pub data SpfQualifier : Type 0 where
  plus minus tilde question : SpfQualifier

pub data SpfMechanismType : Type 0 where
  ip4 ip6 a mx ptr include exists all : SpfMechanismType

pub record SpfMechanism : Type 0 where
  pub qualifier : SpfQualifier
  pub type : SpfMechanismType
  pub domain : Bytes
  pub cidr : ℤ

pub record SpfRecord : Type 0 where
  pub mechanisms : List SpfMechanism
  pub redirect : Option Bytes
  pub exp : Option Bytes

-- enum class DmarcResultCode, DmarcPolicy, and struct DmarcResult.
pub data DmarcResultCode : Type 0 where
  none pass fail : DmarcResultCode

pub data DmarcPolicy : Type 0 where
  none quarantine reject : DmarcPolicy

pub record DmarcResult : Type 0 where
  pub result : DmarcResultCode
  pub policy : DmarcPolicy

-- enum class DkimResult and struct DkimAuthResult.
pub data DkimResult : Type 0 where
  none pass fail temp_error perm_error : DkimResult

pub record DkimAuthResult : Type 0 where
  pub result : DkimResult
  pub header_domain : Bytes
