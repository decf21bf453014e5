-- ===== src/Spam/Reputation.antt =====
-- The stores of threat_intel/: hash_reputation.cpp, sender_reputation.cpp and ioc_store.cpp, as
-- they
-- are in memory. Counts are taken below the limit of `int`, and the files, which the library
-- nlohmann/json reads and writes, are left out.
use email_server_backend.Base.{
  ℕ, suc, Bool, true, false, Bytes, Option, none, some, Dict, lookup, insert, if◌then◌else◌,
}
use email_server_backend.Integers.{ℤ, pos, sub_ℕ}

pub data ThreatVerdict : Type 0 where
  clean suspicious malicious : ThreatVerdict

pub record HashReputation : Type 0 where
  pub verdict : ThreatVerdict
  pub source : Bytes

unfoldable pub update_hash :
    Bytes → ThreatVerdict → Bytes → Dict HashReputation → Dict HashReputation
unfolding insert
update_hash sha256 verdict source m =
    insert sha256 (record { verdict = verdict; source = source }) m

unfoldable pub lookup_hash : Bytes → Dict HashReputation → Option HashReputation
unfolding lookup
lookup_hash sha256 m = lookup sha256 m

pub record SenderReputation : Type 0 where
  pub malicious_count : ℕ
  pub clean_count : ℕ

-- What `senders_[domain]` is for a domain that is not there.
abbrev or_new : Option SenderReputation → SenderReputation
or_new none = record { malicious_count = 0; clean_count = 0 }
or_new (some r) = r

unfoldable pub record_malicious : Bytes → Dict SenderReputation → Dict SenderReputation
record_malicious domain m =
    let r = or_new (lookup domain m) in
    insert domain (record r { malicious_count = suc r.malicious_count }) m

unfoldable pub record_clean : Bytes → Dict SenderReputation → Dict SenderReputation
record_clean domain m =
    let r = or_new (lookup domain m) in
    insert domain (record r { clean_count = suc r.clean_count }) m

unfoldable pub score : Bytes → Dict SenderReputation → ℤ
score domain m = elim (lookup domain m) [
  | none ↦ pos 0
  | some r ↦ sub_ℕ r.malicious_count r.clean_count
]

-- A set of hashes with its mutex, which a thread that holds it cannot take again.
pub record IocStore : Type 0 where
  pub locked : Bool
  pub hashes : Dict Bool

-- `none` is a wait that never ends.
unfoldable pub lock : IocStore → Option IocStore
lock s = if s.locked then none else some (record s { locked = true })

-- `save` takes the lock, and gives it back at its end.
unfoldable pub save : IocStore → Option IocStore
unfolding lock
save s = elim (lock s) [ none ↦ none | some t ↦ some (record t { locked = false }) ]

unfoldable pub add_hash : Bytes → IocStore → Option IocStore
unfolding lock save
add_hash sha256 s = elim (lock s) [
  | none ↦ none
  | some t ↦ elim (save (record t { hashes = insert sha256 true t.hashes })) [
    | none ↦ none
    | some u ↦ some (record u { locked = false })
  ]
]
