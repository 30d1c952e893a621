-- ===== src/Deploy/Manifest/Records.antt =====
-- The records of a manifest, as `deployedRecord` of tools/deploy/src/deployment.ts accepts them.
use ckb_crypto_agile_account.Common.{
  ℕ, ◌≡◌, ◌≤◌, refl, ap, Bool, true, Option, none, some, codes, Text, text_eq→eq, text_eq_self, ok,
  arith, All,
}
use ckb_crypto_agile_account.Bytes.{nat, max_safe_integer}
use ckb_crypto_agile_account.Json.{Json, null, num, str, obj, Fields, get_field}
use ckb_crypto_agile_account.Json.Patterns.{is_hash32, is_positive_decimal}
use ckb_crypto_agile_account.Deploy.Manifest.{
  str_is, str_fits, is_index, is_deployed_record, deployed_record, Artifacts,
}

-- A value that records a published code cell under a name.
pub record IsDeployed (name : Text) (value : Json) : Type 0 where
  pub fields : Fields
  pub data_hash : Text
  pub tx_hash : Text
  pub index : ℕ
  pub capacity : Text
  pub object : value ≡ obj fields
  pub named : get_field (codes "name") fields ≡ some (str name)
  pub hashed : get_field (codes "dataHash") fields ≡ some (str data_hash)
  pub hash_kind : get_field (codes "hashType") fields ≡ some (str (codes "data2"))
  pub placed : get_field (codes "txHash") fields ≡ some (str tx_hash)
  pub indexed : get_field (codes "index") fields ≡ some (num (nat index))
  pub funded : get_field (codes "capacityShannons") fields ≡ some (str capacity)
  pub data_hash_form : is_hash32 data_hash ≡ true
  pub tx_hash_form : is_hash32 tx_hash ≡ true
  pub index_safe : index ≤ max_safe_integer
  pub capacity_form : is_positive_decimal capacity ≡ true

-- Every artifact is a record of its own name.
abbrev pub AreDeployed : Artifacts → Type 0
AreDeployed artifacts = All (λ a. IsDeployed a.0 a.1) artifacts

str_is-eq-true : (o : Option Json) (t : Text) → str_is o t ≡ true → o ≡ some (str t)
str_is-eq-true none t h = cc
str_is-eq-true (some (str s)) t h = ap (λ x. some (str x)) (text_eq→eq s t h)
str_is-eq-true (some _) t h = cc

str_fits-eq-true :
    (o : Option Json) (test : Text → Bool)
    → str_fits o test ≡ true
    → (t : Text) × (o ≡ some (str t)) × (test t ≡ true)
str_fits-eq-true none test h = cc
str_fits-eq-true (some (str s)) test h = (s, refl, h)
str_fits-eq-true (some _) test h = cc

is_index-eq-true :
    (o : Option Json)
    → is_index o ≡ true
    → (n : ℕ) × (o ≡ some (num (nat n))) × (n ≤ max_safe_integer)
is_index-eq-true none h = cc
is_index-eq-true (some (num (nat n))) h = (n, refl, ground arith)
is_index-eq-true (some _) h = cc

is_deployed_record-IsDeployed :
    (fields : Fields) (name : Text)
    → is_deployed_record fields name ≡ true
    → IsDeployed name (obj fields)
unfolding is_deployed_record
is_deployed_record-IsDeployed fields name h =
    let (data_hash, hashed, h1) =
      str_fits-eq-true (get_field (codes "dataHash") fields) is_hash32 (ground arith) in
    let (tx_hash, placed, h2) =
      str_fits-eq-true (get_field (codes "txHash") fields) is_hash32 (ground arith) in
    let (index, indexed, h3) = is_index-eq-true (get_field (codes "index") fields) (ground arith) in
    let (capacity, funded, h4) =
      str_fits-eq-true (get_field (codes "capacityShannons") fields) is_positive_decimal
        (ground arith) in
    record {
      fields = fields;
      data_hash = data_hash;
      tx_hash = tx_hash;
      index = index;
      capacity = capacity;
      object = refl;
      named = str_is-eq-true _ name (ground arith);
      hashed = hashed;
      hash_kind = str_is-eq-true _ (codes "data2") (ground arith);
      placed = placed;
      indexed = indexed;
      funded = funded;
      data_hash_form = h1;
      tx_hash_form = h2;
      index_safe = h3;
      capacity_form = h4;
    }

-- What `deployedRecord` answers is the value that it was given, a record of that name.
pub deployed_record-eq-ok :
    (value result : Json) (name : Text)
    → deployed_record value name ≡ ok result
    → (result ≡ value) × IsDeployed name value
unfolding deployed_record
deployed_record-eq-ok (obj fields) result name h =
    (ground arith, is_deployed_record-IsDeployed fields name (ground arith))
deployed_record-eq-ok null result name h = cc
deployed_record-eq-ok _ result name h = cc

pub deployed_record_total :
    (value : Json) (name : Text) → IsDeployed name value → deployed_record value name ≡ ok value
unfolding deployed_record is_deployed_record
deployed_record_total value name v =
    let same = text_eq_self name in
    rw v.object
      (rw (v.named, v.hashed, v.hash_kind, v.placed, v.indexed, v.funded) (ground (arith, same, v)))
