-- ===== src/Agent/Approval.antt =====
-- Approvals of a supervised tool: `issue_action_approval` and `_approval_reasons`.
-- Doubles, by what is asked of them. `value` is the type of the finite ones, the infinite ones and NaN.
pub mod Issue
use dogos_memory.Agent.Arguments.{
  Crypto, Fields, canonical_intent, is_approver, is_nonce, is_sha256,
}
use dogos_memory.Base.{
  Bool, List, Option, Text, [], codes, contains, false, if◌then◌else◌, leb, length, ltb, none, not,
  some, text_eq, true, zero, ◌&&◌, ◌++◌, ◌||◌, ◌∷◌,
}

pub record Floats : Type 1 where
  pub value : Type 0
  pub is_finite : value → Bool
  pub lt : value → value → Bool
  pub le : value → value → Bool
  pub sub : value → value → value
  pub zero : value
  -- `MAX_APPROVAL_LIFETIME_SECONDS`
  pub max_lifetime : value
  pub hundred : value

module _ (F : Floats) where
  pub record ActionApproval : Type 0 where
    pub intent_sha256 : Text
    pub approved_by : Text
    pub issued_at_s : F.value
    pub expires_at_s : F.value
    pub nonce : Text
    pub signature : Text

-- `list(dict.fromkeys(xs))`: each name once, where it first stands
unfoldable pub dedupe : List Text → List Text → List Text
dedupe seen [] = []
dedupe seen (x ∷ xs) =
    let old = dedupe seen xs in
    let new = dedupe (x ∷ seen) xs in if contains x seen then old else x ∷ new

-- `reasons.append(...)` under a condition
abbrev pub when : Bool → Text → List Text
when true reason = reason ∷ []
when false reason = []

module _ (F : Floats) (crypto : Crypto)
    (payload : Text → F.value → Text → F.value → Text → Text) where
  -- a lifetime that is not positive, or longer than the longest
  abbrev pub bad_lifetime : F.value → F.value → Bool
  bad_lifetime issued expires =
      let lifetime = F.sub expires issued in F.le lifetime F.zero || F.lt F.max_lifetime lifetime

  abbrev pub secret_reasons : Option Text → List Text
  secret_reasons none = codes "approval_verifier_unavailable" ∷ []
  secret_reasons (some secret) = when (ltb (length secret) 32) (codes "approval_verifier_invalid")

  abbrev pub store_reasons : Option (List Text) → List Text
  store_reasons none = codes "approval_replay_store_unavailable" ∷ []
  store_reasons (some nonces) = []

  abbrev pub intent_reasons : Text → Text → List Text
  intent_reasons approved digest =
      if is_sha256 approved
      then when (not (text_eq approved digest)) (codes "approval_intent_mismatch")
      else codes "approval_invalid" ∷ []

  abbrev is_consumed : Text → Option (List Text) → Bool
  is_consumed nonce none = false
  is_consumed nonce (some nonces) = contains nonce nonces

  abbrev pub nonce_reasons : Text → Option (List Text) → List Text
  nonce_reasons nonce consumed =
      if is_nonce nonce
      then when (is_consumed nonce consumed) (codes "approval_replayed")
      else codes "approval_invalid" ∷ []

  abbrev pub time_reasons : F.value → F.value → F.value → List Text
  time_reasons now issued expires =
      if F.is_finite now && F.is_finite issued && F.is_finite expires
      then when (bad_lifetime issued expires) (codes "approval_lifetime_invalid")
        ++ (if F.lt now issued
            then codes "approval_not_yet_valid" ∷ []
            else when (F.lt expires now) (codes "approval_expired"))
      else codes "approval_time_invalid" ∷ []

  -- `_approval_payload` of an approval
  abbrev pub payload_of : ActionApproval F → Text
  payload_of a = payload a.approved_by a.expires_at_s a.intent_sha256 a.issued_at_s a.nonce

  -- `_approval_payload` raises for a time that is not finite
  abbrev pub signature_reasons : Option Text → ActionApproval F → List Text
  signature_reasons none a = []
  signature_reasons (some secret) a =
      if ltb (length secret) 32
      then []
      else if F.is_finite a.issued_at_s && F.is_finite a.expires_at_s
      then when (not (text_eq a.signature (crypto.hmac secret (payload_of a))))
          (codes "approval_signature_invalid")
      else codes "approval_invalid" ∷ []

  -- `_approval_reasons`; `payload` is the `json.dumps` of the five fields in the order of their names
  abbrev pub given_reasons :
      Text → F.value → Option Text → Option (List Text) → ActionApproval F → List Text
  given_reasons digest now secret consumed a =
      secret_reasons secret
      ++ (store_reasons consumed
          ++ (intent_reasons a.intent_sha256 digest
              ++ (when (not (is_approver a.approved_by)) (codes "approval_invalid")
                  ++ (nonce_reasons a.nonce consumed
                      ++ (time_reasons now a.issued_at_s a.expires_at_s
                          ++ signature_reasons secret a)))))

  unfoldable pub approval_reasons :
      Text → F.value → Option Text → Option (List Text) → Option (ActionApproval F) → List Text
  approval_reasons digest now secret consumed none = codes "action_approval_required" ∷ []
  approval_reasons digest now secret consumed (some a) =
      dedupe [] (given_reasons digest now secret consumed a)

  abbrev pub sign : Text → ActionApproval F → ActionApproval F
  sign secret a = record a { signature = crypto.hmac secret (payload_of a) }

  -- `issue_action_approval`, where it does not raise
  unfoldable pub issue_action_approval :
      Text → Text → Fields → Text → F.value → F.value → Text → Text → Option (ActionApproval F)
  issue_action_approval tool mode arguments approved_by issued expires nonce secret =
      if leb 32 (length secret)
        && is_approver approved_by
        && is_nonce nonce
        && F.is_finite issued
        && F.is_finite expires
        && not (bad_lifetime issued expires)
      then elim (canonical_intent crypto tool mode arguments) [
        | none ↦ none
        | some digest ↦ some (
            sign secret (record {
              intent_sha256 = digest;
              approved_by = approved_by;
              issued_at_s = issued;
              expires_at_s = expires;
              nonce = nonce;
              signature = [];
            }))
      ]
      else none
