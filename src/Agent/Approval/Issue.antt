-- ===== src/Agent/Approval/Issue.antt =====
-- When no reason is found against an approval, and that an approval that was issued is such a one.
use mathlib.Core.Path.{subst}
use dogos_memory.Agent.Approval.{
  ActionApproval, Floats, approval_reasons, bad_lifetime, dedupe, given_reasons, intent_reasons,
  issue_action_approval, nonce_reasons, payload_of, secret_reasons, sign, signature_reasons,
  time_reasons, when,
}
use dogos_memory.Agent.Arguments.{
  Crypto, Fields, canonical_intent, is_approver, is_nonce, is_sha256,
}
use dogos_memory.Base.{
  Bool, Bool-cases, List, Text, [], ap, arith, codes, contains, false, if◌then◌else◌, inl, inr, leb,
  length, ltb, not, refl, some, sym, text_eq, text_eq_iff, true, ◌&&◌, ◌++◌, ◌↔◌, ◌∷◌, ◌≡◌,
}

pub append_empty : (xs ys : List Text) → xs ++ ys ≡ [] → (xs ≡ []) × (ys ≡ [])
append_empty [] ys h = (refl, h)
append_empty (x ∷ xs) ys h = cc h

pub when_empty : (b : Bool) (reason : Text) → when b reason ≡ [] → b ≡ false
when_empty true reason h = cc h
when_empty false reason h = refl

pub dedupe_empty : (xs : List Text) → dedupe [] xs ≡ [] → xs ≡ []
unfolding dedupe
dedupe_empty [] h = refl
dedupe_empty (x ∷ xs) h = cc h

not-false : (b : Bool) → not b ≡ false → b ≡ true
not-false true h = refl
not-false false h = cc h

module _ (F : Floats) (crypto : Crypto) (payload : Text → F.value → Text → F.value → Text → Text)
    (digest : Text) (now : F.value) where
  -- The approval is for this intent, by an approver, signed with the key, within its lifetime, and its
  -- nonce is none of those consumed.
  pub record IsApproved (key : Text) (nonces : List Text) (a : ActionApproval F) : Type 0 where
    pub keyed : ltb (length key) 32 ≡ false
    pub intended : a.intent_sha256 ≡ digest
    pub digested : is_sha256 digest ≡ true
    pub named : is_approver a.approved_by ≡ true
    pub formed : is_nonce a.nonce ≡ true
    pub unused : contains a.nonce nonces ≡ false
    pub timed :
        (F.is_finite now ≡ true)
        × (F.is_finite a.issued_at_s ≡ true)
        × (F.is_finite a.expires_at_s ≡ true)
    pub brief : bad_lifetime F crypto payload a.issued_at_s a.expires_at_s ≡ false
    pub begun : F.lt now a.issued_at_s ≡ false
    pub running : F.lt a.expires_at_s now ≡ false
    pub signed : a.signature ≡ crypto.hmac key (payload_of F crypto payload a)

  intent_clean :
      (approved : Text)
      → intent_reasons F crypto payload approved digest ≡ []
      → (approved ≡ digest) × (is_sha256 digest ≡ true)
  intent_clean approved h =
      let same : approved ≡ digest = ground (arith, text_eq_iff approved digest) in
      (same, subst (λ d. is_sha256 d ≡ true) same (ground arith))

  nonce_clean :
      (nonce : Text) (nonces : List Text)
      → nonce_reasons F crypto payload nonce (some nonces) ≡ []
      → (is_nonce nonce ≡ true) × (contains nonce nonces ≡ false)
  nonce_clean nonce nonces h = (ground arith, ground arith)

  -- The time is that of the approval.
  abbrev IsTimely : F.value → F.value → Type 0
  IsTimely issued expires =
      ((F.is_finite now ≡ true) × (F.is_finite issued ≡ true) × (F.is_finite expires ≡ true))
      × (bad_lifetime F crypto payload issued expires ≡ false)
      × (F.lt now issued ≡ false)
      × (F.lt expires now ≡ false)

  range_clean :
      (early late : Bool) (a b : Text)
      → (if early then a ∷ [] else when late b) ≡ []
      → (early ≡ false) × (late ≡ false)
  range_clean early late a b h = (ground arith, ground arith)

  time_clean :
      (issued expires : F.value)
      → time_reasons F crypto payload now issued expires ≡ []
      → IsTimely issued expires
  time_clean issued expires h =
      elim (Bool-cases (F.is_finite now && F.is_finite issued && F.is_finite expires)) [
        | inr e ↦ absurd (cc (rw e at h))
        | inl e ↦
            let (x, y) =
              append_empty
                (when (bad_lifetime F crypto payload issued expires)
                  (codes "approval_lifetime_invalid"))
                _ (rw e at h) in
            let (b, c) = range_clean (F.lt now issued) (F.lt expires now) _ _ y in
            ((ground arith, ground arith, ground arith), when_empty _ _ x, b, c)
      ]

  signature_clean :
      (key : Text) (a : ActionApproval F)
      → ltb (length key) 32 ≡ false
      → F.is_finite a.issued_at_s ≡ true
      → F.is_finite a.expires_at_s ≡ true
      → signature_reasons F crypto payload (some key) a ≡ []
      → a.signature ≡ crypto.hmac key (payload_of F crypto payload a)
  signature_clean key a k x y h =
      (text_eq_iff a.signature (crypto.hmac key (payload_of F crypto payload a))).0
        (not-false _ (when_empty _ _ (rw (k, x, y) at h)))

  given_reasons-IsApproved :
      (key : Text) (nonces : List Text) (a : ActionApproval F)
      → given_reasons F crypto payload digest now (some key) (some nonces) a ≡ []
      → IsApproved key nonces a
  given_reasons-IsApproved key nonces a h =
      let (p1, h1) = append_empty (secret_reasons F crypto payload (some key)) _ h in
      let (p3, h3) = append_empty (intent_reasons F crypto payload a.intent_sha256 digest) _ h1 in
      let (p4, h4) =
        append_empty (when (not (is_approver a.approved_by)) (codes "approval_invalid")) _ h3 in
      let (p5, h5) = append_empty (nonce_reasons F crypto payload a.nonce (some nonces)) _ h4 in
      let (p6, p7) =
        append_empty (time_reasons F crypto payload now a.issued_at_s a.expires_at_s) _ h5 in
      let (same, sha) = intent_clean a.intent_sha256 p3 in
      let (formed, unused) = nonce_clean a.nonce nonces p5 in
      let (timed, brief, begun, running) = time_clean a.issued_at_s a.expires_at_s p6 in
      let keyed = when_empty (ltb (length key) 32) _ p1 in
      record {
        keyed = keyed;
        intended = same;
        digested = sha;
        named = not-false _ (when_empty (not (is_approver a.approved_by)) _ p4);
        formed = formed;
        unused = unused;
        timed = timed;
        brief = brief;
        begun = begun;
        running = running;
        signed = signature_clean key a keyed timed.1 timed.2 p7;
      }

  IsApproved-given_reasons :
      (key : Text) (nonces : List Text) (a : ActionApproval F)
      → IsApproved key nonces a
      → given_reasons F crypto payload digest now (some key) (some nonces) a ≡ []
  IsApproved-given_reasons key nonces a v =
      let same : text_eq a.intent_sha256 digest ≡ true =
        (text_eq_iff a.intent_sha256 digest).1 v.intended in
      let sha : is_sha256 a.intent_sha256 ≡ true =
        subst (λ d. is_sha256 d ≡ true) (sym v.intended) v.digested in
      let signature : text_eq a.signature (crypto.hmac key (payload_of F crypto payload a)) ≡ true =
        (text_eq_iff a.signature (crypto.hmac key (payload_of F crypto payload a))).1 v.signed in
      rw
        (
          v.keyed, sha, same, v.named, v.formed, v.unused, v.timed.0, v.timed.1, v.timed.2, v.brief,
          v.begun, v.running, signature,
        )
        refl

  -- Against an approval there is no reason, where the key and the store of nonces are at hand, exactly
  -- if it is for this intent, by a named approver, signed with the key, within its lifetime, which is
  -- positive and not too long, and its nonce was not consumed.
  pub IsApproved-iff :
      (key : Text) (nonces : List Text) (a : ActionApproval F)
      → (approval_reasons F crypto payload digest now (some key) (some nonces) (some a) ≡ [])
        ↔ IsApproved key nonces a
  unfolding approval_reasons dedupe
  IsApproved-iff key nonces a = (
    λ h. given_reasons-IsApproved key nonces a (dedupe_empty _ h),
    λ v. ap (dedupe []) (IsApproved-given_reasons key nonces a v),
  )

module _ (F : Floats) (crypto : Crypto)
    (payload : Text → F.value → Text → F.value → Text → Text) where
  canonical_intent-sha256 :
      (tool mode : Text) (arguments : Fields) {digest : Text}
      → canonical_intent crypto tool mode arguments ≡ some digest
      → digest ≡ crypto.sha256 (crypto.dumps arguments mode tool)
  unfolding canonical_intent
  canonical_intent-sha256 tool mode arguments h = ground arith

  issue-inv :
      (tool mode : Text) (arguments : Fields) (by : Text) (issued expires : F.value)
      (nonce key digest : Text) {a : ActionApproval F}
      → canonical_intent crypto tool mode arguments ≡ some digest
      → issue_action_approval F crypto payload tool mode arguments by issued expires nonce key
        ≡ some a
      → (ltb (length key) 32 ≡ false)
        × (is_approver by ≡ true)
        × (is_nonce nonce ≡ true)
        × (F.is_finite issued ≡ true)
        × (F.is_finite expires ≡ true)
        × (bad_lifetime F crypto payload issued expires ≡ false)
        × (sign F crypto payload key (record {
          intent_sha256 = digest;
          approved_by = by;
          issued_at_s = issued;
          expires_at_s = expires;
          nonce = nonce;
          signature = [];
        })
            ≡ a)
  unfolding issue_action_approval
  issue-inv tool mode arguments by issued expires nonce key digest {a} c h =
      elim (Bool-cases (
        leb 32 (length key)
        && is_approver by
        && is_nonce nonce
        && F.is_finite issued
        && F.is_finite expires
        && not (bad_lifetime F crypto payload issued expires))) [
          | inr e ↦ absurd (cc (rw e at h))
          | inl e ↦
              let made = rw (e, c) at h in
              (
                ground arith,
                ground arith,
                ground arith,
                ground arith,
                ground arith,
                ground arith,
                cc made,
              )
        ]

  -- An approval that was issued for an intent is valid for that intent, with the same key, at every
  -- moment from its issue to its expiry, while its nonce is not consumed. That sha256 gives 64
  -- hexadecimal digits is a hypothesis.
  pub issue_valid :
      (hex : (t : Text) → is_sha256 (crypto.sha256 t) ≡ true) (tool mode : Text)
      (arguments : Fields) (by : Text) (issued expires now : F.value) (nonce key digest : Text)
      (nonces : List Text) {a : ActionApproval F}
      → canonical_intent crypto tool mode arguments ≡ some digest
      → issue_action_approval F crypto payload tool mode arguments by issued expires nonce key
        ≡ some a
      → F.is_finite now ≡ true
      → F.lt now issued ≡ false
      → F.lt expires now ≡ false
      → contains nonce nonces ≡ false
      → approval_reasons F crypto payload digest now (some key) (some nonces) (some a) ≡ []
  issue_valid hex tool mode arguments by issued expires now nonce key digest nonces {a} c h f b e
        u =
      let unsigned : ActionApproval F = record {
        intent_sha256 = digest;
        approved_by = by;
        issued_at_s = issued;
        expires_at_s = expires;
        nonce = nonce;
        signature = [];
      } in
      let guarded = issue-inv tool mode arguments by issued expires nonce key digest c h in
      let made : sign F crypto payload key unsigned ≡ a = guarded.6 in
      subst
        (λ x. approval_reasons F crypto payload digest now (some key) (some nonces) (some x) ≡ [])
        made
        ((IsApproved-iff F crypto payload digest now key nonces
            (sign F crypto payload key unsigned)).1
          (record {
            keyed = guarded.0;
            intended = refl;
            digested =
                subst (λ d. is_sha256 d ≡ true)
                  (sym (canonical_intent-sha256 tool mode arguments c))
                  (hex (crypto.dumps arguments mode tool));
            named = guarded.1;
            formed = guarded.2;
            unused = u;
            timed = (f, guarded.3, guarded.4);
            brief = guarded.5;
            begun = b;
            running = e;
            signed = refl;
          }))
