-- ===== src/Inbox/Matching.antt =====
-- When an event matches its wait.
use oria.Base.{
  ℕ, ◌<◌, ◌≡◌, refl, ◌↔◌, inl, inr, Bool, true, false, not, ◌||◌, Option, none, some, leb, ltb,
  is-true, is-yes, same_text, String_discrete, arith, Bool-cases, if◌then◌else◌,
}
use oria.Inbox.{
  EventType-discrete, Event, type_of, campaign_of, ExternalWait, WaitStatus, waiting, is_waiting,
  same_type, ProcessingStatus, matched, is_consumed, unauthorized, no_wait, type_mismatch,
  resource_mismatch, stale, out_of_order, wait_expired,
}
use oria.Inbox.Service.{Subjects, is_authorized, classify_wait, classify}

-- The event is authorized and is the one that the wait `w` waits for.
pub record Matches (subjects : Subjects) (event : Event) (wait : Option ExternalWait) (now : ℕ)
    : Type 0 where
  pub authorized : is_authorized subjects event ≡ true
  pub w : ExternalWait
  pub given : wait ≡ some w
  pub open_wait : w.status ≡ waiting
  pub tenant : w.tenant_id ≡ event.tenant_id
  pub in_time : now < w.expires_at
  pub kind : type_of event.payload ≡ w.event_type
  pub campaign : w.resource_type ≡ "campaign"
  pub resource : campaign_of event.payload ≡ w.resource_id
  pub version : event.version ≡ w.expected_version

-- The cascade of tests.
abbrev cascade : Bool → Bool → Bool → Bool → Bool → Bool → Bool → Bool → ProcessingStatus
cascade w t late ty rt rs low high =
    if not w
    then no_wait
    else (if not t
        then resource_mismatch
        else (if late
            then wait_expired
            else (if not ty
                then type_mismatch
                else (if not rt || not rs
                    then resource_mismatch
                    else (if low then stale else (if high then out_of_order else matched))))))

cascade_matched :
    (w t late ty rt rs low high : Bool)
    → cascade w t late ty rt rs low high ≡ matched
    → (w ≡ true)
      × (t ≡ true)
      × (late ≡ false)
      × (ty ≡ true)
      × (rt ≡ true)
      × (rs ≡ true)
      × (low ≡ false)
      × (high ≡ false)
cascade_matched w t late ty rt rs low high h = ground arith

waiting_status : (s : WaitStatus) → is_waiting s ≡ true → s ≡ waiting
waiting_status s h = ground arith

wait_matched :
    (subjects : Subjects) (event : Event) (w : ExternalWait) (now : ℕ)
    → is_authorized subjects event ≡ true
    → classify_wait event w now ≡ matched
    → Matches subjects event (some w) now
wait_matched subjects event w now a h =
    let (k1, k2, k3, k4, k5, k6, k7, k8) =
      cascade_matched (is_waiting w.status) (same_text w.tenant_id event.tenant_id)
        (leb w.expires_at now) (same_type (type_of event.payload) w.event_type)
        (same_text w.resource_type "campaign") (same_text (campaign_of event.payload) w.resource_id)
        (ltb event.version w.expected_version) (ltb w.expected_version event.version) h in
    record {
      authorized = a;
      w = w;
      given = refl;
      open_wait = waiting_status w.status k1;
      tenant = is-true (String_discrete w.tenant_id event.tenant_id) k2;
      in_time = ground arith;
      kind = is-true (EventType-discrete (type_of event.payload) w.event_type) k4;
      campaign = is-true (String_discrete w.resource_type "campaign") k5;
      resource = is-true (String_discrete (campaign_of event.payload) w.resource_id) k6;
      version = ground arith;
    }

classify-Matches :
    (subjects : Subjects) (event : Event) (wait : Option ExternalWait) (now : ℕ)
    → classify subjects event wait now ≡ matched
    → Matches subjects event wait now
unfolding classify
classify-Matches subjects event none now h = elim (Bool-cases (is_authorized subjects event)) [
  | inl a ↦ let k = rw a at h in absurd (ground arith)
  | inr a ↦ let k = rw a at h in absurd (ground arith)
]
classify-Matches subjects event (some w) now h = elim (Bool-cases (is_authorized subjects event)) [
  | inl a ↦ wait_matched subjects event w now a (rw a at h)
  | inr a ↦ let k = rw a at h in absurd (ground arith)
]

Matches-classify :
    (subjects : Subjects) (event : Event) (wait : Option ExternalWait) (now : ℕ)
    → Matches subjects event wait now
    → classify subjects event wait now ≡ matched
unfolding classify
Matches-classify subjects event wait now m =
    let late : leb m.w.expires_at now ≡ false = let t = m.in_time in ground arith in
    let low : ltb event.version m.w.expected_version ≡ false = let q = m.version in ground arith in
    let high : ltb m.w.expected_version event.version ≡ false = let q = m.version in ground arith in
    let tenant = is-yes (String_discrete m.w.tenant_id event.tenant_id) m.tenant in
    let kind = is-yes (EventType-discrete (type_of event.payload) m.w.event_type) m.kind in
    let campaign = is-yes (String_discrete m.w.resource_type "campaign") m.campaign in
    let resource =
      is-yes (String_discrete (campaign_of event.payload) m.w.resource_id) m.resource in
    rw (m.authorized, m.given)
      (rw (m.open_wait, tenant, late, kind, campaign, resource, low, high) refl)

-- An event is classified as matched exactly when its signer is authorized and it is what an open wait
-- of its tenant waits for: before the expiry, of its type, for the campaign of its payload and in the
-- expected version.
pub classify_iff :
    (subjects : Subjects) (event : Event) (wait : Option ExternalWait) (now : ℕ)
    → (classify subjects event wait now ≡ matched) ↔ Matches subjects event wait now
classify_iff subjects event wait now =
    (classify-Matches subjects event wait now, Matches-classify subjects event wait now)

pub classify_never_consumed :
    (subjects : Subjects) (event : Event) (wait : Option ExternalWait) (now : ℕ)
    → is_consumed (classify subjects event wait now) ≡ false
unfolding classify
classify_never_consumed subjects event none now = ground arith
classify_never_consumed subjects event (some w) now =
    not_consumed (is_authorized subjects event) (is_waiting w.status)
      (same_text w.tenant_id event.tenant_id) (leb w.expires_at now)
      (same_type (type_of event.payload) w.event_type) (same_text w.resource_type "campaign")
      (same_text (campaign_of event.payload) w.resource_id) (ltb event.version w.expected_version)
      (ltb w.expected_version event.version)
  where
    not_consumed :
        (a w t late ty rt rs low high : Bool)
        → is_consumed (if not a then unauthorized else cascade w t late ty rt rs low high) ≡ false
    not_consumed a w t late ty rt rs low high = ground arith
