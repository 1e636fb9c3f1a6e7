-- ===== src/Inbox/Claims.antt =====
-- What a consumption that returns has found, and what it does to the records of a wait.
use oria.Base.{
  ℕ, ◌≤◌, String, ◌≡◌, refl, sym, ap, subst, ◌∙◌, inl, inr, true, false, not, ◌&&◌, ◌||◌, Option,
  none, some, List, find, select, length, ok, raise_if, or_raise, leb, ◌==◌, same_text, is-true,
  is-yes, String_discrete, Bool-cases, Option-cases, >>=-eq-ok, find-holds, find-map,
  find-map_fixed, length-select_update, length-select_lost, arith, if◌then◌else◌,
}
use oria.Inbox.{
  Event, Payload, ExternalWait, is_waiting, InboxRecord, Identity, InboxError, validate_wait,
}
use oria.Inbox.Store.{
  Store, has_wait, has_identity, get, wait_in, paired, joined, fits_event, claims_record,
  claims_wait, consumed_record, resolved_wait, update_records, update_waits, checked, consume_body,
}
use oria.Inbox.Allowance.{consumed_for, consumptions, allowance, ConsumedOnce}

pub record Claim (store : Store) (identity : Identity) (wait : ExternalWait) : Type 0 where
  pub found : find (has_wait identity.tenant_id wait.wait_id) store.waits ≡ some wait
  pub open_wait : is_waiting wait.status ≡ true
  pub one_record : length (select (claims_record identity wait.wait_id) store.inbox) ≡ 1

-- A claim of another wait.
other_claim :
    (t w : String) (identity : Identity) (wait_id : String) (now : ℕ) (row : InboxRecord)
    → (same_text identity.tenant_id t && same_text wait_id w) ≡ false
    → claims_record identity wait_id row ≡ true
    → consumed_for t w (consumed_record now row) ≡ false
other_claim t w identity wait_id now row h k = elim (Option-cases row.wait_id) [
  | inl gone ↦ let q = rw gone at k in absurd (ground arith)
  | inr (x, named) ↦
      let tenant = is-true (String_discrete row.tenant_id identity.tenant_id) (ground arith) in
      let name : x ≡ wait_id =
        is-true (String_discrete x wait_id) (let q = rw named at k in ground arith) in
      rw (named, tenant, name) (ground arith)
]

other_wait :
    (t w tenant_id : String) (wait : ExternalWait) (row : ExternalWait)
    → (same_text tenant_id t && same_text wait.wait_id w) ≡ false
    → has_wait t w row ≡ true
    → claims_wait tenant_id wait row ≡ false
other_wait t w tenant_id wait row h k =
    let p = is-true (String_discrete row.tenant_id t) (ground arith) in
    let q = is-true (String_discrete row.wait_id w) (ground arith) in
    elim (Bool-cases (claims_wait tenant_id wait row)) [
      | inr miss ↦ miss
      | inl hit ↦
          let a = is-true (String_discrete row.tenant_id tenant_id) (ground arith) in
          let b = is-true (String_discrete row.wait_id wait.wait_id) (ground arith) in
          let x = is-yes (String_discrete tenant_id t) (sym a ∙ p) in
          let y = is-yes (String_discrete wait.wait_id w) (sym b ∙ q) in absurd (ground arith)
    ]

update_keeps_key :
    (t w tenant_id : String) (wait : ExternalWait) (now : ℕ) (row : ExternalWait)
    → has_wait t w (if claims_wait tenant_id wait row then resolved_wait now row else row)
      ≡ has_wait t w row
update_keeps_key t w tenant_id wait now row = elim (Bool-cases (claims_wait tenant_id wait row)) [
  | inl hit ↦ rw hit refl
  | inr miss ↦ rw miss refl
]

own_claim :
    (identity : Identity) (wait : ExternalWait)
    → has_wait identity.tenant_id wait.wait_id wait ≡ true
    → is_waiting wait.status ≡ true
    → claims_wait identity.tenant_id wait wait ≡ true
own_claim identity wait h k =
    let c = is-yes (String_discrete wait.checkpoint_id wait.checkpoint_id) refl in ground arith

own-bounded :
    (store : Store) (identity : Identity) (wait : ExternalWait) (now : ℕ)
    → ConsumedOnce store
    → Claim store identity wait
    → consumptions identity.tenant_id wait.wait_id
        (update_records identity wait.wait_id now store.inbox)
      ≤ allowance (
          find
            (has_wait identity.tenant_id wait.wait_id)
            (update_waits identity.tenant_id wait now store.waits))
own-bounded store identity wait now once claim =
    let t = identity.tenant_id in
    let w = wait.wait_id in
    let mine =
      own_claim identity wait (find-holds (has_wait t w) store.waits claim.found) claim.open_wait in
    let found =
      find-map (has_wait t w) (λ row. if claims_wait t wait row then resolved_wait now row else row)
        (update_keeps_key t w t wait now) store.waits claim.found in
    let found_resolved : find (has_wait t w) (update_waits t wait now store.waits)
        ≡ some (resolved_wait now wait) =
      found ∙ ap (λ b. some (if b then resolved_wait now wait else wait)) mine in
    let before : consumptions t w store.inbox ≤ 0 =
      subst (λ b. consumptions t w store.inbox ≤ (if b then 0 else 1)) claim.open_wait
        (subst (λ x. consumptions t w store.inbox ≤ allowance x) claim.found (once.bounded t w)) in
    let more =
      length-select_update (consumed_for t w) (claims_record identity w) (consumed_record now)
        store.inbox in
    let one = claim.one_record in
    subst (λ x. consumptions t w (update_records identity w now store.inbox) ≤ allowance x)
      (sym found_resolved) (omega (arith, before, more, one))

-- After a claim its wait has one consumption, and the others have the ones that they had.
pub claimed-bounded :
    (store : Store) (identity : Identity) (wait : ExternalWait) (now : ℕ) (t w : String)
    → ConsumedOnce store
    → Claim store identity wait
    → consumptions t w (update_records identity wait.wait_id now store.inbox)
      ≤ allowance (find (has_wait t w) (update_waits identity.tenant_id wait now store.waits))
claimed-bounded store identity wait now t w once claim =
    elim (Bool-cases (same_text identity.tenant_id t && same_text wait.wait_id w)) [
      | inr other ↦
          let kept =
            find-map_fixed (has_wait t w)
              (λ row.
                if claims_wait identity.tenant_id wait row then resolved_wait now row else row)
              (update_keeps_key t w identity.tenant_id wait now)
              (λ row k. rw (other_wait t w identity.tenant_id wait row other k) refl) store.waits in
          let few =
            length-select_lost (consumed_for t w) (claims_record identity wait.wait_id)
              (consumed_record now) (λ row k. other_claim t w identity wait.wait_id now row other k)
              store.inbox in
          let before = once.bounded t w in rw kept (omega (arith, few, before))
      | inl own ↦
          let p : identity.tenant_id ≡ t =
            is-true (String_discrete identity.tenant_id t) (ground arith) in
          let q : wait.wait_id ≡ w = is-true (String_discrete wait.wait_id w) (ground arith) in
          subst
            (λ y.
              consumptions t y (update_records identity wait.wait_id now store.inbox)
              ≤ allowance
                  (find (has_wait t y) (update_waits identity.tenant_id wait now store.waits)))
            q
            (subst
              (λ x.
                consumptions x wait.wait_id (update_records identity wait.wait_id now store.inbox)
                ≤ allowance (
                    find (has_wait x wait.wait_id)
                      (update_waits identity.tenant_id wait now store.waits)))
              p (own-bounded store identity wait now once claim))
    ]

paired-eq :
    (r row : InboxRecord) (o : Option ExternalWait) (wait : ExternalWait)
    → paired r o ≡ some (row, wait)
    → (r ≡ row) × (o ≡ some wait)
paired-eq r row none wait h = cc
paired-eq r row (some v) wait h = (ground arith, ground arith)

wait_in-found :
    (waits : List ExternalWait) (t : String) (o : Option String) (v : ExternalWait)
    → wait_in waits t o ≡ some v
    → find (has_wait t v.wait_id) waits ≡ some v
wait_in-found waits t none v h = cc
wait_in-found waits t (some w) v h =
    let keyed = find-holds (has_wait t w) waits h in
    let p : v.wait_id ≡ w = is-true (String_discrete v.wait_id w) (ground arith) in
    subst (λ x. find (has_wait t x) waits ≡ some v) (sym p) h

joined-found :
    (store : Store) (identity : Identity) (row : InboxRecord) (wait : ExternalWait)
    → joined store (get store identity) ≡ some (row, wait)
    → find (has_wait identity.tenant_id wait.wait_id) store.waits ≡ some wait
unfolding get
joined-found store identity row wait h =
    elim (Option-cases (find (has_identity identity) store.inbox)) [
      | inl gone ↦ let k = rw gone at h in absurd (ground arith)
      | inr (r, there) ↦
          let k : paired r (wait_in store.waits r.tenant_id r.wait_id) ≡ some (row, wait) =
            rw there at h in
          let (_, held) = paired-eq r row _ wait k in
          let owner = find-holds (has_identity identity) store.inbox there in
          let p : r.tenant_id ≡ identity.tenant_id =
            is-true (String_discrete r.tenant_id identity.tenant_id) (ground arith) in
          subst (λ x. find (has_wait x wait.wait_id) store.waits ≡ some wait) p
            (wait_in-found store.waits r.tenant_id r.wait_id wait held)
    ]

checked-ok : (wait w : ExternalWait) → checked (validate_wait wait) ≡ ok w → wait ≡ w
unfolding validate_wait
checked-ok wait w h = elim (Bool-cases (leb wait.expires_at wait.created_at)) [
  | inl bad ↦ let k = rw bad at h in absurd (ground arith)
  | inr fine ↦ let k = rw fine at h in ground arith
]

pub consume_body-Claim :
    (hash : Payload → String) (store : Store) (identity : Identity) (event : Event) (now : ℕ)
    (out : InboxRecord × ExternalWait) (next : Store)
    → consume_body hash store identity event now ≡ ok (out, next)
    → (wait : ExternalWait) × Claim store identity wait
      × (next ≡ record {
        inbox = update_records identity wait.wait_id now store.inbox;
        waits = update_waits identity.tenant_id wait now store.waits;
      })
unfolding consume_body
consume_body-Claim hash store identity event now out next h =
    let (pair, found, h1) =
      >>=-eq-ok (or_raise (joined store (get store identity)) InboxError.not_present) _ h in
    let (wait, valid, h2) = >>=-eq-ok (checked (validate_wait pair.1)) _ h1 in
    let same = checked-ok pair.1 wait valid in
    let (_, fits, h3) =
      >>=-eq-ok
        (raise_if (not (fits_event hash identity event pair.0 wait now)) InboxError.mismatch) _
        h2 in
    let (_, once, h4) =
      >>=-eq-ok
        (raise_if
          (not (length (select (claims_record identity wait.wait_id) store.inbox) == 1)
            || not (length (select (claims_wait identity.tenant_id wait) store.waits) == 1))
          InboxError.already_consumed)
        _ h3 in
    let there : joined store (get store identity) ≡ some (pair.0, pair.1) = ground arith in
    let held = joined-found store identity pair.0 pair.1 there in
    let fine : fits_event hash identity event pair.0 wait now ≡ true = ground arith in
    (
      wait,
      record {
        found =
            subst (λ x. find (has_wait identity.tenant_id x.wait_id) store.waits ≡ some x) same
              held;
        open_wait = ground arith;
        one_record = ground arith;
      },
      ground arith,
    )
