-- ===== src/Jobs/EventLog.antt =====
-- The event log of the job table: one event for each revision of each job, in order.
use oria.Base.{
  ℕ, zero, suc, String, ◌≡◌, refl, sym, ap, subst, inl, inr, Bool, true, false, ◌&&◌, ◌||◌, List,
  [], ◌∷◌, Result, ok, arith, Bool-cases, is, any, select, All, All-map, Distinct,
  Distinct-replace_where, All-replace_where_keys, any-replace_where, any-replace_where_new,
  String_discrete,
}
use oria.Jobs.{Job, Job-discrete, JobError, with_mutable_fields}
use oria.Jobs.Repository.{Store, JobEvent, append_event, event_of, update_where, has_id, clashes}
use oria.Jobs.Transaction.{Wrote, Inserted}
use oria.Jobs.Rules.{Evolves}

abbrev pub same_id : Job → Job → Bool
same_id row = has_id row.tenant_id row.job_id

abbrev pub is_event_of : Job → JobEvent → Bool
is_event_of row event =
    is (String_discrete event.tenant_id row.tenant_id)
    && is (String_discrete event.job_id row.job_id)

-- The events of a job, the newest first.
abbrev pub trail : Job → List JobEvent → List JobEvent
trail row = select (is_event_of row)

-- The sequence numbers below `n`, each once, from `n - 1` down to 0.
abbrev pub CountsDown : ℕ → List JobEvent → Type 0
CountsDown zero [] = Unit {0}
CountsDown zero (_ ∷ _) = ⊥
CountsDown (suc n) [] = ⊥
CountsDown (suc n) (event ∷ events) = (event.sequence ≡ n) × CountsDown n events

-- The newest event is of the row as it stands.
abbrev pub IsTrail : Job → List JobEvent → Type 0
IsTrail row [] = ⊥
IsTrail row (event ∷ events) =
    (event.sequence ≡ row.revision)
    × (event.status ≡ row.status)
    × (event.created_at ≡ row.updated_at)
    × CountsDown row.revision events

pub record IsLogged (s : Store) : Type 0 where
  pub distinct : Distinct same_id s.rows
  pub trails : All (λ row. IsTrail row (trail row s.events)) s.rows
  pub owned : All (λ event. any (λ row. is_event_of row event) s.rows ≡ true) s.events

pub same-flip :
    (a b c d : String)
    → (is (String_discrete c a) && is (String_discrete d b)) ≡ false
    → (is (String_discrete a c) && is (String_discrete b d)) ≡ false
same-flip a b c d h = ground arith

pub same_refl : (a b : String) → (is (String_discrete a a) && is (String_discrete b b)) ≡ true
same_refl a b = ground arith

pub ids-hit :
    (a b c d : String)
    → a ≡ c
    → b ≡ d
    → (is (String_discrete a c) && is (String_discrete b d)) ≡ true
ids-hit a b c d p q = ground arith

ids-miss :
    (a b c d x y : String)
    → a ≡ c
    → b ≡ d
    → (is (String_discrete c x) && is (String_discrete d y)) ≡ false
    → (is (String_discrete a x) && is (String_discrete b y)) ≡ false
ids-miss a b c d x y p q h = ground arith

append_event-eq :
    (events : List JobEvent) (r : Job) {events' : List JobEvent}
    → append_event events r ≡ ok events'
    → events' ≡ event_of r ∷ events
unfolding append_event
append_event-eq events r h = ground arith

CountsDown-trail :
    (row : Job) (events : List JobEvent) → IsTrail row events → CountsDown (suc row.revision) events
CountsDown-trail row [] t = t
CountsDown-trail row (event ∷ events) t = (t.0, t.3)

IsTrail-next :
    (e r : Job) (events : List JobEvent)
    → r.revision ≡ suc e.revision
    → IsTrail e events
    → IsTrail (with_mutable_fields e r) (event_of r ∷ events)
IsTrail-next e r events next t =
    (refl, refl, refl, subst (λ n. CountsDown n events) (sym next) (CountsDown-trail e events t))

select-hit :
    (p : JobEvent → Bool) (event : JobEvent) (events : List JobEvent)
    → p event ≡ true
    → select p (event ∷ events) ≡ event ∷ select p events
select-hit p event events h = rw h

select-miss :
    (p : JobEvent → Bool) (event : JobEvent) (events : List JobEvent)
    → p event ≡ false
    → select p (event ∷ events) ≡ select p events
select-miss p event events h = rw h

-- A committed write keeps the log.
pub Wrote-IsLogged :
    (s : Store) (e r : Job) (out : Result JobError Job × Store)
    → Evolves e r
    → Wrote s e r out
    → IsLogged s
    → IsLogged out.1
unfolding update_where
Wrote-IsLogged s e r out v (rows, events, u, appended, made) l =
    rw (made, log)
      record {
        distinct =
            Distinct-replace_where same_id same change (λ a. refl) (λ a. refl) s.rows u l.distinct;
        trails =
            All-replace_where_keys same_id same change (λ row. IsTrail row (trail row s.events))
              (λ row. IsTrail row (trail row (event_of r ∷ s.events)))
              (λ a b. same-flip a.tenant_id a.job_id b.tenant_id b.job_id) new keep s.rows u
              l.distinct l.trails;
        owned = (
          any-replace_where_new same change (λ row. is_event_of row (event_of r)) own s.rows u,
          old,
        );
      }
  where
    same : (a : Job) → Dec (a ≡ e)
    same a = Job-discrete a e

    change : Job → Job
    change row = with_mutable_fields row r

    tenant : r.tenant_id ≡ e.tenant_id
    tenant = ap (λ j. j.tenant_id) v.bindings_kept

    job : r.job_id ≡ e.job_id
    job = ap (λ j. j.job_id) v.bindings_kept

    own : is_event_of e (event_of r) ≡ true
    own = ids-hit r.tenant_id r.job_id e.tenant_id e.job_id tenant job

    new :
        IsTrail e (trail e s.events)
        → IsTrail (with_mutable_fields e r) (trail e (event_of r ∷ s.events))
    new t =
        rw (select-hit (is_event_of e) (event_of r) s.events own)
          (IsTrail-next e r (trail e s.events) v.revision_next t)

    keep :
        (a : Job)
        → same_id a e ≡ false
        → IsTrail a (trail a s.events)
        → IsTrail a (trail a (event_of r ∷ s.events))
    keep a other t =
        let miss =
          ids-miss r.tenant_id r.job_id e.tenant_id e.job_id a.tenant_id a.job_id tenant job
            other in
        rw (select-miss (is_event_of a) (event_of r) s.events miss) t

    old : All (λ event. any (λ row. is_event_of row event) rows ≡ true) s.events
    old =
        All-map (λ event. any (λ row. is_event_of row event) s.rows ≡ true)
          (λ event. any (λ row. is_event_of row event) rows ≡ true)
          (λ event. any-replace_where same change (λ row. is_event_of row event) refl s.rows u)
          s.events l.owned

    log : events ≡ event_of r ∷ s.events
    log = append_event-eq s.events r appended

ids-apart :
    (a b c d x y : String) (thread : Bool)
    → ((is (String_discrete x c) && is (String_discrete y d)) || thread) ≡ false
    → (is (String_discrete a x) && is (String_discrete b y)) ≡ true
    → (is (String_discrete a c) && is (String_discrete b d)) ≡ false
ids-apart a b c d x y thread free own = ground arith

||-false : (a b : Bool) → (a || b) ≡ false → (a ≡ false) × (b ≡ false)
||-false a b h = ground arith

absent :
    (v : Job) (event : JobEvent) (rows : List Job)
    → any (clashes v) rows ≡ false
    → any (λ row. is_event_of row event) rows ≡ true
    → is_event_of v event ≡ false
absent v event [] free owned = cc
absent v event (row ∷ rows) free owned =
    let (clear, rest) = ||-false (clashes v row) (any (clashes v) rows) free in
    elim (Bool-cases (is_event_of row event)) [
      | inl hit ↦
          ids-apart event.tenant_id event.job_id v.tenant_id v.job_id row.tenant_id row.job_id _
            clear hit
      | inr miss ↦ absent v event rows rest (rw miss at owned)
    ]

-- No event of a job that has no row.
trail-none :
    (v : Job) (rows : List Job) (events : List JobEvent)
    → any (clashes v) rows ≡ false
    → All (λ event. any (λ row. is_event_of row event) rows ≡ true) events
    → trail v events ≡ []
trail-none v rows [] free owned = refl
trail-none v rows (event ∷ events) free owned =
    rw (select-miss (is_event_of v) event events (absent v event rows free owned.0))
      (trail-none v rows events free owned.1)

clear_ids :
    (a b c d : String) (thread : Bool)
    → ((is (String_discrete a c) && is (String_discrete b d)) || thread) ≡ false
    → ((is (String_discrete a c) && is (String_discrete b d)) ≡ false)
      × ((is (String_discrete c a) && is (String_discrete d b)) ≡ false)
clear_ids a b c d thread h = ground arith

-- A free identity differs from that of every row, so the new event is of none of them.
clear_rows :
    (v : Job) (rows : List Job)
    → any (clashes v) rows ≡ false
    → All (λ row. (same_id v row ≡ false) × (is_event_of row (event_of v) ≡ false)) rows
clear_rows v [] free = tt
clear_rows v (row ∷ rows) free =
    let (clear, rest) = ||-false (clashes v row) (any (clashes v) rows) free in
    (clear_ids row.tenant_id row.job_id v.tenant_id v.job_id _ clear, clear_rows v rows rest)

All-zip :
    (P Q R : Job → Type 0)
    → ((row : Job) → P row → Q row → R row)
    → (rows : List Job) → All P rows
    → All Q rows
    → All R rows
All-zip P Q R f [] p q = tt
All-zip P Q R f (row ∷ rows) p q = (f row p.0 q.0, All-zip P Q R f rows p.1 q.1)

-- A committed insertion keeps the log.
pub Inserted-IsLogged :
    (s : Store) (v : Job) (out : Result JobError Job × Store)
    → Inserted s v out
    → IsLogged s
    → IsLogged out.1
Inserted-IsLogged s v out (events, free, appended, first, made) l =
    rw (made, append_event-eq s.events v appended)
      record {
        distinct = (
          All-map (λ row. (same_id v row ≡ false) × (is_event_of row (event_of v) ≡ false))
              (λ row. same_id v row ≡ false) (λ row h. h.0) s.rows clear,
          l.distinct,
        );
        trails = (rw (select-hit (is_event_of v) (event_of v) s.events own, fresh) start, kept);
        owned = (rw own, old);
      }
  where
    clear : All (λ row. (same_id v row ≡ false) × (is_event_of row (event_of v) ≡ false)) s.rows
    clear = clear_rows v s.rows free

    own : is_event_of v (event_of v) ≡ true
    own = same_refl v.tenant_id v.job_id

    fresh : trail v s.events ≡ []
    fresh = trail-none v s.rows s.events free l.owned

    start : IsTrail v (event_of v ∷ [])
    start = (refl, refl, refl, subst (λ n. CountsDown n []) (sym first) tt)

    kept : All (λ row. IsTrail row (trail row (event_of v ∷ s.events))) s.rows
    kept =
        All-zip (λ row. (same_id v row ≡ false) × (is_event_of row (event_of v) ≡ false))
          (λ row. IsTrail row (trail row s.events))
          (λ row. IsTrail row (trail row (event_of v ∷ s.events)))
          (λ row h t. rw (select-miss (is_event_of row) (event_of v) s.events h.1) t) s.rows clear
          l.trails

    old : All (λ event. any (λ row. is_event_of row event) (v ∷ s.rows) ≡ true) s.events
    old =
        All-map (λ event. any (λ row. is_event_of row event) s.rows ≡ true)
          (λ event. any (λ row. is_event_of row event) (v ∷ s.rows) ≡ true)
          (λ event h. ground arith) s.events l.owned
