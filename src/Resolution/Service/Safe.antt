-- ===== src/Resolution/Service/Safe.antt =====
-- db.go: what no statement of the service undoes, with a rule for each way to build a handler.
use mathlib.Core.List.{append-nil, append_assoc}
use reconx.Base.{
  String, Bool, true, false, ◌≡◌, refl, sym, ap, ◌∙◌, subst, some, List, [], ◌∷◌, ◌++◌, All,
  Bool-cases, inl, inr, if◌then◌else◌,
}
use reconx.Base.Exec.{
  Result, ok, err, pure, raise, continue, ◌>>=◌, ◌>>◌, ◌or_raise◌, ignored, reject_if,
}
use reconx.Base.Table.{IsKeyed, find}
use reconx.Resolution.Queries.Retries.{retry_key}
use reconx.Resolution.Tables.{
  written, ResolutionRecord, RetryQueueRow, AuditLogRow, Value, Database, Call, Env, Db,
}
use reconx.Resolution.Queries.States.{resolution_key}
use reconx.Resolution.Queries.Audit.{insert_audit_log, entry_of}

-- A transaction has a decision on record.
abbrev pub IsDecided : List ResolutionRecord → String → Type 0
IsDecided rows k = (row : ResolutionRecord) × (find resolution_key k rows ≡ some row)

-- Each RESOLVED transaction has a decision on record.
abbrev pub IsBacked : Database → Type 0
IsBacked db =
    All (λ s. s.status ≡ "RESOLVED" → IsDecided db.resolution_records s.transaction_ref)
      db.recon_state

-- No transaction has two entries in the queue, or two decisions.
pub record IsDistinct (db : Database) : Type 0 where
  pub queue : IsKeyed retry_key db.retry_queue
  pub decisions : IsKeyed resolution_key db.resolution_records

-- The audit log is only appended to, no decision vanishes, what is RESOLVED stays backed, and the
-- keys of the queue and of the decisions stay distinct.
pub record Grows (s t : Database) : Type 0 where
  pub log : (later : List AuditLogRow) × (t.audit_log ≡ s.audit_log ++ later)
  pub decided : (k : String) → IsDecided s.resolution_records k → IsDecided t.resolution_records k
  pub backed : IsBacked s → IsBacked t
  pub distinct : IsDistinct s → IsDistinct t

pub Grows-refl : (s : Database) → Grows s s
Grows-refl s = record {
  log = ([], sym (append-nil _));
  decided = λ k d. d;
  backed = λ b. b;
  distinct = λ d. d;
}

pub Grows-trans : {s t u : Database} → Grows s t → Grows t u → Grows s u
Grows-trans {s} f g = record {
  log =
      let (first, e) = f.log in
      let (second, h) = g.log in
      (first ++ second, h ∙ ap (λ l. l ++ second) e ∙ append_assoc s.audit_log first second);
  decided = λ k d. g.decided k (f.decided k d);
  backed = λ b. g.backed (f.backed b);
  distinct = λ d. g.distinct (f.distinct d);
}

-- What an action leaves has grown, whether it returns or raises.
pub record IsSafe {E A : Type 0} (m : Db E A) : Type 0 where
  pub at : (s : Database) → Grows s (m s).1

pub reads-IsSafe : {E A : Type 0} (m : Db E A) → ((s : Database) → (m s).1 ≡ s) → IsSafe m
reads-IsSafe m same = record { at = λ s. subst (Grows s) (sym (same s)) (Grows-refl s) }

pub pure-IsSafe : {E A : Type 0} (a : A) → IsSafe {E = E} (pure a)
pure-IsSafe a = record { at = Grows-refl }

pub raise-IsSafe : {E A : Type 0} (e : E) → IsSafe {E = E} {A = A} (raise e)
raise-IsSafe e = record { at = Grows-refl }

pub reject_if-IsSafe : {E : Type 0} (b : Bool) (e : E) → IsSafe {E = E} (reject_if b e)
reject_if-IsSafe b e = record { at = Grows-refl }

continue-IsSafe :
    {E A B : Type 0} (r : Result E A) (f : A → Db E B)
    → ((a : A) → IsSafe (f a))
    → IsSafe (continue r f)
continue-IsSafe (ok a) f h = record { at = (h a).at }
continue-IsSafe (err e) f h = record { at = Grows-refl }

pub bind-IsSafe :
    {E A B : Type 0} (m : Db E A) (f : A → Db E B)
    → IsSafe m
    → ((a : A) → IsSafe (f a))
    → IsSafe (m >>= f)
bind-IsSafe m f h k = record {
  at = λ s. Grows-trans (h.at s) ((continue-IsSafe (m s).0 f k).at (m s).1);
}

pub then-IsSafe : {E A B : Type 0} (m : Db E A) (n : Db E B) → IsSafe m → IsSafe n → IsSafe (m >> n)
then-IsSafe m n h k = bind-IsSafe m (λ _. n) h (λ _. k)

pub or_raise-IsSafe : {E F A : Type 0} (m : Db E A) (f : E → F) → IsSafe m → IsSafe (m or_raise f)
or_raise-IsSafe m f h = record { at = h.at }

pub ignored-IsSafe : {E F A : Type 0} (m : Db E A) → IsSafe m → IsSafe {E = F} (ignored m)
ignored-IsSafe m h = record { at = h.at }

-- A guard, and a statement whose error is returned or dropped, before the rest of a handler.
pub guard-IsSafe :
    {E A : Type 0} (b : Bool) (e : E) (m : Db E A) → IsSafe m → IsSafe (reject_if b e >> m)
guard-IsSafe b e m h = then-IsSafe (reject_if b e) m (reject_if-IsSafe b e) h

pub result-IsSafe :
    {E F A B : Type 0} (m : Db E A) (f : E → F) (g : A → Db F B)
    → IsSafe m
    → ((a : A) → IsSafe (g a))
    → IsSafe ((m or_raise f) >>= g)
result-IsSafe m f g h k = bind-IsSafe (m or_raise f) g (or_raise-IsSafe m f h) k

pub dropped-IsSafe :
    {E F A B : Type 0} (m : Db E A) (n : Db F B) → IsSafe m → IsSafe n → IsSafe (ignored m >> n)
dropped-IsSafe m n h k = then-IsSafe (ignored m) n (ignored-IsSafe m h) k

pub if-IsSafe :
    {E A : Type 0} (b : Bool) (m n : Db E A) → IsSafe m → IsSafe n → IsSafe (if b then m else n)
if-IsSafe true m n h k = h
if-IsSafe false m n h k = k

-- A write to the retry queue touches none of this but the keys of the queue.
pub queue-IsSafe :
    {E : Type 0} (r : Database → Result E Unit) (env : Env) (call : Call)
    (f : List RetryQueueRow → List RetryQueueRow)
    → ((q : List RetryQueueRow) → IsKeyed retry_key q → IsKeyed retry_key (f q))
    → IsSafe
        (λ s. (r s, record s { retry_queue = written env call s.retry_queue (f s.retry_queue) }))
queue-IsSafe r env call f keeps = record {
  at = λ s. elim (Bool-cases (env.fails call)) [
    | inl e ↦ rw e (Grows-refl s)
    | inr e ↦ rw e (record {
      log = ([], sym (append-nil _));
      decided = λ k d. d;
      backed = λ b. b;
      distinct = λ d. record { queue = keeps s.retry_queue d.queue; decisions = d.decisions };
    })
  ];
}

pub insert_audit_log-IsSafe :
    (env : Env) (tx_ref event_type old_status new_status : String) (detail : List (String × Value))
    → IsSafe (insert_audit_log env tx_ref event_type old_status new_status detail)
unfolding insert_audit_log
insert_audit_log-IsSafe env tx_ref event_type old_status new_status detail = record {
  at = λ s. elim (Bool-cases (env.fails (Call.audit event_type))) [
    | inl e ↦ rw e (Grows-refl s)
    | inr e ↦ rw e (record {
      log = (entry_of env tx_ref event_type old_status new_status detail ∷ [], refl);
      decided = λ k d. d;
      backed = λ b. b;
      distinct = λ d. record { queue = d.queue; decisions = d.decisions };
    })
  ];
}
