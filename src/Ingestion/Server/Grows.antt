-- ===== src/Ingestion/Server/Grows.antt =====
-- server.go: a request takes nothing out of the tables, and a cached reply stands for a stored record.
use mathlib.Core.List.{append-nil, append_assoc}
use reconx.Base.{
  String, true, ◌≡◌, sym, ◌∙◌, ap, subst, ◌⊎◌, inl, inr, some, List, [], ◌∷◌, ◌++◌, ◌==◌,
  if◌then◌else◌, eq_iff, Bool-cases, Option-cases, ℕ,
}
use reconx.Base.Table.{find}
use reconx.Ingestion.Stores.{
  idempotency_key, record_key, IdempotencyRow, Record, Entry, Tables, Env, Call, insert_new,
  insert_record, set_response, enqueue, CachedResponse, violates,
}
use reconx.Ingestion.Stores.Fresh.{find-append_old, find-append_new}

module _ {A : Type 0} (key : A → String) where
  insert_new-stays :
      (k : String) (row : A) (rows : List A) (a : A)
      → find key k rows ≡ some a
      → find key k (insert_new key row rows) ≡ some a
  insert_new-stays k row rows a e = elim (Option-cases (find key (key row) rows)) [
    | inl f ↦ rw f (find-append_old key k row rows a e)
    | inr (old, f) ↦ rw f e
  ]

  insert_new-origin :
      (k : String) (row : A) (rows : List A) (a : A)
      → find key k (insert_new key row rows) ≡ some a
      → (find key k rows ≡ some a) ⊎ (key row ≡ k)
  insert_new-origin k row rows a e = elim (Option-cases (find key (key row) rows)) [
    | inr (old, f) ↦ inl (rw f at e)
    | inl f ↦ elim (Option-cases (find key k rows)) [
      | inr (b, g) ↦
          let h : find key k (rows ++ row ∷ []) ≡ some a = rw f at e in
          inl (g ∙ sym (find-append_old key k row rows b g) ∙ h)
      | inl g ↦ elim (Bool-cases (key row == k)) [
        | inl same ↦ inr ((eq_iff (key row) k).0 same)
        | inr other ↦
            let h : find key k (rows ++ row ∷ []) ≡ some a = rw f at e in
            absurd
              (let n = rw (find-append_new key k row rows g) at h in let m = rw other at n in cc)
      ]
    ]
  ]

-- Every record and every cached reply of a key stays, and the dead letter queue only grows.
pub record Grows (before after : Tables) : Type 0 where
  pub records_stay :
      (k : String) (a : Record)
      → find record_key k before.records ≡ some a
      → find record_key k after.records ≡ some a
  pub replies_stay :
      (k : String) (a : IdempotencyRow)
      → find idempotency_key k before.idempotency ≡ some a
      → find idempotency_key k after.idempotency ≡ some a
  pub added : List Entry
  pub letters : after.dlq ≡ before.dlq ++ added

pub Grows-refl : (t : Tables) → Grows t t
Grows-refl t = record {
  records_stay = λ k a e. e;
  replies_stay = λ k a e. e;
  added = [];
  letters = sym (append-nil t.dlq);
}

pub Grows-trans : {r s t : Tables} → Grows r s → Grows s t → Grows r t
Grows-trans {r} g h = record {
  records_stay = λ k a e. h.records_stay k a (g.records_stay k a e);
  replies_stay = λ k a e. h.replies_stay k a (g.replies_stay k a e);
  added = g.added ++ h.added;
  letters = h.letters ∙ ap (λ t. t ++ h.added) g.letters ∙ append_assoc r.dlq g.added h.added;
}

pub insert_record-Grows :
    (env : Env) (r : Record) (tables : Tables) → Grows tables (insert_record env r tables).1
unfolding insert_record
insert_record-Grows env r tables = record {
  records_stay = λ k a e.
      elim (Bool-cases (if env.fails Call.insert then true else violates r tables)) [
        | inl q ↦ rw q e
        | inr q ↦ rw q (insert_new-stays record_key k r tables.records a e)
      ];
  replies_stay = λ k a e. e;
  added = [];
  letters = sym (append-nil tables.dlq);
}

pub set_response-Grows :
    (env : Env) (ttl : ℕ) (key source : String) (response : CachedResponse) (tables : Tables)
    → Grows tables (set_response env ttl key source response tables).1
unfolding set_response
set_response-Grows env ttl key source response tables = record {
  records_stay = λ k a e. e;
  replies_stay = λ k a e. elim (Bool-cases (env.fails Call.set_key)) [
    | inl q ↦ rw q e
    | inr q ↦ rw q (insert_new-stays idempotency_key k _ tables.idempotency a e)
  ];
  added = [];
  letters = sym (append-nil tables.dlq);
}

pub enqueue-Grows :
    (env : Env) (e : Entry) (tables : Tables) → Grows tables (enqueue env e tables).1
unfolding enqueue
enqueue-Grows env e tables = record {
  records_stay = λ k a h. h;
  replies_stay = λ k a h. h;
  added = if env.fails Call.add_entry then [] else e ∷ [];
  letters = elim (Bool-cases (env.fails Call.add_entry)) [
    | inl q ↦ rw q (sym (append-nil tables.dlq))
    | inr q ↦ rw q
  ];
}

-- A key with a cached reply has a record.
abbrev pub IsBacked : Tables → Type 0
IsBacked tables =
    (k : String) (a : IdempotencyRow)
    → find idempotency_key k tables.idempotency ≡ some a
    → (r : Record) × (find record_key k tables.records ≡ some r)

pub set_response-IsBacked :
    (env : Env) (ttl : ℕ) (key source : String) (response : CachedResponse) (tables : Tables)
    (r : Record)
    → find record_key key tables.records ≡ some r
    → IsBacked tables
    → IsBacked (set_response env ttl key source response tables).1
unfolding set_response
set_response-IsBacked env ttl key source response tables r found h k a e =
    elim (Bool-cases (env.fails Call.set_key)) [
      | inl q ↦ h k a (rw q at e)
      | inr q ↦ elim (insert_new-origin idempotency_key k _ tables.idempotency a (rw q at e)) [
        | inl old ↦ h k a old
        | inr same ↦ (r, subst (λ j. find record_key j tables.records ≡ some r) same found)
      ]
    ]
