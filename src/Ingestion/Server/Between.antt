-- ===== src/Ingestion/Server/Between.antt =====
-- server.go and the clean-up of cmd/main.go: what may come between two requests with one key.
use mathlib.Core.Option.{some-injective}
use reconx.Base.{
  sym, subst, Option, ℕ, ◌<◌, String, Bool, true, ◌≡◌, some, List, [], ◌∷◌, All, ◌==◌, select,
  lt→ltb, Bool-cases, inl, inr,
}
use reconx.Base.Table.{find}
use reconx.Ingestion.Pipeline.{Libs}
use reconx.Ingestion.Stores.{idempotency_key, IdempotencyRow, Tables, Env, Call, is_live, purge}
use reconx.Ingestion.Server.{IngestRequest, submit_record}
use reconx.Ingestion.Server.Drained.{submit_record-IsStep}

-- A request, of a gRPC client or from the adapter queue, or the clean-up of the cached replies.
pub data Event : Type 0 where
  submitted : Env → IngestRequest → Event
  purged : Env → Event

-- The clean-up comes before a time.
abbrev pub IsEarly : ℕ → Event → Type 0
IsEarly deadline (submitted env req) = Unit
IsEarly deadline (purged env) = env.now < deadline

find-select_kept :
    {A : Type 0} (key : A → String) (p : A → Bool) (k : String) (rows : List A) (a : A)
    → p a ≡ true
    → find key k rows ≡ some a
    → find key k (select p rows) ≡ some a
unfolding find
find-select_kept {A} key p k [] a h e = cc
find-select_kept {A} key p k (x ∷ xs) a h e = elim (Bool-cases (key x == k)) [
  | inl same ↦
      let first : Path (Option A) (some x) (some a) = rw same at e in
      let chosen : p x ≡ true = subst (λ y. p y ≡ true) (some-injective a x (sym first)) h in
      rw chosen (rw same first)
  | inr other ↦ elim (Bool-cases (p x)) [
    | inl q ↦ rw q (rw other (find-select_kept key p k xs a h (rw other at e)))
    | inr q ↦ rw q (find-select_kept key p k xs a h (rw other at e))
  ]
]

module _ {D : Type 0} (libs : Libs D) (ttl : ℕ) where
  -- Events one after the other.
  unfoldable pub happen : List Event → Tables → Tables
  unfolding submit_record purge
  happen [] tables = tables
  happen (submitted env req ∷ events) tables =
      happen events (submit_record libs ttl env req tables).1
  happen (purged env ∷ events) tables = happen events (purge env tables).1

  purge-stays :
      (env : Env) (k : String) (row : IdempotencyRow) (tables : Tables)
      → env.now < row.expires_at
      → find idempotency_key k tables.idempotency ≡ some row
      → find idempotency_key k (purge env tables).1.idempotency ≡ some row
  unfolding purge
  purge-stays env k row tables early e = elim (Bool-cases (env.fails Call.purge_keys)) [
    | inl q ↦ rw q e
    | inr q ↦ rw q (
        find-select_kept idempotency_key (is_live env.now) k tables.idempotency row
          (lt→ltb env.now row.expires_at early) e)
  ]

  -- A cached reply stays until it expires.
  pub happen-stays :
      (events : List Event) (k : String) (row : IdempotencyRow) (tables : Tables)
      → All (IsEarly row.expires_at) events
      → find idempotency_key k tables.idempotency ≡ some row
      → find idempotency_key k (happen events tables).idempotency ≡ some row
  unfolding happen
  happen-stays [] k row tables early e = e
  happen-stays (submitted env req ∷ events) k row tables early e =
      happen-stays events k row _ early.1
        ((submit_record-IsStep libs ttl env req tables).0.replies_stay k row e)
  happen-stays (purged env ∷ events) k row tables early e =
      happen-stays events k row _ early.1 (purge-stays env k row tables early.0 e)
