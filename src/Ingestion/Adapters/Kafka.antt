-- ===== src/Ingestion/Adapters/Kafka.antt =====
-- services/ingestion/internal/adapters/kafka.go. The keys and values of a message's headers, and its
-- key, are texts; `decimal` is fmt's %d. The closing of the reader is left out.
use Prim.Native.String.{◌++◌ as ◌<>◌}
use reconx.Base.{
  ℕ, String, Bool, true, false, ◌||◌, ◌≡◌, refl, ◌⊎◌, inl, inr, Option, none, some, List, [], ◌∷◌,
  ◌++◌, ◌==◌, if◌then◌else◌, All, Memᴰ, Mem-left, Mem-last,
}
use reconx.Ingestion.Pipeline.{NormalizedRecord, Tags}
use reconx.Ingestion.Adapters.{Codec, Partial, skeleton, or_uuid}

pub record Message : Type 0 where
  pub topic : String
  pub partition : ℕ
  pub offset : ℕ
  pub key : String
  pub value : List ℕ
  pub headers : List (String × String)

-- The first header that holds a trace id; "" where none does.
unfoldable pub trace_header : List (String × String) → String
trace_header [] = ""
trace_header ((k, v) ∷ headers) =
    let rest = trace_header headers in if k == "X-Trace-Id" || k == "trace_id" then v else rest

-- One round of the loop: a fetch that fails, with the context done or not, or a message, with the uuid
-- at hand, whether the send finds room before the context is done, and whether the commit succeeds.
pub data Fetch : Type 0 where
  fetch_failed : Fetch
  fetch_stopped : Fetch
  fetched : Message → (uuid : String) → (sent committed : Bool) → Fetch

-- What was sent to the channel, and the messages committed.
pub record Consumer (D : Type 0) : Type 0 where
  pub queue : List (NormalizedRecord D)
  pub committed : List Message

abbrev pub commit : {D : Type 0} → Bool → Message → Consumer D → Consumer D
commit true msg c = record c { committed = c.committed ++ msg ∷ [] }
commit false msg c = c

abbrev pub push : {D : Type 0} → NormalizedRecord D → Consumer D → Consumer D
push rec c = record c { queue = c.queue ++ rec ∷ [] }

module _ {D : Type 0} (codec : Codec) (zero_decimal : D) (decimal : ℕ → String)
    (source_system : String) where
  abbrev pub kafka_key : Message → Partial → String
  kafka_key msg p =
      or_uuid (or_uuid p.idempotency_key msg.key)
        ("kafka-" <> (msg.topic <> ("-" <> (decimal msg.partition <> ("-" <> decimal msg.offset)))))

  abbrev pub kafka_source : Partial → String
  kafka_source p = or_uuid (or_uuid source_system p.source_system) "kafka-unknown"

  abbrev pub kafka_tags : Message → Tags
  kafka_tags msg =
      ("kafka_topic", msg.topic)
      ∷ ("kafka_partition", decimal msg.partition)
      ∷ ("kafka_offset", decimal msg.offset)
      ∷ []

  abbrev kafka_record : String → Message → NormalizedRecord D
  kafka_record uuid msg =
      let p = codec.partial_of msg.value in
      skeleton zero_decimal (kafka_key msg p) p.transaction_ref (kafka_source p) "kafka"
        (or_uuid (trace_header msg.headers) uuid) msg.value "" (kafka_tags msg)

  abbrev record_of_value : String → Message → List ℕ → Option (NormalizedRecord D)
  record_of_value uuid msg [] = none
  record_of_value uuid msg (b ∷ bs) = some (kafka_record uuid msg)

  unfoldable pub to_record : String → Message → Option (NormalizedRecord D)
  unfolding trace_header
  to_record uuid msg = record_of_value uuid msg msg.value

  -- What is done with a fetched message, given its record, and with what follows.
  abbrev on_record :
      Option (NormalizedRecord D)
      → Message
      → (sent committed : Bool) → (Consumer D → Consumer D)
      → Consumer D
      → Consumer D
  on_record none msg sent committed rest c = rest (commit committed msg c)
  on_record (some rec) msg true committed rest c = rest (commit committed msg (push rec c))
  on_record (some rec) msg false committed rest c = c

  -- `Start`: it ends where the context is done, in a fetch or in a send.
  unfoldable pub start : List Fetch → Consumer D → Consumer D
  unfolding to_record
  start [] c = c
  start (fetch_failed ∷ rest) c = start rest c
  start (fetch_stopped ∷ rest) c = c
  start (fetched msg uuid sent committed ∷ rest) c =
      on_record (to_record uuid msg) msg sent committed (λ c'. start rest c') c

  -- A message without a value, or one whose record is on the queue.
  abbrev pub IsHandled : List (NormalizedRecord D) → Message → Type 0
  IsHandled queue msg =
      (msg.value ≡ [])
      ⊎ ((uuid : String) × (rec : NormalizedRecord D) × (to_record uuid msg ≡ some rec)
          × Memᴰ rec queue)

  to_record-none : (uuid : String) (msg : Message) → to_record uuid msg ≡ none → msg.value ≡ []
  unfolding to_record
  to_record-none uuid msg e = on_value msg.value e
    where
      on_value : (value : List ℕ) → record_of_value uuid msg value ≡ none → value ≡ []
      on_value [] e = refl
      on_value (b ∷ bs) e = cc

  push-IsHandled :
      (rec : NormalizedRecord D) (queue : List (NormalizedRecord D)) (msgs : List Message)
      → All (IsHandled queue) msgs
      → All (IsHandled (queue ++ rec ∷ [])) msgs
  push-IsHandled rec queue [] h = tt
  push-IsHandled rec queue (m ∷ msgs) h = (
    elim h.0 [ inl e ↦ inl e | inr (u, r, e, on) ↦ inr (u, r, e, Mem-left (rec ∷ []) on) ],
    push-IsHandled rec queue msgs h.1,
  )

  All-last_added :
      (P : Message → Type 0) (msg : Message) (msgs : List Message)
      → All P msgs
      → P msg
      → All P (msgs ++ msg ∷ [])
  All-last_added P msg [] h p = (p, tt)
  All-last_added P msg (m ∷ msgs) h p = (h.0, All-last_added P msg msgs h.1 p)

  commit-IsHandled :
      (committed : Bool) (msg : Message) (c : Consumer D)
      → All (IsHandled c.queue) c.committed
      → IsHandled c.queue msg
      → All (IsHandled (commit committed msg c).queue) (commit committed msg c).committed
  commit-IsHandled true msg c h p = All-last_added (IsHandled c.queue) msg c.committed h p
  commit-IsHandled false msg c h p = h

  abbrev IsSafe : Consumer D → Type 0
  IsSafe c = All (IsHandled c.queue) c.committed

  on_record-IsSafe :
      (msg : Message) (uuid : String) (found : Option (NormalizedRecord D)) (sent committed : Bool)
      (rest : Consumer D → Consumer D) (c : Consumer D)
      → to_record uuid msg ≡ found
      → ((c' : Consumer D) → IsSafe c' → IsSafe (rest c'))
      → IsSafe c
      → IsSafe (on_record found msg sent committed rest c)
  on_record-IsSafe msg uuid none sent committed rest c e keeps h =
      keeps (commit committed msg c)
        (commit-IsHandled committed msg c h (inl (to_record-none uuid msg e)))
  on_record-IsSafe msg uuid (some rec) true committed rest c e keeps h =
      keeps (commit committed msg (push rec c)) (
        commit-IsHandled committed msg (push rec c) (push-IsHandled rec c.queue c.committed h)
          (inr (uuid, rec, e, Mem-last rec c.queue)))
  on_record-IsSafe msg uuid (some rec) false committed rest c e keeps h = h

  -- Whatever the fetches, sends and commits of a run meet, each message that is committed has no value
  -- or has its record on the queue: no message is committed before it is queued.
  pub start-IsHandled :
      (fetches : List Fetch) (c : Consumer D)
      → All (IsHandled c.queue) c.committed
      → All (IsHandled (start fetches c).queue) (start fetches c).committed
  unfolding start
  start-IsHandled [] c h = h
  start-IsHandled (fetch_failed ∷ rest) c h = start-IsHandled rest c h
  start-IsHandled (fetch_stopped ∷ rest) c h = h
  start-IsHandled (fetched msg uuid sent committed ∷ rest) c h =
      on_record-IsSafe msg uuid (to_record uuid msg) sent committed (λ c'. start rest c') c refl
        (start-IsHandled rest) h
