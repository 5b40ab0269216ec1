-- ===== src/Spool/Store.antt =====
-- What the spool keeps on disk: spool.go's entries and counters, and the interfaces of the
-- libraries it stands on. The database (go.etcd.io/bbolt) and the JSON codec are parameters.
use go_pulse.Base.{
  ℕ, ◌+◌, ◌≡◌, String, Bool, Option, none, some, List, [], ◌∷◌, length, Result, ok, ◌==◌, ltb,
  if◌then◌else◌, has,
}

pub data Kind : Type 0 where
  metrics logs events : Kind

pub record Entry : Type 0 where
  pub sequence : ℕ
  pub message_id : String
  pub type : String
  pub body : List ℕ
  pub enqueued_at : ℕ
  pub new : Bool

-- A failure that the database reports: bbolt's errors, a full disk, or any other.
pub data Fault : Type 0 where
  not_open invalid max_size_reached no_space other : Fault

pub data Error : Type 0 where
  closed invalid_message too_large corrupt queue_busy encode_failed size_too_small : Error
  disk : Fault → Error
  -- The model's own: a loop's bound was passed.
  out_of_fuel : Error

-- The keys of the metadata bucket, and the values read from them by `readU64`, so that a missing
-- key reads as 0.
pub data MetaKey : Type 0 where
  key_next_seq key_used_bytes key_enqueued key_sent key_failed key_evicted : MetaKey

pub record Meta : Type 0 where
  pub next_seq : ℕ
  pub used_bytes : ℕ
  pub enqueued : ℕ
  pub sent : ℕ
  pub failed : ℕ
  pub evicted : ℕ

abbrev pub meta_get : MetaKey → Meta → ℕ
meta_get key_next_seq m = m.next_seq
meta_get key_used_bytes m = m.used_bytes
meta_get key_enqueued m = m.enqueued
meta_get key_sent m = m.sent
meta_get key_failed m = m.failed
meta_get key_evicted m = m.evicted

abbrev pub meta_put : MetaKey → ℕ → Meta → Meta
meta_put key_next_seq v m = record m { next_seq = v }
meta_put key_used_bytes v m = record m { used_bytes = v }
meta_put key_enqueued v m = record m { enqueued = v }
meta_put key_sent v m = record m { sent = v }
meta_put key_failed v m = record m { failed = v }
meta_put key_evicted v m = record m { evicted = v }

-- The messages bucket as a cursor walks it, from `First` by `Next`: sequence and encoded entry.
abbrev pub Messages : Type 0
Messages = List (ℕ × List ℕ)

-- `Bucket.Get`, `Put` and `Delete` as they change what the cursor walks; keys are in order.
unfoldable pub lookup : ℕ → Messages → Option (List ℕ)
lookup k [] = none
lookup k ((j, v) ∷ xs) = if j == k then some v else lookup k xs

unfoldable pub upsert : ℕ → List ℕ → Messages → Messages
upsert k v [] = (k, v) ∷ []
upsert k v ((j, w) ∷ xs) =
    if ltb k j then (k, v) ∷ (j, w) ∷ xs else if j == k then (k, v) ∷ xs else (j, w) ∷ upsert k v xs

unfoldable pub remove : ℕ → Messages → Messages
remove k [] = []
remove k ((j, v) ∷ xs) = if j == k then xs else (j, v) ∷ remove k xs

-- A read-write transaction of bbolt over the two buckets. Each write may fail, and so may the
-- commit; the laws say what a write that succeeds has changed.
pub record Bolt : Type 1 where
  pub Db : Type 0
  pub messages : Db → Messages
  pub meta : Db → Meta
  pub put : Db → ℕ → List ℕ → Result Fault Db
  pub delete : Db → ℕ → Result Fault Db
  pub put_meta : Db → MetaKey → ℕ → Result Fault Db
  pub commit : Db → Option Fault
  pub put_messages :
      (d : Db) (k : ℕ) (v : List ℕ) (e : Db)
      → put d k v ≡ ok e
      → messages e ≡ upsert k v (messages d)
  pub put_keeps_meta : (d : Db) (k : ℕ) (v : List ℕ) (e : Db) → put d k v ≡ ok e → meta e ≡ meta d
  pub delete_messages :
      (d : Db) (k : ℕ) (e : Db) → delete d k ≡ ok e → messages e ≡ remove k (messages d)
  pub delete_keeps_meta : (d : Db) (k : ℕ) (e : Db) → delete d k ≡ ok e → meta e ≡ meta d
  pub put_meta_meta :
      (d : Db) (k : MetaKey) (v : ℕ) (e : Db)
      → put_meta d k v ≡ ok e
      → meta e ≡ meta_put k v (meta d)
  pub put_meta_keeps_messages :
      (d : Db) (k : MetaKey) (v : ℕ) (e : Db) → put_meta d k v ≡ ok e → messages e ≡ messages d

-- `json.Marshal` and `json.Unmarshal` at `Entry`.
pub record Codec : Type 0 where
  pub marshal : Entry → Option (List ℕ)
  pub unmarshal : List ℕ → Option Entry
  pub unmarshal-marshal : (e : Entry) (v : List ℕ) → marshal e ≡ some v → unmarshal v ≡ some e

-- The bytes that a record counts for: its encoding and 16 more.
unfoldable pub entry_size : List ℕ → ℕ
entry_size v = length v + 16

-- `first non-in-flight key` of the cursor walks in `enqueue` and `find`.
unfoldable pub first_free : List ℕ → Messages → Option (ℕ × List ℕ)
first_free in_flight [] = none
first_free in_flight ((k, v) ∷ xs) =
    if has in_flight k then first_free in_flight xs else some (k, v)
