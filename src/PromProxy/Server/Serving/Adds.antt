-- ===== src/PromProxy/Server/Serving/Adds.antt =====
-- What one step of a task adds to a counter.
use proto.Base.{
  ℕ, ◌+◌, ◌==◌, ◌≡◌, refl, sym, ap, ◌∙◌, Bool, true, false, List, [], ◌∷◌, ◌++◌, String, str_eq,
  eq_iff, none, some, Outcome, ok, err, panicked, inl, inr, Bool-cases, arith,
}
use proto.Base.Integers.{ℤ, pos, ◌+ℤ◌, as_i64_small, +ℤ-pos-zero}
use proto.TinyFrame.Types.{IoError, Frame}
use proto.TinyFrame.Codec.{Codec}
use proto.TinyFrame.Key.{KeyCell}
use proto.TinyFrame.Stream.{Source}
use proto.PromProxy.Protocol.{Serde}
use proto.PromProxy.Edge.{Redis, incr}
use proto.PromProxy.Edge.Totals.{counted, RedisLaws, incr_value}
use proto.PromProxy.Server.State.{ServerError, Inner, World}
use proto.PromProxy.Server.{forward_frame, post_remote_write, incr_edge, write_error}
use proto.PromProxy.Server.Serving.{
  Shared, with_out, Connection, Task, accepted, received, forwarded, recorded, ended, after_read,
  record_result, send_result, advance_task,
}

-- Whether a result is counted under this key.
abbrev pub counts : Outcome ServerError ℕ → (key : String) → Bool
counts (ok status) key = str_eq "remote_write_ok" key
counts (err problem) key = str_eq "remote_write_err" key
counts (panicked p) key = false

abbrev pub one_if : Bool → ℕ
one_if true = 1
one_if false = 0

-- How often a task has been counted under this key.
abbrev pub counted_of : (key : String) → Task → ℕ
counted_of key (accepted conn) = 0
counted_of key (received conn frame) = 0
counted_of key (forwarded conn frame r) = 0
counted_of key (recorded conn frame r) = one_if (counts r key)
counted_of key (ended conn none result out) = 0
counted_of key (ended conn (some r) result out) = one_if (counts r key)

abbrev pub counted_all : (key : String) → List Task → ℕ
counted_all key [] = 0
counted_all key (task ∷ tasks) = counted_of key task + counted_all key tasks

pub counted_all-append :
    (key : String) (xs ys : List Task)
    → counted_all key (xs ++ ys) ≡ counted_all key xs + counted_all key ys
counted_all-append key [] ys = omega arith
counted_all-append key (x ∷ xs) ys = omega (arith, counted_all-append key xs ys)

module _ (c : Codec) (cell : KeyCell) (nonce : List ℕ) (serde : Serde) (io_text : IoError → String)
    {Db : Type 0} where
  -- The replies do not touch the counters.
  db-write_error :
      (tx_id : ℕ) (message : String) (w : World Db)
      → (write_error c cell nonce serde tx_id message w).1.db ≡ w.db
  unfolding write_error
  db-write_error tx_id message w = ground arith

  db-send_result :
      (frame : Frame) (r : Outcome ServerError ℕ) (w : World Db)
      → (send_result c cell nonce serde io_text frame r w).1.db ≡ w.db
  unfolding send_result
  db-send_result frame (ok status) w = ground arith
  db-send_result frame (err e) w = db-write_error frame.tx_id _ w
  db-send_result frame (panicked p) w = refl

module _ {RedisClient Conn Db : Type 0} (server : Redis RedisClient Conn Db) (state : Inner Conn)
    (redis : RedisLaws server state.edges.hash_key) where
  -- The number that a counter stands for.
  abbrev pub number : Shared Db → (key : String) → ℤ
  number g key = counted (redis.value g.db key)

  -- The increment of this result's counter succeeds.
  abbrev pub Increments : Outcome ServerError ℕ → Db → Type 0
  Increments (ok status) db = (incr server state.edges "remote_write_ok" 1 db).0 ≡ ok tt
  Increments (err problem) db = (incr server state.edges "remote_write_err" 1 db).0 ≡ ok tt
  Increments (panicked p) db = Unit

  -- If the next step of the task is an increment, it succeeds.
  abbrev pub Works : Task → Shared Db → Type 0
  Works (accepted conn) g = Unit
  Works (received conn frame) g = Unit
  Works (forwarded conn frame r) g = Increments r g.db
  Works (recorded conn frame r) g = Unit
  Works (ended conn tried r out) g = Unit

  incr_one :
      (key f : String) (db : Db)
      → (incr server state.edges key 1 db).0 ≡ ok tt
      → counted (redis.value (incr server state.edges key 1 db).1 f)
        ≡ counted (redis.value db f) +ℤ pos (one_if (str_eq key f))
  incr_one key f db done =
      let value =
        incr_value server state.edges redis key 1 db (incr server state.edges key 1 db).1 f
          (omega arith) (λ i. (done i, (incr server state.edges key 1 db).1)) in
      elim (Bool-cases (str_eq key f)) [
        | inl same ↦
            let at = ap (redis.value db) ((eq_iff key f).0 same) in
            ap counted value ∙ rw same (rw at (rw (as_i64_small 1 (omega arith))))
        | inr differs ↦ ap counted value ∙ rw differs (sym (+ℤ-pos-zero _))
      ]

  record_result_number :
      (r : Outcome ServerError ℕ) (f : String) (w : World Db)
      → Increments r w.db
      → counted (redis.value (record_result server state r w).db f)
        ≡ counted (redis.value w.db f) +ℤ pos (one_if (counts r f))
  unfolding record_result incr_edge
  record_result_number (ok status) f w done = incr_one "remote_write_ok" f w.db done
  record_result_number (err e) f w done = incr_one "remote_write_err" f w.db done
  record_result_number (panicked p) f w done = sym (+ℤ-pos-zero _)

  -- A step adds to the counter what it adds to the count of the task.
  abbrev pub Adds : (key : String) (task task' : Task) (g g' : Shared Db) → Type 0
  Adds key task task' g g' =
      (n : ℕ) × (number g' key ≡ number g key +ℤ pos n)
      × (counted_of key task' ≡ counted_of key task + n)

  same_number :
      (key : String) (d d' : Db)
      → d' ≡ d
      → counted (redis.value d' key) ≡ counted (redis.value d key) +ℤ pos 0
  same_number key d d' e = ap (λ d. counted (redis.value d key)) e ∙ sym (+ℤ-pos-zero _)

  counted_of-after_read :
      (key : String) (conn : Connection) (r : Outcome IoError (Frame × Source))
      → counted_of key (after_read conn r) ≡ 0
  counted_of-after_read key conn (ok (frame, rest)) = refl
  counted_of-after_read key conn (err e) = refl
  counted_of-after_read key conn (panicked p) = refl

  module _ (c : Codec) (cell : KeyCell) (nonce : List ℕ) (serde : Serde)
      (io_text : IoError → String) where
    pub advance_task-Adds :
        (key : String) (task : Task) (g : Shared Db)
        → Works task g
        → let after : Task × Shared Db =
            advance_task c cell nonce serde io_text server state task g in
          Adds key task after.0 g after.1
    unfolding advance_task forward_frame post_remote_write
    advance_task-Adds key (accepted conn) g done =
        (0, same_number key g.db g.db refl, counted_of-after_read key conn _)
    advance_task-Adds key (received conn frame) g done =
        elim (Bool-cases (frame.message_type == state.config.message_type)) [
          | inl same ↦ rw same (0, same_number key g.db g.db refl, refl)
          | inr other ↦ rw other (
            0,
            same_number key g.db _ (db-write_error c cell nonce serde io_text frame.tx_id _ _),
            refl,
          )
        ]
    advance_task-Adds key (forwarded conn frame r) g done =
        (one_if (counts r key), record_result_number r key (with_out g conn.out) done, omega arith)
    advance_task-Adds key (recorded conn frame r) g done = (
      0,
      same_number key g.db _
          (db-send_result c cell nonce serde io_text frame r (with_out g conn.out)),
      omega arith,
    )
    advance_task-Adds key (ended conn tried r out) g done =
        (0, same_number key g.db g.db refl, omega arith)
