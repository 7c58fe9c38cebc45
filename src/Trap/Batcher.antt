-- ===== src/Trap/Batcher.antt =====
-- internal/trap/batcher.go: the queues of events, one for each severity, and their flush. A queue
-- that the source has not made yet is an empty one here. Between the two reads of the clock and the
-- sections under the lock other goroutines may run, so the parts of a flush are functions of the
-- queue at their time; `flush_severity` puts them together for a flush that nothing interrupts.
pub mod Laws
pub mod Flush
pub mod Batch
pub mod Sent
pub mod Contents
pub mod Entries
use snmp_olt_zte.Common.{
  Bool, true, false, ◌&&◌, not, Option, none, some, List, [], ◌∷◌, ◌++◌, map, if◌then◌else◌, Text,
  codes, text_eq, ℤ, pos, ◌-ℤ◌, ltb_ℤ, leb_ℤ, eq_ℤ, itoa, Map, lookup, insert, delete, text_key,
  int_key,
}
use snmp_olt_zte.Model.{TrapEvent, OnuCustomerInfo}
use snmp_olt_zte.Trap.Event.{
  Severity, critical, high, medium, low, unknown, event_severity, resolve_event_type, is_alert,
}

pub record BatcherEntry : Type 0 where
  pub event : TrapEvent
  -- `none` is the zero time.
  pub last_notified : Option ℤ

abbrev pub Queue : Type 0
Queue = Map Text BatcherEntry

pub record Batcher : Type 0 where
  -- A severity without an entry in the map has the interval 0.
  pub repeat_intervals : Severity → ℤ
  pub groups : Severity → Queue

unfoldable pub same_severity : Severity → Severity → Bool
same_severity critical critical = true
same_severity high high = true
same_severity medium medium = true
same_severity low low = true
same_severity unknown unknown = true
same_severity _ _ = false

-- fmt.Sprintf("%d-%d-%d", event.Board, event.PON, event.OnuID)
unfoldable pub onu_key : TrapEvent → Text
onu_key event = itoa event.board ++ b'-' ∷ (itoa event.pon ++ b'-' ∷ itoa event.onu_id)

abbrev pub queued : TrapEvent → Option BatcherEntry → BatcherEntry
queued event none = record { event = event; last_notified = none }
queued event (some existing) = record existing { event = event }

unfoldable pub add : TrapEvent → Batcher → Batcher
unfolding same_severity
add event b =
    let key = onu_key event in
    record b {
      groups = λ s.
          if same_severity s (event_severity event.event_type)
          then insert key (queued event (lookup key (b.groups s))) (b.groups s)
          else delete key (b.groups s);
    }

unfoldable pub remove : TrapEvent → Batcher → Batcher
remove event b = record b { groups = λ s. delete (onu_key event) (b.groups s) }

-- float64, strconv.ParseFloat and the comparisons.
pub record Floats : Type 1 where
  pub Float : Type 0
  pub parse_float : Text → Option Float
  pub lt : Float → Float → Bool
  pub le : Float → Float → Bool

-- What a flush keeps of the fetched detail besides type and status.
abbrev pub enrich : OnuCustomerInfo → TrapEvent → TrapEvent
enrich detail e = record e {
  rx_power = detail.rx_power;
  last_offline = detail.last_offline;
  last_online = detail.last_online;
  name = if text_eq detail.name [] then e.name else detail.name;
  description = if text_eq detail.description [] then e.description else detail.description;
  serial_number = detail.serial_number;
}

abbrev pub retype : Text → OnuCustomerInfo → TrapEvent → TrapEvent
retype event_type detail e =
    enrich detail (record e { event_type = event_type; status = detail.status })

module _ (fl : Floats) (high_threshold low_threshold : fl.Float) where
  -- The RX power at the time of the flush: `none` if it cannot be read or is normal again.
  power_type : Text → Option Text
  power_type rx_power = elim (fl.parse_float rx_power) [
    | none ↦ none
    | some power ↦
        if fl.le low_threshold power && fl.le power high_threshold
        then none
        else if fl.lt high_threshold power
        then some (codes "HighRxPower")
        else some (codes "LowRxPower")
  ]

  -- The type under which an event of the queue `sev` is still to be notified.
  verified_type : Severity → OnuCustomerInfo → Option Text
  unfolding power_type
  verified_type sev detail =
      let event_type = resolve_event_type detail.status detail.last_offline_reason in
      if same_severity sev medium
      then power_type detail.rx_power
      else if is_alert event_type && same_severity (event_severity event_type) sev
      then some event_type
      else none

  -- `none` puts the key on the list of those to remove.
  unfoldable pub verify_event : Severity → TrapEvent → Option OnuCustomerInfo → Option TrapEvent
  unfolding verified_type
  verify_event sev e none = none
  verify_event sev e (some detail) =
      if eq_ℤ detail.id (pos 0) then none else elim (verified_type sev detail) [
        | none ↦ none
        | some event_type ↦ some (retype event_type detail e)
      ]

-- Already notified, and the repeat interval has not passed (or there is none).
unfoldable pub is_due : ℤ → ℤ → Option ℤ → Bool
is_due repeat_interval now none = true
is_due repeat_interval now (some last) =
    not (leb_ℤ repeat_interval (pos 0)) && not (ltb_ℤ (now -ℤ last) repeat_interval)

-- toRemove, list and notifiedKeys.
pub record Pass : Type 0 where
  pub to_remove : List Text
  pub list : List TrapEvent
  pub notified_keys : List Text

abbrev pub no_pass : Pass
no_pass = record { to_remove = []; list = []; notified_keys = [] }

-- One key of the snapshot: its entry when it is looked up, and the verification.
module _ (repeat_interval : ℤ) (verify : TrapEvent → Option TrapEvent) where
  unfoldable pub visit : ℤ → Text → Option BatcherEntry → Pass → Pass
  visit now key none p = p
  visit now key (some entry) p =
      if is_due repeat_interval now entry.last_notified
      then elim (verify entry.event) [
        | none ↦ record p { to_remove = p.to_remove ++ key ∷ [] }
        | some e ↦ record p { list = p.list ++ e ∷ []; notified_keys = p.notified_keys ++ key ∷ [] }
      ]
      else p

  -- `clock` and `seen` are the time and the queue when a key is looked up.
  unfoldable pub collect : (Text → ℤ) → (Text → Queue) → List Text → Pass → Pass
  unfolding visit
  collect clock seen [] p = p
  collect clock seen (key ∷ keys) p =
      collect clock seen keys (visit (clock key) key (lookup key (seen key)) p)

unfoldable pub delete_all : List Text → Queue → Queue
delete_all [] q = q
delete_all (key ∷ keys) q = delete_all keys (delete key q)

-- The event of the batch that has the key, or else the first one.
unfoldable pub find_event : Text → TrapEvent → List TrapEvent → TrapEvent
find_event key first [] = first
find_event key first (ev ∷ evs) =
    let rest = find_event key first evs in if text_eq (onu_key ev) key then ev else rest

abbrev pub mark_entry : Text → ℤ → TrapEvent → List TrapEvent → Queue → Queue
mark_entry key now first list q = elim (lookup key q) [
  | none ↦ q
  | some entry ↦
      insert key (record { event = find_event key first list; last_notified = some now }) q
]

unfoldable pub mark_notified : List Text → ℤ → TrapEvent → List TrapEvent → Queue → Queue
mark_notified [] now first list q = q
mark_notified (key ∷ keys) now first list q =
    mark_notified keys now first list (mark_entry key now first list q)

-- The section under the lock that follows a batch that is not empty.
unfoldable pub settle : ℤ → ℤ → List Text → List TrapEvent → Queue → Queue
unfolding mark_notified delete_all
settle repeat_interval now keys [] q = q
settle repeat_interval now keys (first ∷ list) q =
    let marked = mark_notified keys now first (first ∷ list) q in
    if leb_ℤ repeat_interval (pos 0) then delete_all keys marked else marked

-- `*WebhookClient` and the payload that its formatter makes; `none` is a formatting error.
pub record WebhookClient : Type 0 where
  pub format_batch : Severity → List TrapEvent → Option Text

unfoldable pub deliver : Option WebhookClient → Severity → List TrapEvent → Option Text
deliver none sev list = none
deliver (some wc) sev [] = none
deliver (some wc) sev (e ∷ list) = wc.format_batch sev (e ∷ list)

abbrev pub with_queue : Severity → Queue → Batcher → Batcher
with_queue sev q b = record b { groups = λ s. if same_severity s sev then q else b.groups s }

-- The whole flush: the new state, and the payload that is sent. `verify` is the identity when there
-- is no fetcher.
unfoldable pub flush_severity :
    Severity
    → (TrapEvent → Option TrapEvent)
    → (Text → ℤ)
    → ℤ
    → Option WebhookClient
    → Batcher
    → Batcher × Option Text
unfolding collect settle deliver delete_all
flush_severity sev verify clock now wc b =
    let entries = b.groups sev in
    let repeat_interval = b.repeat_intervals sev in
    let p =
      collect repeat_interval verify clock (λ _. entries) (map (λ kv. kv.0) entries) no_pass in
    let cleaned = delete_all p.to_remove entries in
    (
      with_queue sev (settle repeat_interval now p.notified_keys p.list cleaned) b,
      deliver wc sev p.list,
    )
